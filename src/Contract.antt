-- ===== src/Contract.antt =====
-- What the driver relies on in a backend: lio/src/backends/backends.rs, the trait `IoBackend`, as a
-- contract. It speaks of the states that a backend can be in, `Good`, and of how many completions
-- it still owes for a key, `held`; `Fresh` are the states before `init`, and `Allowed` the
-- operations for which the contract is kept.
use lio.Base.{
  ℕ, suc, ◌+◌, ◌≤◌, ◌≡◌, Option, List, [], ◌∷◌, ◌==◌, if◌then◌else◌, ret, IoError, IoResult, ok,
  err, arith,
}
use lio.Op.{Op, OpCompleted, IoBackend, Duration}

-- How many completions a batch has for a key.
abbrev pub count : ℕ → List OpCompleted → ℕ
count j [] = 0
count j (c ∷ cs) = if c.op_id == j then suc (count j cs) else count j cs

module _ {B : Type 0} (backend : IoBackend B) (Good : B → Type 0) (held : B → ℕ → ℕ) where
  -- What `push` does: the backend takes on one completion for the key, or it refuses.
  pub data Pushes (id : ℕ) (op : Op) (b : B) : Type 0 where
    accepts :
        (b' : B)
        → backend.push id op b ≡ ret (ok tt, b')
        → Good b'
        → ((j : ℕ) → held b' j ≤ held b j + (if id == j then 1 else 0))
        → Pushes id op b
    refuses :
        (e : IoError) (b' : B)
        → backend.push id op b ≡ ret (err e, b')
        → Good b'
        → ((j : ℕ) → held b' j ≤ held b j)
        → Pushes id op b

  -- What a backend does that takes on one completion for each operation that it accepts.
  pub data TakesOn (id : ℕ) (op : Op) (b : B) : Type 0 where
    takes :
        (b' : B)
        → backend.push id op b ≡ ret (ok tt, b')
        → Good b'
        → ((j : ℕ) → held b' j ≡ held b j + (if id == j then 1 else 0))
        → TakesOn id op b
    declines :
        (e : IoError) (b' : B)
        → backend.push id op b ≡ ret (err e, b')
        → Good b'
        → ((j : ℕ) → held b' j ≡ held b j)
        → TakesOn id op b

  pub TakesOn-Pushes : (id : ℕ) (op : Op) (b : B) → TakesOn id op b → Pushes id op b
  TakesOn-Pushes id op b (takes b' run good more) = accepts b' run good (λ j. omega (arith, more j))
  TakesOn-Pushes id op b (declines e b' run good same) =
      refuses e b' run good (λ j. omega (arith, same j))

  pub data Flushes (b : B) : Type 0 where
    flushed :
        (r : IoResult ℕ) (b' : B)
        → backend.flush b ≡ ret (r, b')
        → Good b'
        → ((j : ℕ) → held b' j ≤ held b j)
        → Flushes b

  -- What `wait_timeout` does: what it reports it no longer owes; a failure takes nothing on.
  pub data Waits (timeout : Option Duration) (b : B) : Type 0 where
    reports :
        (cs : List OpCompleted) (b' : B)
        → backend.wait_timeout timeout b ≡ ret (ok cs, b')
        → Good b'
        → ((j : ℕ) → held b' j + count j cs ≤ held b j)
        → Waits timeout b
    fails :
        (e : IoError) (b' : B)
        → backend.wait_timeout timeout b ≡ ret (err e, b')
        → Good b'
        → ((j : ℕ) → held b' j ≤ held b j)
        → Waits timeout b

  -- What `init` does: a backend that owes nothing, or an error.
  pub data Starts (cap : ℕ) (b : B) : Type 0 where
    starts :
        (b' : B)
        → backend.init cap b ≡ ret (ok tt, b')
        → Good b'
        → ((j : ℕ) → held b' j ≡ 0)
        → Starts cap b
    stops : (e : IoError) (b' : B) → backend.init cap b ≡ ret (err e, b') → Starts cap b

  -- The backend never panics and never completes what was not pushed or was completed before.
  pub record IsBackend (Fresh : B → Type 0) (Allowed : Op → Type 0) : Type 0 where
    pub inits : (cap : ℕ) (b : B) → Fresh b → Starts cap b
    pub pushes : (id : ℕ) (op : Op) (b : B) → Good b → Allowed op → held b id ≡ 0 → Pushes id op b
    pub flushes : (b : B) → Good b → Flushes b
    pub waits : (timeout : Option Duration) (b : B) → Good b → Waits timeout b

  -- Of an operation that it accepts it also owes the completion, so that none is lost in `push`.
  pub record IsExactBackend (Fresh : B → Type 0) (Allowed : Op → Type 0) : Type 0 where
    pub keeps : IsBackend Fresh Allowed
    pub takes_on :
        (id : ℕ) (op : Op) (b : B) → Good b → Allowed op → held b id ≡ 0 → TakesOn id op b
