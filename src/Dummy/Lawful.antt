-- ===== src/Dummy/Lawful.antt =====
-- The dummy backend keeps the contract of a backend for every operation.
use lio.Base.{
  ℕ, suc, ◌+◌, ◌≡◌, refl, true, List, [], ◌∷◌, ◌++◌, map, arith, ◌==◌, if◌then◌else◌, Option, ret,
  ok, pos,
}
use lio.Base.{All}
use lio.Op.{Op, OpCompleted, Duration}
use lio.Contract.{count, IsBackend, accepts, starts, flushed, reports}
use lio.Dummy
use lio.Dummy.{DummyBackend, succeeded}

-- How many completions are pending for a key.
abbrev pub tally : ℕ → List ℕ → ℕ
tally j [] = 0
tally j (k ∷ ks) = if k == j then suc (tally j ks) else tally j ks

tally-append :
    (j : ℕ) (ks : List ℕ) (id : ℕ)
    → tally j (ks ++ id ∷ []) ≡ tally j ks + (if id == j then 1 else 0)
tally-append j [] id = ground arith
tally-append j (k ∷ ks) id = ground (arith, tally-append j ks id)

count-succeeded : (j : ℕ) (ks : List ℕ) → count j (map succeeded ks) ≡ tally j ks
count-succeeded j [] = refl
count-succeeded j (k ∷ ks) = ground (arith, count-succeeded j ks)

abbrev pub IsStarted : DummyBackend → Type 0
IsStarted b = b.initialized ≡ true

abbrev pub owed : DummyBackend → ℕ → ℕ
owed b j = tally j b.pending

pub dummy-IsBackend : IsBackend Dummy.backend IsStarted owed (λ b. Unit) (λ op. Unit)
unfolding Dummy.backend Dummy.init Dummy.push Dummy.flush Dummy.wait_timeout
dummy-IsBackend = record {
  inits = λ cap b fresh. starts _ refl refl (λ j. refl);
  pushes = λ id op b started allowed free.
      accepts (record b { pending = b.pending ++ id ∷ [] }) (rw started refl) started
        (λ j. omega (arith, tally-append j b.pending id));
  flushes = λ b started. flushed _ b refl started (λ j. omega arith);
  waits = λ timeout b started.
      reports (map succeeded b.pending) _ refl started
        (λ j. omega (arith, count-succeeded j b.pending));
}

results_zero : (ks : List ℕ) → All (λ c. c.result ≡ pos 0) (map succeeded ks)
results_zero [] = tt
results_zero (k ∷ ks) = (refl, results_zero ks)

-- Once it is initialised, the dummy backend accepts every operation, and owes one completion more for
-- its key than before, and the same for every other; `flush` leaves what it owes; and
-- `wait_timeout` reports each completion as often as it is owed, with result 0, and owes nothing then.
pub dummy_lem :
    (id : ℕ) (op : Op) (timeout : Option Duration) (b : DummyBackend)
    → IsStarted b
    → (b₁ b₂ : DummyBackend) × (cs : List OpCompleted) × (Dummy.push id op b ≡ ret (ok tt, b₁))
      × IsStarted b₁
      × ((j : ℕ) → owed b₁ j ≡ owed b j + (if id == j then 1 else 0))
      × (Dummy.flush b₁ ≡ ret (ok 0, b₁))
      × (Dummy.wait_timeout timeout b₁ ≡ ret (ok cs, b₂))
      × IsStarted b₂
      × ((j : ℕ) → count j cs ≡ owed b₁ j)
      × All (λ c. c.result ≡ pos 0) cs
      × ((j : ℕ) → owed b₂ j ≡ 0)
unfolding Dummy.push Dummy.flush Dummy.wait_timeout
dummy_lem id op timeout b started =
    let b₁ : DummyBackend = record b { pending = b.pending ++ id ∷ [] } in
    (
      b₁,
      record b₁ { pending = []; completed = map succeeded b₁.pending },
      map succeeded b₁.pending,
      rw started refl,
      started,
      λ j. omega (arith, tally-append j b.pending id),
      refl,
      refl,
      started,
      λ j. count-succeeded j b₁.pending,
      results_zero b₁.pending,
      λ j. refl,
    )
