-- ===== src/Dummy/Drained.antt =====
-- What a sequence of pushes to the dummy backend completes.
use lio.Base.{
  ℕ, ◌≡◌, refl, sym, ap, true, List, [], ◌∷◌, ◌++◌, append_assoc, append-nil, map, Outcome, ret,
  panic, ok, Option, arith,
}
use lio.Op.{Op, Duration}
use lio.Dummy
use lio.Dummy.{DummyBackend, push, wait_timeout, succeeded}

pub push_all : List (ℕ × Op) → DummyBackend → Outcome DummyBackend
push_all [] b = ret b
push_all ((id, op) ∷ rest) b = elim (push id op b) [
  | panic ↦ panic
  | ret (_, b') ↦ push_all rest b'
]

push_all-pending :
    (ops : List (ℕ × Op)) (b : DummyBackend)
    → b.initialized ≡ true
    → push_all ops b ≡ ret (record b { pending = b.pending ++ map (λ o. o.0) ops })
unfolding push_all push
push_all-pending [] b e = ap (λ l. ret (record b { pending = l })) (sym (append-nil b.pending))
push_all-pending ((id, op) ∷ rest) b e = ground (
  arith,
  push_all-pending rest (record b { pending = b.pending ++ id ∷ [] }) e,
  append_assoc b.pending (id ∷ []) (map (λ o. o.0) rest),
)

-- After `init`, whatever was pushed is completed by one wait, each operation once, with result 0
-- and in the order of the pushes, and a second wait completes nothing.
pub init-push-wait :
    (entries : ℕ) (ops : List (ℕ × Op)) (b : DummyBackend) (timeout : Option Duration)
    → (b₁ b₂ b₃ : DummyBackend) × (Dummy.init entries b ≡ ret (ok tt, b₁))
      × (push_all ops b₁ ≡ ret b₂)
      × (wait_timeout timeout b₂ ≡ ret (ok (map succeeded (map (λ o. o.0) ops)), b₃))
      × (wait_timeout timeout b₃ ≡ ret (ok [], record b₃ { completed = [] }))
unfolding wait_timeout Dummy.init
init-push-wait entries ops b timeout = (
  record { pending = []; completed = []; initialized = true },
  record { pending = map (λ o. o.0) ops; completed = []; initialized = true },
  record { pending = []; completed = map succeeded (map (λ o. o.0) ops); initialized = true },
  refl,
  push_all-pending ops _ refl,
  refl,
  refl,
)
