-- ===== src/Poller/Wait.antt =====
-- `Poller::wait_timeout`: what the round of the loop for one event does.
use lio.Base.{
  ℕ, true, ◌≡◌, ◌≢◌, subst, ◌⊎◌, inl, inr, none, List, [], ◌∷◌, ◌++◌, ret, arith, All, ◌==◌, ==→≡,
  if◌then◌else◌, IoError, ok, err, Bool-cases,
}
use lio.Base.Assoc.{lookup}
use lio.Contract.{count}
use lio.Op.{OpCompleted}
use lio.Syscall.{Kernel}
use lio.Poller.{Poller, Event, ReadinessPoll}
use lio.Poller.Backend.{process_all}
use lio.Poller.OneEvent.{IsExpected, Refuses}
use lio.Poller.Consistency.{IsConsistent, is_some}

-- The events are for different operations.
abbrev pub Expected : Poller → List Event → Type 0
Expected p [] = Unit
Expected p (e ∷ es) = IsExpected p e × All (λ d. e.key ≢ d.key) es × Expected p es

-- From `p` to `p'` the key `j` kept its operation and has no completion, or it lost its operation
-- and has one.
abbrev pub Settles : ℕ → Poller → Poller → List OpCompleted → Type 0
Settles j p p' done =
    ((lookup j p'.op_map ≡ lookup j p.op_map) × (count j done ≡ 0))
    ⊎ ((is_some (lookup j p.op_map) ≡ true) × (lookup j p'.op_map ≡ none) × (count j done ≡ 1))

pub Settles-same :
    (j : ℕ) (p q p' : Poller) (done : List OpCompleted)
    → lookup j q.op_map ≡ lookup j p.op_map
    → Settles j q p' done
    → Settles j p p' done
Settles-same j p q p' done same h = ground (arith, h)

pub Settles-cons :
    (j : ℕ) (p q p' : Poller) (c : OpCompleted) (done : List OpCompleted)
    → is_some (lookup c.op_id p.op_map) ≡ true
    → lookup j q.op_map ≡ (if c.op_id == j then none else lookup j p.op_map)
    → Settles j q p' done
    → Settles j p p' (c ∷ done)
Settles-cons j p q p' c done had less h = elim (Bool-cases (c.op_id == j)) [
  | inl same ↦
      let there : is_some (lookup j p.op_map) ≡ true =
        subst (λ i. is_some (lookup i p.op_map) ≡ true) (==→≡ c.op_id j same) had in
      ground (arith, h, same, less, there)
  | inr other ↦ ground (arith, h, other, less)
]

module _ {K : Type 0} (kernel : Kernel K) (poll : ReadinessPoll K) where
  data Round (es : List Event) (p : Poller) (k : K) : Type 0 where
    broke :
        (x : IoError) (p' : Poller) (k' : K)
        → process_all kernel poll es (p, k) ≡ ret (err x, (p', k'))
        → Refuses poll x
        → Round es p k
    whole :
        (p' : Poller) (k' : K) (done : List OpCompleted)
        → process_all kernel poll es (p, k) ≡ ret (ok tt, (p', k'))
        → IsConsistent p'
        → p'.completed ≡ p.completed ++ done
        → p'.immediate ≡ p.immediate
        → ((j : ℕ) → Settles j p p' done)
        → Round es p k
