-- ===== src/Driver/Batches.antt =====
-- Batches of completions that the backend owes, against the registrations of the store.
use lio.Base.{
  ℕ, suc, ◌≤◌, ◌<◌, ◌^◌, ◌≡◌, ◌≢◌, refl, inl, inr, Option, none, some, List, [], ◌∷◌, arith, All,
  ◌==◌, ==_refl, Bool-cases,
}
use lio.Op.{OpCompleted}
use lio.Contract.{count}
use lio.Store
use lio.Store.{OpStore, from_u64, u32_max}
use lio.Registration.{Notifier, Registration, waker, callback, pending, done}
use lio.Driver.Notify.{Ready}
use lio.Driver.RunInner.{IsYoung, final_at}
use lio.Driver.Schedule.{IsYoungStore, IsYoungStore-live}

count_none : (j : ℕ) (cs : List OpCompleted) → count j cs ≡ 0 → All (λ d. j ≢ d.op_id) cs
count_none j [] e = tt
count_none j (c ∷ cs) e = elim (Bool-cases (c.op_id == j)) [
  | inl y ↦ absurd (ground (arith, e, y))
  | inr n ↦ (λ q. absurd (ground (arith, n, q, ==_refl j)), count_none j cs (ground (arith, e, n)))
]

module _ {W C : Type 0} where
  -- A batch of completions that are all owed finds its registrations.
  pub owed-Ready :
      (s : OpStore (Registration W C)) (f : ℕ → ℕ) (cs : List OpCompleted)
      → ((j : ℕ) → count j cs ≤ f j)
      → ((j : ℕ) → f j ≤ 1)
      → ((j : ℕ) → 1 ≤ f j → (j < 2 ^ 64) × (n : Notifier W C) × (Store.get s j ≡ some (pending n)))
      → (ns : List (Notifier W C)) × Ready s cs ns
  owed-Ready s f [] owed once found = ([], tt)
  owed-Ready s f (c ∷ cs) owed once found =
      let here : count c.op_id (c ∷ cs) ≡ suc (count c.op_id cs) = rw (==_refl c.op_id) in
      let (fits, n, live) = found c.op_id (omega (arith, here, owed c.op_id)) in
      let (ns, rest) = owed-Ready s f cs (λ j. ground (arith, owed j)) once found in
      (
        n ∷ ns,
        (fits, live, count_none c.op_id cs (omega (arith, here, owed c.op_id, once c.op_id)), rest),
      )

  pub final_at_other :
      (j : ℕ) (cs : List OpCompleted) (ns : List (Notifier W C)) (o : Option (Registration W C))
      → count j cs ≡ 0
      → final_at j cs ns o ≡ o
  final_at_other j [] ns o e = refl
  final_at_other j (c ∷ cs) [] o e = refl
  final_at_other j (c ∷ cs) (waker w ∷ ns) o e = ground (arith, e, final_at_other j cs ns o)
  final_at_other j (c ∷ cs) (callback k ∷ ns) o e = ground (arith, e, final_at_other j cs ns o)

  pub final_at_unread :
      (j : ℕ) (cs : List OpCompleted) (ns : List (Notifier W C)) (o : Option (Registration W C))
      → o ≢ some (done none)
      → final_at j cs ns o ≢ some (done none)
  final_at_unread j [] ns o h = h
  final_at_unread j (c ∷ cs) [] o h = h
  final_at_unread j (c ∷ cs) (waker w ∷ ns) o h = elim (Bool-cases (c.op_id == j)) [
    | inl e ↦ rw e (λ q. cc)
    | inr e ↦ rw e (final_at_unread j cs ns o h)
  ]
  final_at_unread j (c ∷ cs) (callback k ∷ ns) o h = elim (Bool-cases (c.op_id == j)) [
    | inl e ↦ rw e (λ q. cc)
    | inr e ↦ rw e (final_at_unread j cs ns o h)
  ]

  pub Ready-IsYoung :
      (s : OpStore (Registration W C)) (cs : List OpCompleted) (ns : List (Notifier W C))
      → IsYoungStore s
      → Ready s cs ns
      → All IsYoung cs
  Ready-IsYoung s [] ns y h = tt
  Ready-IsYoung s (c ∷ cs) [] y h = absurd h
  Ready-IsYoung s (c ∷ cs) (n ∷ ns) y h =
      (IsYoungStore-live s c.op_id y h.1, Ready-IsYoung s cs ns y h.3)
