-- ===== src/Resource/Closing.antt =====
-- Who closes a descriptor, and when.
use lio.Base.{
  ℕ, suc, ◌≤◌, ◌≡◌, subst, ◌==◌, inl, inr, some, Option-cases, [], ◌∷◌, arith, ret, get_elem?, set,
  if◌then◌else◌, zero,
}
use lio.Syscall.{Syscall}
use lio.Resource.{Owned, Heap, clone, drop, count, will_close}
use lio.Resource.Owners.{World, Reach, tally, calls_for, Settled, none_or_more, Reach-Settled}

-- In every world that a program can reach, the count of a resource is the number of its owners,
-- `will_close` says whether there is only one, and its descriptor has been closed exactly once if
-- there are none, and never before.
pub closed_without_owners :
    (w : World) (r : ℕ) (cell : Owned)
    → Reach w
    → get_elem? w.heap r ≡ some cell
    → (count r w.heap ≡ ret (tally r w.owners))
      × (will_close r w.heap ≡ ret (tally r w.owners == 1))
      × (calls_for r w.calls
          ≡ (if tally r w.owners == 0 then Syscall.close cell.inner ∷ [] else []))
unfolding count will_close
closed_without_owners w r cell h at =
    let s = subst (Settled w r) at (Reach-Settled w h r) in
    (ground (arith, at, s.0), ground (arith, at, s.0), s.1)

-- A program that has a resource can clone it, which makes no call, and drop it, which closes its
-- descriptor if it was the only owner and makes no call otherwise.
pub drop_by_owner :
    (w : World) (r : ℕ)
    → Reach w
    → 1 ≤ tally r w.owners
    → (cell : Owned) × (h₁ h₂ : Heap) × (get_elem? w.heap r ≡ some cell)
      × (clone r w.heap ≡ ret (r, h₁))
      × (drop r w.heap
          ≡ ret ((if tally r w.owners == 1 then Syscall.close cell.inner ∷ [] else []), h₂))
unfolding clone drop
drop_by_owner w r h owned = elim (Option-cases (get_elem? w.heap r)) [
  | inl missing ↦
      let s = subst (Settled w r) missing (Reach-Settled w h r) in
      absurd (omega (arith, s.0, owned))
  | inr (cell, at) ↦
      let s = subst (Settled w r) at (Reach-Settled w h r) in
      elim (none_or_more cell.strong) [
        | inl freed ↦ absurd (omega (arith, freed, s.0, owned))
        | inr (zero, last) ↦ (
          cell,
          set w.heap r (record cell { strong = 2 }),
          set w.heap r (record cell { strong = 0 }),
          at,
          ground (arith, at, last),
          ground (arith, at, last, s.0),
        )
        | inr (suc n, more) ↦ (
          cell,
          set w.heap r (record cell { strong = suc (suc (suc n)) }),
          set w.heap r (record cell { strong = suc n }),
          at,
          ground (arith, at, more),
          ground (arith, at, more, s.0),
        )
      ]
]
