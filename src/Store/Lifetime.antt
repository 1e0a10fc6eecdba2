-- ===== src/Store/Lifetime.antt =====
-- The life of a key: once removed it is never live again and never handed out a second time.
use native.Mathlib.Decide.{dec_lt}
use lio.Base.{
  ℕ, ◌+◌, ◌<◌, ◌^◌, ◌≡◌, ◌≢◌, sym, ap, subst, ◌∙◌, inl, inr, true, false, none, some, panic≢ret,
  arith, get_elem?, get_elem?-set_self, get_elem?-lt, ret,
}
use lio.Store.{
  Index, OpStore, with_capacity, vacant, u32_max, notify_key, as_u64, from_u64, get, remove,
  try_insert,
}
use lio.Store.Packing.{as_u64-sum, from_u64-as_u64, slot_of, generation_of}
use lio.Store.Invariant.{IsWf, with_capacity-IsWf}
use lio.Store.Insertion.{Inserted, try_insert-cases}
use lio.Store.Removal.{get-eq-some, remove_live, remove_overflow}
use lio.Store.Steps.{
  Effect, removed-state, inserted-state, removes, Reach, IsRetired, get_retired, remove_retired,
  Step-Effect, Reach-IsWf, Reach-IsRetired,
}

module _ {ℓ} {A : Type ℓ} where
  removed-IsRetired :
      (s s' : OpStore A) (id : ℕ) {a : A}
      → get s id ≡ some a
      → remove s id ≡ ret (true, s')
      → IsRetired id s'
  removed-IsRetired s s' id e p = elim (dec_lt (from_u64 id).generation u32_max) [
    | yes room ↦ record {
      slot = vacant ((from_u64 id).generation + 1);
      at =
          ap (λ u. get_elem? u.slots (from_u64 id).slot)
            (removed-state s s' _ id p (remove_live s id e room))
          ∙ get_elem?-set_self s.slots (from_u64 id).slot _
              (get_elem?-lt s.slots (from_u64 id).slot (get-eq-some s id e));
      past = omega arith;
    }
    | no full ↦ absurd (panic≢ret (sym (remove_overflow s id e (omega arith)) ∙ p))
  ]

  issued_index :
      (t u : OpStore A) (reg : A) (made : ℕ)
      → IsWf t
      → try_insert t reg ≡ ret (some made, u)
      → (i : Index) × Inserted t reg i u × (made ≡ as_u64 i)
  issued_index t u reg made v q = elim (try_insert-cases t reg v) [
    | inl r ↦ let p : some made ≡ none = (inserted-state t u t reg _ _ q r.refused).0 in cc
    | inr (i, u', m) ↦
        let (p, p') = inserted-state t u u' reg _ _ q m.made in
        (i, subst (Inserted t reg i) (sym p') m, ground (arith, p))
  ]

  issued_ne_retired :
      (t u : OpStore A) (reg : A) (made id : ℕ)
      → IsWf t
      → IsRetired id t
      → try_insert t reg ≡ ret (some made, u)
      → made ≢ id
  issued_ne_retired t u reg made id v r q same =
      let (i, m, e) = issued_index t u reg made v q in
      let back : from_u64 id ≡ i = ap from_u64 (sym same ∙ e) ∙ from_u64-as_u64 i m.index in
      ground (
        arith,
        back,
        m.was,
        r.at,
        r.past,
        ap (λ j. get_elem? t.slots (slot_of j)) back,
        ap generation_of back,
      )

  -- The invariant holds in whatever the driver makes of a new store.
  pub Reach-with_capacity-IsWf : (cap : ℕ) (t : OpStore A) → Reach (with_capacity A cap) t → IsWf t
  Reach-with_capacity-IsWf cap t r = Reach-IsWf _ t r (with_capacity-IsWf cap)

  -- A key that was removed reads nothing in every later store, and cannot be removed again.
  pub removed_key_stays_dead :
      (s s' t : OpStore A) (id : ℕ) {a : A}
      → IsWf s
      → get s id ≡ some a
      → remove s id ≡ ret (true, s')
      → Reach s' t
      → (get t id ≡ none) × (remove t id ≡ ret (false, t))
  removed_key_stays_dead s s' t id {a} v e p r = (get_retired id t dead, remove_retired id t dead)
    where
      dead : IsRetired id t
      dead =
          Reach-IsRetired id s' t r (Step-Effect s s' (removes id a e p) v).0
            (removed-IsRetired s s' id e p)

  -- A key that was removed is not handed out again by any later insertion.
  pub removed_key_not_reissued :
      (s s' t u : OpStore A) (id : ℕ) (reg : A) {a : A} {made : ℕ}
      → IsWf s
      → get s id ≡ some a
      → remove s id ≡ ret (true, s')
      → Reach s' t
      → try_insert t reg ≡ ret (some made, u)
      → made ≢ id
  removed_key_not_reissued s s' t u id reg {a} {made} v e p r q =
      issued_ne_retired t u reg made id (Reach-IsWf s' t r after.0)
        (Reach-IsRetired id s' t r after.0 (removed-IsRetired s s' id e p)) q
    where
      after : IsWf s' × Effect s s'
      after = Step-Effect s s' (removes id a e p) v

  -- No key of a store is `NOTIFY_KEY`, which the pollers keep for their own events.
  pub issued_ne_notify :
      (t u : OpStore A) (reg : A) (made : ℕ)
      → IsWf t
      → try_insert t reg ≡ ret (some made, u)
      → (made ≢ notify_key) × (made < 2 ^ 64)
  issued_ne_notify t u reg made v q =
      let (i, m, e) = issued_index t u reg made v q in
      omega (
        arith,
        e,
        as_u64-sum i m.index,
        m.index,
        get_elem?-lt t.slots i.slot m.was,
        v.sized,
        v.small,
      )
