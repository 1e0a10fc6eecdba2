-- ===== src/Store/Steps.antt =====
-- What the driver may do with a store (`Step`, `Reach`), and what every run of that keeps: the
-- invariant, and that a key whose generation is past stays retired.
use native.Mathlib.Decide.{dec_lt, ℕ_discrete}
use lio.Base.{
  ℕ, ◌+◌, ◌<◌, ◌≤◌, ◌≡◌, sym, ap, subst, ◌∙◌, inl, inr, true, false, Option, none, some, panic≢ret,
  arith, set, get_elem?, get_elem?-set, get_elem?-set_ne, get_elem?-lt, ret,
}
use lio.Store.{Slot, OpStore, vacant, u32_max, from_u64, get, put, remove, try_insert}
use lio.Store.Invariant.{IsWf}
use lio.Store.Insertion.{filled, try_insert-cases}
use lio.Store.Removal.{get-eq-some, remove-IsWf, remove_overflow, put_live, put-IsWf}

module _ {ℓ} {A : Type ℓ} where
  -- The driver inserts entries, writes through live keys and removes live keys. A call that panics
  -- makes no step.
  pub data Step (s : OpStore A) (t : OpStore A) : Type ℓ where
    inserts : (reg : A) (made : Option ℕ) → try_insert s reg ≡ ret (made, t) → Step s t
    puts : (id : ℕ) (b a : A) → get s id ≡ some a → t ≡ put s id b → Step s t
    removes : (id : ℕ) (a : A) → get s id ≡ some a → remove s id ≡ ret (true, t) → Step s t

  pub data Reach (s : OpStore A) : OpStore A → Type ℓ where
    here : Reach s s
    next : {t u : OpStore A} → Reach s t → Step t u → Reach s u

  -- The generation of the slot that the key names has gone past the key's.
  pub record IsRetired (id : ℕ) (s : OpStore A) : Type ℓ where
    pub slot : Slot A
    pub at : get_elem? s.slots (from_u64 id).slot ≡ some slot
    pub past : (from_u64 id).generation < slot.generation

  pub get_retired : (id : ℕ) (s : OpStore A) → IsRetired id s → get s id ≡ none
  unfolding get
  get_retired id s r = ground (arith, r.at, r.past)

  pub remove_retired : (id : ℕ) (s : OpStore A) → IsRetired id s → remove s id ≡ ret (false, s)
  unfolding remove
  remove_retired id s r = ground (arith, r.at, r.past)

  -- A write that does not lower the generation of its slot keeps a key retired.
  write-IsRetired :
      (id : ℕ) (s t : OpStore A) (k : ℕ) (old new : Slot A)
      → t.slots ≡ set s.slots k new
      → get_elem? s.slots k ≡ some old
      → old.generation ≤ new.generation
      → IsRetired id s
      → IsRetired id t
  write-IsRetired id s t k old new e at up r = elim (ℕ_discrete k (from_u64 id).slot) [
    | yes same ↦ record {
      slot = new;
      at =
          ap (λ xs. get_elem? xs (from_u64 id).slot) e
          ∙ ground
              (arith, get_elem?-set s.slots k (from_u64 id).slot new (get_elem?-lt s.slots k at));
      past = ground (arith, r.at, r.past, ap (get_elem? s.slots) same);
    }
    | no other ↦ record {
      slot = r.slot;
      at =
          ap (λ xs. get_elem? xs (from_u64 id).slot) e
          ∙ get_elem?-set_ne s.slots k (from_u64 id).slot new other
          ∙ r.at;
      past = r.past;
    }
  ]

  -- A step writes one slot without lowering its generation, or nothing.
  pub data Effect (s : OpStore A) (t : OpStore A) : Type ℓ where
    untouched : t ≡ s → Effect s t
    wrote :
        (k : ℕ) (old new : Slot A)
        → t.slots ≡ set s.slots k new
        → get_elem? s.slots k ≡ some old
        → old.generation ≤ new.generation
        → Effect s t

  pub Effect-IsRetired : (id : ℕ) (s t : OpStore A) → Effect s t → IsRetired id s → IsRetired id t
  Effect-IsRetired id s t (untouched e) r = subst (IsRetired id) (sym e) r
  Effect-IsRetired id s t (wrote k old new e at up) r = write-IsRetired id s t k old new e at up r

  pub inserted-state :
      (s t s' : OpStore A) (reg : A) (m m' : Option ℕ)
      → try_insert s reg ≡ ret (m, t)
      → try_insert s reg ≡ ret (m', s')
      → (m ≡ m') × (t ≡ s')
  inserted-state s t s' reg m m' e f = ground (arith, e, f)

  pub removed-state :
      (s t s' : OpStore A) (id : ℕ)
      → remove s id ≡ ret (true, t)
      → remove s id ≡ ret (true, s')
      → t ≡ s'
  removed-state s t s' id e f = ground (arith, e, f)

  pub Step-Effect : (s t : OpStore A) → Step s t → IsWf s → IsWf t × Effect s t
  Step-Effect s t (inserts reg made e) v = elim (try_insert-cases s reg v) [
    | inl r ↦
        let p = (inserted-state s t s reg made none e r.refused).1 in
        (subst IsWf (sym p) v, untouched p)
    | inr (i, s', m) ↦
        let p = (inserted-state s t s' reg made _ e m.made).1 in
        (
          subst IsWf (sym p) m.valid,
          wrote i.slot (vacant i.generation) (filled i.generation reg)
              (ap (λ u. u.slots) p ∙ m.written) m.was (omega arith),
        )
  ]
  Step-Effect s t (puts id b a e p) v = (
    subst IsWf (sym p) (put-IsWf s id b v e),
    wrote (from_u64 id).slot _ (filled (from_u64 id).generation b)
        (ap (λ u. u.slots) (p ∙ put_live s id b e)) (get-eq-some s id e) (omega arith),
  )
  Step-Effect s t (removes id a e p) v = elim (dec_lt (from_u64 id).generation u32_max) [
    | yes room ↦
        let (done, valid) = remove-IsWf s id v e room in
        let q = removed-state s t _ id p done in
        (
          subst IsWf (sym q) valid,
          wrote (from_u64 id).slot _ (vacant ((from_u64 id).generation + 1)) (ap (λ u. u.slots) q)
              (get-eq-some s id e) (omega arith),
        )
    | no full ↦ absurd (panic≢ret (sym (remove_overflow s id e (omega arith)) ∙ p))
  ]

  pub Reach-IsWf : (s t : OpStore A) → Reach s t → IsWf s → IsWf t
  Reach-IsWf s t here v = v
  Reach-IsWf s t (next {t = u} r st) v = (Step-Effect u t st (Reach-IsWf s u r v)).0

  pub Reach-IsRetired :
      (id : ℕ) (s t : OpStore A) → Reach s t → IsWf s → IsRetired id s → IsRetired id t
  Reach-IsRetired id s t here v h = h
  Reach-IsRetired id s t (next {t = u} r st) v h =
      Effect-IsRetired id u t (Step-Effect u t st (Reach-IsWf s u r v)).1
        (Reach-IsRetired id s u r v h)
