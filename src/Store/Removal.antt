-- ===== src/Store/Removal.antt =====
-- `remove` and `get` under the invariant, by the slot that a key names.
use native.Mathlib.Decide.{dec_lt}
use lio.Base.{
  ℕ, ◌+◌, ◌≤◌, ◌<◌, ◌≡◌, ◌≢◌, sym, ap, subst, ◌∙◌, true, some, List, [], ◌∷◌, ◌++◌, arith, All,
  length, length-append, set, get_elem?, get_elem?-set, get_elem?-set_ne, get_elem?-set_self,
  get_elem?-lt, length-set, ==_refl, ret, panic,
}
use lio.Store.{Slot, Index, OpStore, vacant, u32_max, from_u64, get, put, remove}
use lio.Store.Invariant.{IsWf, IsVacant, IsVacant-set, Distinct, occupied-set}
use lio.Store.Insertion.{filled}

module _ {ℓ} {A : Type ℓ} where
  -- A key is live when the slot that it names holds an entry of its generation.
  pub get-eq-some :
      (s : OpStore A) (id : ℕ) {a : A}
      → get s id ≡ some a
      → get_elem? s.slots (from_u64 id).slot ≡ some (filled (from_u64 id).generation a)
  unfolding get
  get-eq-some s id {a} e = ground arith

  pub get_of_slot :
      (s : OpStore A) (id : ℕ) {a : A}
      → get_elem? s.slots (from_u64 id).slot ≡ some (filled (from_u64 id).generation a)
      → get s id ≡ some a
  unfolding get
  get_of_slot s id {a} e = ground (arith, ==_refl (from_u64 id).generation)

  abbrev pub removed : OpStore A → Index → OpStore A
  removed s i = record s {
    slots = set s.slots i.slot (vacant (i.generation + 1));
    free_list = s.free_list ++ i.slot ∷ [];
  }

  pub remove_live :
      (s : OpStore A) (id : ℕ) {a : A}
      → get s id ≡ some a
      → (from_u64 id).generation < u32_max
      → remove s id ≡ ret (true, removed s (from_u64 id))
  unfolding remove
  remove_live s id e room = ground (arith, get-eq-some s id e, ==_refl (from_u64 id).generation)

  -- The counter of a slot whose key has the last generation cannot be raised.
  pub remove_overflow :
      (s : OpStore A) (id : ℕ) {a : A}
      → get s id ≡ some a
      → u32_max ≤ (from_u64 id).generation
      → remove s id ≡ panic
  unfolding remove
  remove_overflow s id e full = ground (arith, get-eq-some s id e, ==_refl (from_u64 id).generation)

All-snoc {ℓ} : (P : ℕ → Type ℓ) (xs : List ℕ) (x : ℕ) → All P xs → P x → All P (xs ++ x ∷ [])
All-snoc P [] x h p = (p, tt)
All-snoc P (y ∷ xs) x h p = (h.0, All-snoc P xs x h.1 p)

Distinct-snoc : (xs : List ℕ) (x : ℕ) → Distinct xs → All (λ y. x ≢ y) xs → Distinct (xs ++ x ∷ [])
Distinct-snoc [] x d h = (tt, tt)
Distinct-snoc (y ∷ xs) x d h =
    (All-snoc (λ z. y ≢ z) xs x d.0 (λ e. h.0 (sym e)), Distinct-snoc xs x d.1 h.1)

module _ {ℓ} {A : Type ℓ} (slots : List (Slot A)) where
  -- An occupied slot is not on a list of vacant ones, and writing it leaves those vacant.
  occupied-ne :
      (i g : ℕ) (a : A) (n : ℕ) (free : List ℕ)
      → get_elem? slots i ≡ some (filled g a)
      → All (λ j. (j < n) × IsVacant slots j) free
      → All (λ j. i ≢ j) free
  occupied-ne i g a n [] e h = tt
  occupied-ne i g a n (j ∷ free) e h = (
    (λ same.
        let clash : some (filled g a) ≡ some (vacant h.0.1.0) =
          sym e ∙ ap (get_elem? slots) same ∙ h.0.1.1 in
        cc),
    occupied-ne i g a n free e h.1,
  )

  vacant-set :
      (i : ℕ) (new : Slot A) (n : ℕ) (free : List ℕ)
      → All (λ j. i ≢ j) free
      → All (λ j. (j < n) × IsVacant slots j) free
      → All (λ j. (j < n) × IsVacant (set slots i new) j) free
  vacant-set i new n [] ne h = tt
  vacant-set i new n (j ∷ free) ne h =
      ((h.0.0, IsVacant-set slots i j new ne.0 h.0.1), vacant-set i new n free ne.1 h.1)

module _ {ℓ} {A : Type ℓ} where
  -- An entry stands in a slot that was issued.
  live-lt :
      (s : OpStore A) (i g : ℕ) (a : A)
      → IsWf s
      → get_elem? s.slots i ≡ some (filled g a)
      → i < s.next_slot
  live-lt s i g a v e = elim (dec_lt i s.next_slot) [
    | yes lt ↦ lt
    | no ge ↦
        let clash : some (filled g a) ≡ some (vacant 0) =
          sym e ∙ v.unused i (omega arith) (omega (arith, get_elem?-lt s.slots i e, v.sized)) in
        cc
  ]

  removed-IsWf :
      (s : OpStore A) (i : Index) (a : A)
      → IsWf s
      → get_elem? s.slots i.slot ≡ some (filled i.generation a)
      → i.generation < u32_max
      → IsWf (removed s i)
  removed-IsWf s i a v e room = record {
    sized = length-set s.slots i.slot _ ∙ v.sized;
    small = v.small;
    within = v.within;
    fits = λ j slot h.
        ground
          (arith, v.fits j slot, get_elem?-set s.slots i.slot j (vacant (i.generation + 1)) bound);
    unused = λ j h k. get_elem?-set_ne s.slots i.slot j _ (omega (arith, issued)) ∙ v.unused j h k;
    freed =
        All-snoc _ s.free_list i.slot
          (vacant-set s.slots i.slot _ s.next_slot s.free_list other v.freed)
          (issued, (i.generation + 1, get_elem?-set_self s.slots i.slot _ bound));
    apart = Distinct-snoc s.free_list i.slot v.apart other;
    balance = omega (
      arith,
      v.balance,
      length-append s.free_list (i.slot ∷ []),
      occupied-set s.slots i.slot (filled i.generation a) (vacant (i.generation + 1)) e,
    );
  }
    where
      bound : i.slot < length s.slots
      bound = get_elem?-lt s.slots i.slot e

      issued : i.slot < s.next_slot
      issued = live-lt s i.slot i.generation a v e

      other : All (λ j. i.slot ≢ j) s.free_list
      other = occupied-ne s.slots i.slot i.generation a s.next_slot s.free_list e v.freed

  -- Removing a live key returns `true`, unless its generation is the last one, and keeps the store
  -- well formed.
  pub remove-IsWf :
      (s : OpStore A) (id : ℕ) {a : A}
      → IsWf s
      → get s id ≡ some a
      → (from_u64 id).generation < u32_max
      → (remove s id ≡ ret (true, removed s (from_u64 id))) × IsWf (removed s (from_u64 id))
  remove-IsWf s id {a} v e room =
      (remove_live s id e room, removed-IsWf s (from_u64 id) a v (get-eq-some s id e) room)

  abbrev pub replaced : OpStore A → Index → A → OpStore A
  replaced s i a = record s { slots = set s.slots i.slot (filled i.generation a) }

  pub put_live :
      (s : OpStore A) (id : ℕ) (b : A) {a : A}
      → get s id ≡ some a
      → put s id b ≡ replaced s (from_u64 id) b
  unfolding put
  put_live s id b e = ground (arith, get-eq-some s id e, ==_refl (from_u64 id).generation)

  pub put-IsWf :
      (s : OpStore A) (id : ℕ) (b : A) {a : A} → IsWf s → get s id ≡ some a → IsWf (put s id b)
  put-IsWf s id b {a} v e = subst IsWf (sym (put_live s id b e)) wf
    where
      i : Index
      i = from_u64 id

      at : get_elem? s.slots i.slot ≡ some (filled i.generation a)
      at = get-eq-some s id e

      bound : i.slot < length s.slots
      bound = get_elem?-lt s.slots i.slot at

      wf : IsWf (replaced s i b)
      wf = record {
        sized = length-set s.slots i.slot _ ∙ v.sized;
        small = v.small;
        within = v.within;
        fits = λ j slot h. ground (
          arith,
          v.fits j slot,
          v.fits i.slot (filled i.generation a) at,
          get_elem?-set s.slots i.slot j (filled i.generation b) bound,
        );
        unused = λ j h k.
            get_elem?-set_ne s.slots i.slot j _
              (omega (arith, live-lt s i.slot i.generation a v at))
            ∙ v.unused j h k;
        freed =
            vacant-set s.slots i.slot _ s.next_slot s.free_list
              (occupied-ne s.slots i.slot i.generation a s.next_slot s.free_list at v.freed)
              v.freed;
        apart = v.apart;
        balance = omega (
          arith,
          v.balance,
          occupied-set s.slots i.slot (filled i.generation a) (filled i.generation b) at,
        );
      }
