-- ===== src/Store/Invariant.antt =====
-- The representation invariant of `OpStore`, and what `next_id` finds under it.
use lio.Base.{
  ℕ, zero, suc, ◌+◌, ◌≤◌, ◌<◌, min, ◌≡◌, ◌≢◌, refl, ap, ◌∙◌, Option, none, some, List, [], ◌∷◌,
  arith, All, length, set, replicate, length-replicate, get_elem?-replicate, get_elem?-set_ne,
  get_elem?-lt, get_elem?,
}
use lio.Store.{Slot, OpStore, vacant, u32_max, with_capacity}

module _ {ℓ} {A : Type ℓ} where
  -- How many slots hold an entry.
  abbrev pub weight : Option A → ℕ
  weight none = 0
  weight (some _) = 1

  abbrev pub occupied : List (Slot A) → ℕ
  occupied [] = 0
  occupied (slot ∷ slots) = weight slot.entry + occupied slots

  -- The slot at `i` is vacant.
  abbrev pub IsVacant : List (Slot A) → ℕ → Type ℓ
  IsVacant slots i = (g : ℕ) × (get_elem? slots i ≡ some (vacant g))

abbrev pub Distinct : List ℕ → Type 0
Distinct [] = Unit
Distinct (x ∷ xs) = All (λ y. x ≢ y) xs × Distinct xs

pub record IsWf {ℓ} {A : Type ℓ} (s : OpStore A) : Type ℓ where
  pub sized : length s.slots ≡ s.capacity
  pub small : s.capacity ≤ u32_max
  pub within : s.next_slot ≤ s.capacity
  pub fits : (i : ℕ) (slot : Slot A) → get_elem? s.slots i ≡ some slot → slot.generation ≤ u32_max
  pub unused : (i : ℕ) → s.next_slot ≤ i → i < s.capacity → get_elem? s.slots i ≡ some (vacant 0)
  pub freed : All (λ i. (i < s.next_slot) × IsVacant s.slots i) s.free_list
  pub apart : Distinct s.free_list
  pub balance : occupied s.slots + length s.free_list ≡ s.next_slot

module _ {ℓ} {A : Type ℓ} where
  empty_weight : (n : ℕ) (slot : Slot A) → slot.entry ≡ none → occupied (replicate n slot) ≡ 0
  empty_weight zero slot e = refl
  empty_weight (suc n) slot e = omega (arith, ap weight e, empty_weight n slot e)

  pub occupied-set :
      (xs : List (Slot A)) (i : ℕ) (old new : Slot A)
      → get_elem? xs i ≡ some old
      → occupied (set xs i new) + weight old.entry ≡ occupied xs + weight new.entry
  occupied-set [] i old new e = cc
  occupied-set (x ∷ xs) zero old new e =
      let w : weight x.entry ≡ weight old.entry = ap weight_of e in omega (arith, w)
    where
      weight_of : Option (Slot A) → ℕ
      weight_of none = 0
      weight_of (some slot) = weight slot.entry
  occupied-set (x ∷ xs) (suc i) old new e = omega (arith, occupied-set xs i old new e)

  -- A vacant slot stays vacant when another slot is written.
  pub IsVacant-set :
      (xs : List (Slot A)) (i j : ℕ) (new : Slot A)
      → i ≢ j
      → IsVacant xs j
      → IsVacant (set xs i new) j
  IsVacant-set xs i j new ne (g, e) = (g, get_elem?-set_ne xs i j new ne ∙ e)

  pub with_capacity-IsWf : (cap : ℕ) → IsWf (with_capacity A cap)
  unfolding with_capacity
  with_capacity-IsWf cap = record {
    sized = length-replicate n _;
    small = omega arith;
    within = omega arith;
    fits = λ i slot e. ground (
      arith,
      get_elem?-lt (replicate n (vacant 0)) i e,
      length-replicate n (vacant {A = A} 0),
      get_elem?-replicate n i (vacant {A = A} 0),
    );
    unused = λ i _ h. get_elem?-replicate n i _ h;
    freed = tt;
    apart = tt;
    balance = omega (arith, empty_weight n (vacant {A = A} 0) refl);
  }
    where
      n : ℕ
      n = min cap u32_max
