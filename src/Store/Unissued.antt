-- ===== src/Store/Unissued.antt =====
-- `remove` looks at the generation of a slot and not at its entry: keys that name a vacant slot.
use lio.Base.{
  ◌+◌, ◌<◌, ◌≡◌, true, none, some, [], ◌∷◌, ◌++◌, arith, get_elem?, set, ==_refl, ret,
  length-append,
}
use lio.Store.{Index, OpStore, vacant, u32_max, as_u64, get, remove}
use lio.Store.Packing.{IsIndex, from_u64-as_u64}
use lio.Store.Invariant.{IsWf, occupied-set}

module _ {ℓ} {A : Type ℓ} where
  abbrev spoilt : OpStore A → Index → OpStore A
  spoilt s i = record s {
    slots = set s.slots i.slot (vacant (i.generation + 1));
    free_list = s.free_list ++ i.slot ∷ [];
  }

  -- The balance of slots fails: one slot too many is free.
  spoilt-not-IsWf :
      (s : OpStore A) (i : Index)
      → IsWf s
      → get_elem? s.slots i.slot ≡ some (vacant i.generation)
      → ¬ IsWf (spoilt s i)
  spoilt-not-IsWf s i v e w = omega (
    arith,
    v.balance,
    w.balance,
    occupied-set s.slots i.slot (vacant i.generation) (vacant (i.generation + 1)) e,
    length-append s.free_list (i.slot ∷ []),
  )

  -- A key that reads nothing, because its slot is vacant, is still reported as removed when it
  -- has the generation of that slot (the one that the slot's next key will have), and the store
  -- that is left breaks its invariant: the slot is counted as free once too often.
  pub remove-vacant :
      (s : OpStore A) (i : Index)
      → IsWf s
      → IsIndex i
      → i.generation < u32_max
      → get_elem? s.slots i.slot ≡ some (vacant i.generation)
      → (s' : OpStore A) × (get s (as_u64 i) ≡ none)
        × (remove s (as_u64 i) ≡ ret (true, s'))
        × ¬ IsWf s'
  unfolding get remove
  remove-vacant s i v fits room e = (
    spoilt s i,
    ground (arith, from_u64-as_u64 i fits, e, ==_refl i.generation),
    ground (arith, from_u64-as_u64 i fits, e, ==_refl i.generation),
    spoilt-not-IsWf s i v e,
  )
