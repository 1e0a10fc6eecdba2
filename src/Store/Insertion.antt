-- ===== src/Store/Insertion.antt =====
-- `try_insert` under the invariant: which slot it takes, when it refuses, and what it keeps.
use native.Mathlib.Decide.{dec_lt}
use lio.Base.{
  ℕ, ◌+◌, ◌≤◌, ◌<◌, ◌≡◌, ◌≢◌, refl, ap, subst, ◌∙◌, ◌⊎◌, inl, inr, none, some, List, [], ◌∷◌, arith,
  All, length, set, get_elem?, get_elem?-set, get_elem?-set_ne, get_elem?-lt, length-set, ==_refl,
  ret, panic,
}
use lio.Store.{Slot, Index, OpStore, vacant, as_u64, try_insert, insert}
use lio.Store.Packing.{IsIndex}
use lio.Store.Invariant.{IsWf, IsVacant, IsVacant-set, Distinct, occupied, occupied-set}

module _ {ℓ} {A : Type ℓ} where
  abbrev pub filled : ℕ → A → Slot A
  filled g reg = record { generation = g; entry = some reg }

  -- `reg` went into the vacant slot of index `i`, and no other slot was written.
  pub record Inserted (s : OpStore A) (reg : A) (i : Index) (s' : OpStore A) : Type ℓ where
    pub made : try_insert s reg ≡ ret (some (as_u64 i), s')
    pub was : get_elem? s.slots i.slot ≡ some (vacant i.generation)
    pub written : s'.slots ≡ set s.slots i.slot (filled i.generation reg)
    pub same_capacity : s'.capacity ≡ s.capacity
    pub index : IsIndex i
    pub valid : IsWf s'

  abbrev fresh : OpStore A → A → OpStore A
  fresh s reg = record s {
    slots = set s.slots s.next_slot (filled 0 reg);
    next_slot = s.next_slot + 1;
  }

  abbrev reused : OpStore A → ℕ → ℕ → List ℕ → A → OpStore A
  reused s g i rest reg = record s { slots = set s.slots i (filled g reg); free_list = rest }

  -- Neither a vacant slot nor its number moves when a slot of another number is written.
  freed-set :
      (xs : List (Slot A)) (i : ℕ) (new : Slot A) (n m : ℕ) (free : List ℕ)
      → n ≤ m
      → All (λ j. i ≢ j) free
      → All (λ j. (j < n) × IsVacant xs j) free
      → All (λ j. (j < m) × IsVacant (set xs i new) j) free
  freed-set xs i new n m [] le ne h = tt
  freed-set xs i new n m (j ∷ free) le ne h =
      ((omega arith, IsVacant-set xs i j new ne.0 h.0.1), freed-set xs i new n m free le ne.1 h.1)

  above_all :
      (xs : List (Slot A)) (n : ℕ) (free : List ℕ)
      → All (λ j. (j < n) × IsVacant xs j) free
      → All (λ j. n ≢ j) free
  above_all xs n [] h = tt
  above_all xs n (j ∷ free) h = (omega arith, above_all xs n free h.1)

  fresh-IsWf :
      (s : OpStore A) (reg : A)
      → IsWf s
      → s.next_slot < s.capacity
      → get_elem? s.slots s.next_slot ≡ some (vacant 0)
      → IsWf (fresh s reg)
  fresh-IsWf s reg v room e = record {
    sized = length-set s.slots s.next_slot _ ∙ v.sized;
    small = v.small;
    within = omega arith;
    fits = λ i slot h. ground (
      arith,
      v.fits i slot,
      get_elem?-set s.slots s.next_slot i (filled 0 reg) (get_elem?-lt s.slots s.next_slot e),
    );
    unused = λ i h k. ground (
      arith,
      v.unused i,
      get_elem?-set s.slots s.next_slot i (filled 0 reg) (get_elem?-lt s.slots s.next_slot e),
    );
    freed =
        freed-set s.slots s.next_slot _ s.next_slot _ s.free_list (omega arith)
          (above_all s.slots s.next_slot s.free_list v.freed) v.freed;
    apart = v.apart;
    balance =
        omega (arith, v.balance, occupied-set s.slots s.next_slot (vacant 0) (filled 0 reg) e);
  }

  reused-IsWf :
      (s : OpStore A) (g i : ℕ) (rest : List ℕ) (reg : A)
      → IsWf s
      → s.free_list ≡ i ∷ rest
      → get_elem? s.slots i ≡ some (vacant g)
      → IsWf (reused s g i rest reg)
  reused-IsWf s g i rest reg v free e = record {
    sized = length-set s.slots i _ ∙ v.sized;
    small = v.small;
    within = v.within;
    fits = λ j slot h. ground (
      arith,
      v.fits j slot,
      v.fits i (vacant g) e,
      get_elem?-set s.slots i j (filled g reg) (get_elem?-lt s.slots i e),
    );
    unused = λ j h k. get_elem?-set_ne s.slots i j _ (omega (arith, all.0.0)) ∙ v.unused j h k;
    freed = freed-set s.slots i _ s.next_slot s.next_slot rest (omega arith) distinct.0 all.1;
    apart = distinct.1;
    balance =
        omega
          (arith, v.balance, ap length free, occupied-set s.slots i (vacant g) (filled g reg) e);
  }
    where
      all : All (λ j. (j < s.next_slot) × IsVacant s.slots j) (i ∷ rest)
      all = subst (All (λ j. (j < s.next_slot) × IsVacant s.slots j)) free v.freed

      distinct : Distinct (i ∷ rest)
      distinct = subst Distinct free v.apart

  fresh-Inserted :
      (s : OpStore A) (reg : A)
      → IsWf s
      → s.free_list ≡ []
      → s.next_slot < s.capacity
      → Inserted s reg (record { generation = 0; slot = s.next_slot }) (fresh s reg)
  unfolding try_insert
  fresh-Inserted s reg v free room = record {
    made = ground (arith, unused);
    was = unused;
    written = refl;
    same_capacity = refl;
    index = omega arith;
    valid = fresh-IsWf s reg v room unused;
  }
    where
      unused : get_elem? s.slots s.next_slot ≡ some (vacant 0)
      unused = v.unused s.next_slot (omega arith) room

  reused-Inserted :
      (s : OpStore A) (reg : A) (g i : ℕ) (rest : List ℕ)
      → IsWf s
      → s.free_list ≡ i ∷ rest
      → get_elem? s.slots i ≡ some (vacant g)
      → Inserted s reg (record { generation = g; slot = i }) (reused s g i rest reg)
  unfolding try_insert
  reused-Inserted s reg g i rest v free e = record {
    made = ground (arith, ==_refl g);
    was = e;
    written = refl;
    same_capacity = refl;
    index = omega (arith, v.fits i (vacant g) e, get_elem?-lt s.slots i e, v.sized);
    valid = reused-IsWf s g i rest reg v free e;
  }

  -- The store is full: no vacant slot is left, and it is returned as it was.
  pub record Refused (s : OpStore A) (reg : A) : Type ℓ where
    pub refused : try_insert s reg ≡ ret (none, s)
    pub full : occupied s.slots ≡ s.capacity

  full-Refused :
      (s : OpStore A) (reg : A)
      → IsWf s
      → s.free_list ≡ []
      → s.capacity ≤ s.next_slot
      → Refused s reg
  unfolding try_insert
  full-Refused s reg v free full = record {
    refused = ground arith;
    full = omega (arith, v.balance, ap length free);
  }

  -- Under the invariant `try_insert` never panics. It refuses exactly when the store is full, and
  -- otherwise fills one vacant slot.
  pub try_insert-cases :
      (s : OpStore A) (reg : A)
      → IsWf s
      → Refused s reg ⊎ ((i : Index) × (s' : OpStore A) × Inserted s reg i s')
  try_insert-cases s reg v = by_list s.free_list refl
    where
      by_list :
          (free : List ℕ)
          → s.free_list ≡ free
          → Refused s reg ⊎ ((i : Index) × (s' : OpStore A) × Inserted s reg i s')
      by_list [] e = elim (dec_lt s.next_slot s.capacity) [
        | yes room ↦ inr (_, _, fresh-Inserted s reg v e room)
        | no full ↦ inl (full-Refused s reg v e (omega arith))
      ]
      by_list (i ∷ rest) e =
          let vacant_i : IsVacant s.slots i =
            (subst (All (λ j. (j < s.next_slot) × IsVacant s.slots j)) e v.freed).0.1 in
          inr (_, _, reused-Inserted s reg vacant_i.0 i rest v e vacant_i.1)

  pub Inserted-room :
      (s : OpStore A) (reg : A) (i : Index) (s' : OpStore A)
      → Inserted s reg i s'
      → occupied s.slots < s.capacity
  Inserted-room s reg i s' m = omega (
    arith,
    ap occupied m.written,
    occupied-set s.slots i.slot (vacant i.generation) (filled i.generation reg) m.was,
  )

  pub insert-some :
      (s : OpStore A) (reg : A) (id : ℕ) (s' : OpStore A)
      → try_insert s reg ≡ ret (some id, s')
      → insert s reg ≡ ret (id, s')
  unfolding insert
  insert-some s reg id s' e = ground (arith, e)

  -- A full store makes `insert` panic.
  pub insert_full :
      (s : OpStore A) (reg : A) → IsWf s → occupied s.slots ≡ s.capacity → insert s reg ≡ panic
  unfolding insert
  insert_full s reg v full = elim (try_insert-cases s reg v) [
    | inl r ↦ ground (arith, r.refused)
    | inr (i, s', m) ↦ absurd (omega (arith, Inserted-room s reg i s' m))
  ]
