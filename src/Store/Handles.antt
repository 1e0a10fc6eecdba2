-- ===== src/Store/Handles.antt =====
-- `OpStore` against its contract: a finite map from live keys to entries, read by `get`.
-- Insertion extends the map by a new key, `put` rewrites one, removal takes one away, and no
-- other key is disturbed.
use lio.Base.{
  min, replicate, length-replicate, get_elem?-replicate, Option-cases, ℕ, ◌+◌, ◌^◌, ◌<◌, ◌≡◌, sym,
  ap, ◌∙◌, ◌⊎◌, inl, inr, Bool, true, ◌&&◌, Option, none, some, List, arith, set, length, get_elem?,
  get_elem?-set, get_elem?-lt, ◌==◌, if◌then◌else◌, ret,
}
use lio.Store.{
  Slot, Index, OpStore, vacant, u32_max, as_u64, from_u64, get, put, remove, try_insert,
  with_capacity,
}
use lio.Store.Packing.{
  IsIndex, as_u64-sum, from_u64-as_u64, as_u64-from_u64, as_u64-lt, from_u64-IsIndex,
}
use lio.Store.Invariant.{IsWf, occupied}
use lio.Store.Insertion.{filled, Inserted, Inserted-room, try_insert-cases}
use lio.Store.Removal.{removed, replaced, get-eq-some, remove-IsWf, put_live}

module _ {ℓ} {A : Type ℓ} where
  -- What an index reads in an array of slots.
  abbrev read : List (Slot A) → Index → Option A
  read slots i = elim (get_elem? slots i.slot) [
    | none ↦ none
    | some slot ↦ if slot.generation == i.generation then slot.entry else none
  ]

  get-read : (s : OpStore A) (id : ℕ) → get s id ≡ read s.slots (from_u64 id)
  unfolding get
  get-read s id = ground arith

  read-set :
      (slots : List (Slot A)) (k : ℕ) (new : Slot A) (j : Index)
      → k < length slots
      → read (set slots k new) j ≡ (
          if k == j.slot
          then (if new.generation == j.generation then new.entry else none)
          else read slots j)
  read-set slots k new j h = ground (arith, get_elem?-set slots k j.slot new h)

-- Keys are equal when their slots and their generations are.
abbrev same_index : Index → Index → Bool
same_index i j = i.slot == j.slot && i.generation == j.generation

key_eq : (i : Index) (j : ℕ) → IsIndex i → j < 2 ^ 64 → (as_u64 i == j) ≡ same_index i (from_u64 j)
key_eq i j v fits = ground (
  arith,
  as_u64-sum i v,
  as_u64-sum (from_u64 j) (from_u64-IsIndex j),
  as_u64-from_u64 j fits,
  (from_u64-IsIndex j).slot_fits,
)

key_eq_from :
    (id j : ℕ) → id < 2 ^ 64 → j < 2 ^ 64 → (id == j) ≡ same_index (from_u64 id) (from_u64 j)
key_eq_from id j fits fits' =
    ap (λ t. t == j) (sym (as_u64-from_u64 id fits))
    ∙ key_eq (from_u64 id) j (from_u64-IsIndex id) fits'

module _ {ℓ} {A : Type ℓ} where
  -- A new store has no live key.
  pub with_capacity-get : (cap j : ℕ) → get (with_capacity A cap) j ≡ none
  unfolding with_capacity
  with_capacity-get cap j =
      let n = min cap u32_max in
      elim (Option-cases (get_elem? (replicate n (vacant {A = A} 0)) (from_u64 j).slot)) [
        | inl e ↦ ground (arith, e, get-read (with_capacity A cap) j)
        | inr (slot, e) ↦
            let fresh = get_elem?-replicate n (from_u64 j).slot (vacant {A = A} 0) (
              ground (
                arith,
                get_elem?-lt (replicate n (vacant 0)) (from_u64 j).slot e,
                length-replicate n (vacant {A = A} 0),
              )) in
            ground (arith, e, fresh, get-read (with_capacity A cap) j)
      ]

  pub get-Inserted_self :
      (s : OpStore A) (reg : A) (i : Index) (s' : OpStore A)
      → Inserted s reg i s'
      → get s (as_u64 i) ≡ none
  get-Inserted_self s reg i s' m =
      ground (arith, get-read s (as_u64 i), from_u64-as_u64 i m.index, m.was)

  pub get-Inserted :
      (s : OpStore A) (reg : A) (i : Index) (s' : OpStore A) (j : ℕ)
      → Inserted s reg i s'
      → j < 2 ^ 64
      → get s' j ≡ (if as_u64 i == j then some reg else get s j)
  get-Inserted s reg i s' j m fits = ground (
    arith,
    m.was,
    key_eq i j m.index fits,
    get-read s j,
    get-read s' j,
    ap (λ t. read t (from_u64 j)) m.written,
    read-set s.slots i.slot (filled i.generation reg) (from_u64 j)
        (get_elem?-lt s.slots i.slot m.was),
  )

  -- What `try_insert` does to a store that keeps its invariant, seen through any key `j`: a full
  -- store refuses and stays as it was; one with room takes the entry under a key that was not
  -- live, keeps the invariant, and reads as before at every other key.
  pub try_insert-get :
      (s : OpStore A) (reg : A) (j : ℕ)
      → IsWf s
      → j < 2 ^ 64
      → ((occupied s.slots ≡ s.capacity) × (try_insert s reg ≡ ret (none, s)))
        ⊎ ((id : ℕ) × (s' : OpStore A) × (try_insert s reg ≡ ret (some id, s'))
            × (occupied s.slots < s.capacity)
            × IsWf s'
            × (id < 2 ^ 64)
            × (get s id ≡ none)
            × (get s' j ≡ (if id == j then some reg else get s j)))
  try_insert-get s reg j v fits = elim (try_insert-cases s reg v) [
    | inl r ↦ inl (r.full, r.refused)
    | inr (i, s', m) ↦ inr (
      as_u64 i,
      s',
      m.made,
      Inserted-room s reg i s' m,
      m.valid,
      as_u64-lt i m.index,
      get-Inserted_self s reg i s' m,
      get-Inserted s reg i s' j m fits,
    )
  ]

  pub get-removed :
      (s : OpStore A) (id j : ℕ) {a : A}
      → id < 2 ^ 64
      → j < 2 ^ 64
      → get s id ≡ some a
      → get (removed s (from_u64 id)) j ≡ (if id == j then none else get s j)
  get-removed s id j {a} fits fits' e = ground (
    arith,
    at,
    key_eq_from id j fits fits',
    get-read s j,
    get-read (removed s i) j,
    read-set s.slots i.slot (vacant (i.generation + 1)) (from_u64 j)
        (get_elem?-lt s.slots i.slot at),
  )
    where
      i : Index
      i = from_u64 id

      at : get_elem? s.slots i.slot ≡ some (filled i.generation a)
      at = get-eq-some s id e

  -- Removing a live key whose generation is not the last one returns `true`, keeps the invariant,
  -- and takes that key alone away.
  pub get-remove :
      (s : OpStore A) (id j : ℕ) {a : A}
      → IsWf s
      → id < 2 ^ 64
      → j < 2 ^ 64
      → get s id ≡ some a
      → (from_u64 id).generation < u32_max
      → (s' : OpStore A) × (remove s id ≡ ret (true, s'))
        × IsWf s'
        × (get s' j ≡ (if id == j then none else get s j))
  get-remove s id j v fits fits' e room =
      let (done, valid) = remove-IsWf s id v e room in
      (removed s (from_u64 id), done, valid, get-removed s id j fits fits' e)

  -- Writing through a live key changes what that key reads, and no other.
  pub get-put :
      (s : OpStore A) (id j : ℕ) (b : A) {a : A}
      → id < 2 ^ 64
      → j < 2 ^ 64
      → get s id ≡ some a
      → get (put s id b) j ≡ (if id == j then some b else get s j)
  get-put s id j b {a} fits fits' e = ground (
    arith,
    at,
    put_live s id b e,
    key_eq_from id j fits fits',
    get-read s j,
    get-read (replaced s i b) j,
    read-set s.slots i.slot (filled i.generation b) (from_u64 j) (get_elem?-lt s.slots i.slot at),
  )
    where
      i : Index
      i = from_u64 id

      at : get_elem? s.slots i.slot ≡ some (filled i.generation a)
      at = get-eq-some s id e
