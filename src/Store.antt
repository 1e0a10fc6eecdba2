-- ===== src/Store.antt =====
-- lio/src/backends/store.rs: the generational store of operations in flight.
-- `Slot`, `Index` and `OpStore` are the structs of that name. The type of an entry is a parameter,
-- where the source has `Registration`. A method that takes `&mut self` returns the new store with
-- its result, and `panic` where the source's `expect`, index, `assert!` or `strict_add` would.
-- `get_mut` hands out a reference: `get` reads through it, `put` is the write through it.
pub mod Packing
pub mod Invariant
pub mod Insertion
pub mod Removal
pub mod Handles
pub mod Steps
pub mod Lifetime
pub mod Unissued
use Prim.Native.Nat.{bit_and, bit_or}
use lio.Base.{
  ℕ, ◌+◌, ◌-◌, ◌*◌, ◌/◌, ◌%◌, ◌^◌, min, Bool, true, false, Option, none, some, List, [], ◌∷◌, ◌++◌,
  ltb, ◌==◌, if◌then◌else◌, get_elem?, set, replicate, Outcome, ret, panic, ◌>>=◌, expect,
}

pub record Slot {ℓ} (A : Type ℓ) : Type ℓ where
  pub generation : ℕ
  pub entry : Option A

pub record Index : Type 0 where
  pub generation : ℕ
  pub slot : ℕ

-- `(generation as u64) << 32 | slot as u64`, where the shift drops what leaves 64 bits.
unfoldable pub as_u64 : Index → ℕ
as_u64 i = bit_or (i.generation * 2 ^ 32 % 2 ^ 64) i.slot

-- The casts to `u32` keep the low 32 bits.
unfoldable pub from_u64 : ℕ → Index
from_u64 packed = record {
  generation = packed / 2 ^ 32 % 2 ^ 32;
  slot = bit_and packed 0xFFFFFFFF % 2 ^ 32;
}

-- `free_list` is a queue whose front is the head of the list.
pub record OpStore {ℓ} (A : Type ℓ) : Type ℓ where
  pub slots : List (Slot A)
  pub free_list : List ℕ
  pub next_slot : ℕ
  pub capacity : ℕ

abbrev pub u32_max : ℕ
u32_max = 2 ^ 32 - 1

-- `NOTIFY_KEY`, which is `u64::MAX`.
abbrev pub notify_key : ℕ
notify_key = 2 ^ 64 - 1

-- A vacant slot of generation 0, as `with_capacity` makes them.
abbrev pub vacant {ℓ} : {A : Type ℓ} → ℕ → Slot A
vacant g = record { generation = g; entry = none }

module _ {ℓ} (A : Type ℓ) where
  unfoldable pub with_capacity : ℕ → OpStore A
  with_capacity cap = record {
    slots = replicate (min cap u32_max) (vacant 0);
    free_list = [];
    next_slot = 0;
    capacity = min cap u32_max;
  }

module _ {ℓ} {A : Type ℓ} where
  -- The end of `next_id`, where the free list is empty.
  fresh_id : OpStore A → Option Index × OpStore A
  fresh_id s =
      if ltb s.next_slot s.capacity
      then (
        some (record { generation = 0; slot = s.next_slot }),
        record s { next_slot = s.next_slot + 1 },
      )
      else (none, s)

  unfoldable pub next_id : OpStore A → Outcome (Option Index × OpStore A)
  unfolding fresh_id
  next_id s = elim s.free_list [
    | [] ↦ ret (fresh_id s)
    | i ∷ rest ↦ expect (get_elem? s.slots i) >>= λ slot.
        ret
          (some (record { generation = slot.generation; slot = i }), record s { free_list = rest })
  ]

  -- The two assertions of `try_insert`.
  fill : Slot A → Index → A → Outcome (Slot A)
  fill slot i reg = elim slot.entry [
    | some _ ↦ panic
    | none ↦
        if slot.generation == i.generation then ret (record slot { entry = some reg }) else panic
  ]

  -- `none` is `Err(StoreAtCapacity)`.
  unfoldable pub try_insert : OpStore A → A → Outcome (Option ℕ × OpStore A)
  unfolding next_id fill
  try_insert s reg = next_id s >>= λ found. elim found.0 [
    | none ↦ ret (none, found.1)
    | some i ↦ expect (get_elem? found.1.slots i.slot) >>= λ slot. fill slot i reg >>= λ slot'.
        ret (some (as_u64 i), record found.1 { slots = set found.1.slots i.slot slot' })
  ]

  unfoldable pub insert : OpStore A → A → Outcome (ℕ × OpStore A)
  unfolding try_insert
  insert s reg = try_insert s reg >>= λ made. expect made.0 >>= λ id. ret (id, made.1)

  raw_get_slot : OpStore A → Index → Option (Slot A)
  raw_get_slot s i = elim (get_elem? s.slots i.slot) [
    | none ↦ none
    | some slot ↦ if slot.generation == i.generation then some slot else none
  ]

  unfoldable pub get : OpStore A → ℕ → Option A
  unfolding raw_get_slot
  get s id = elim (raw_get_slot s (from_u64 id)) [ none ↦ none | some slot ↦ slot.entry ]

  -- The write through the reference that `get_mut` returns.
  unfoldable pub put : OpStore A → ℕ → A → OpStore A
  unfolding raw_get_slot
  put s id a = elim (raw_get_slot s (from_u64 id)) [
    | none ↦ s
    | some slot ↦ record s {
      slots = set s.slots (from_u64 id).slot (record slot { entry = some a });
    }
  ]

  -- `strict_add` panics when the counter is at its maximum.
  unfoldable pub remove : OpStore A → ℕ → Outcome (Bool × OpStore A)
  unfolding raw_get_slot
  remove s id = elim (raw_get_slot s (from_u64 id)) [
    | none ↦ ret (false, s)
    | some slot ↦
        if ltb slot.generation u32_max
        then ret (
          true,
          record s {
            slots = set s.slots (from_u64 id).slot (vacant (slot.generation + 1));
            free_list = s.free_list ++ (from_u64 id).slot ∷ [];
          },
        )
        else panic
  ]
