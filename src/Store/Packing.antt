-- ===== src/Store/Packing.antt =====
-- The packing of a generation and a slot into one `u64` (`Index::as_u64`, `Index::from_u64`).
use Prim.Native.Nat.{bit_or}
use lio.Base.{ℕ, ◌+◌, ◌*◌, ◌/◌, ◌%◌, ◌^◌, ◌<◌, ◌≡◌, refl, sym, ap, ◌∙◌, arith}
use lio.Base.Bits.{or_shifted, and_low}
use lio.Store.{Index, as_u64, from_u64}

-- Both fields fit a `u32`.
pub record IsIndex (i : Index) : Type 0 where
  pub generation_fits : i.generation < 2 ^ 32
  pub slot_fits : i.slot < 2 ^ 32

-- The packed key as a sum, once nothing is shifted out.
pub as_u64-sum : (i : Index) → IsIndex i → as_u64 i ≡ i.generation * 2 ^ 32 + i.slot
unfolding as_u64
as_u64-sum i v =
    ap (λ t. bit_or t i.slot) (omega arith) ∙ or_shifted 32 i.generation i.slot v.slot_fits

-- A key takes 64 bits.
pub as_u64-lt : (i : Index) → IsIndex i → as_u64 i < 2 ^ 64
as_u64-lt i v = omega (arith, as_u64-sum i v)

abbrev pub generation_of : Index → ℕ
generation_of i = i.generation

abbrev pub slot_of : Index → ℕ
slot_of i = i.slot

Index_path : (i j : Index) → i.generation ≡ j.generation → i.slot ≡ j.slot → i ≡ j
Index_path i j p q = λ k. record { generation = p k; slot = q k }

-- The mask is a remainder, and the cast to `u32` after it changes nothing.
pub from_u64-fields :
    (packed : ℕ)
    → from_u64 packed ≡ record { generation = packed / 2 ^ 32 % 2 ^ 32; slot = packed % 2 ^ 32 }
unfolding from_u64
from_u64-fields packed = Index_path _ _ refl (omega (arith, and_low 32 packed))

pub from_u64-IsIndex : (packed : ℕ) → IsIndex (from_u64 packed)
unfolding from_u64
from_u64-IsIndex packed = omega arith

-- Unpacking a packed index gives the index back.
pub from_u64-as_u64 : (i : Index) → IsIndex i → from_u64 (as_u64 i) ≡ i
from_u64-as_u64 i v =
    from_u64-fields (as_u64 i)
    ∙ Index_path _ i (omega (arith, as_u64-sum i v)) (omega (arith, as_u64-sum i v))

-- Packing an unpacked key gives the key back.
pub as_u64-from_u64 : (packed : ℕ) → packed < 2 ^ 64 → as_u64 (from_u64 packed) ≡ packed
as_u64-from_u64 packed fits = omega (
  arith,
  as_u64-sum (from_u64 packed) (from_u64-IsIndex packed),
  ap generation_of (from_u64-fields packed),
  ap slot_of (from_u64-fields packed),
)

-- Two keys with the same index are the same key.
pub from_u64-injective : (a b : ℕ) → a < 2 ^ 64 → b < 2 ^ 64 → from_u64 a ≡ from_u64 b → a ≡ b
from_u64-injective a b fa fb e = sym (as_u64-from_u64 a fa) ∙ ap as_u64 e ∙ as_u64-from_u64 b fb

-- Packing is a bijection between the indices of 32-bit fields and the 64-bit keys: an index comes
-- back from its key, whose value is below 2^64, and a key comes back from its index, whose fields are 32-bit numbers.
packing_roundtrip :
    (i : Index) (packed : ℕ)
    → IsIndex i
    → packed < 2 ^ 64
    → (from_u64 (as_u64 i) ≡ i)
      × (as_u64 i < 2 ^ 64)
      × (as_u64 (from_u64 packed) ≡ packed)
      × IsIndex (from_u64 packed)
packing_roundtrip i packed v fits =
    (from_u64-as_u64 i v, as_u64-lt i v, as_u64-from_u64 packed fits, from_u64-IsIndex packed)
