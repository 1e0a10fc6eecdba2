-- ===== src/Interest.antt =====
-- lio/src/backends/impls/pollingv2/interest.rs: flags of readiness, a `u8` of bits.
pub mod Flags
use Prim.Native.Nat.{bit_and, bit_or}
use lio.Base.{ℕ, Bool, not, ◌==◌}

pub record Interest : Type 0 where
  pub bits : ℕ

abbrev pub none_set : Interest
none_set = record { bits = 0 }

-- `1 << 0`, `1 << 1`, `1 << 2`, and the first two joined.
abbrev pub read : Interest
read = record { bits = 1 }

abbrev pub write : Interest
write = record { bits = 2 }

abbrev pub timer : Interest
timer = record { bits = 4 }

abbrev pub read_and_write : Interest
read_and_write = record { bits = bit_or 1 2 }

unfoldable pub is_readable : Interest → Bool
is_readable i = not (bit_and i.bits 1 == 0)

unfoldable pub is_writable : Interest → Bool
is_writable i = not (bit_and i.bits 2 == 0)

unfoldable pub is_timer : Interest → Bool
is_timer i = not (bit_and i.bits 4 == 0)

unfoldable pub is_none : Interest → Bool
is_none i = i.bits == 0

unfoldable pub or : Interest → Interest → Interest
or a b = record { bits = bit_or a.bits b.bits }

unfoldable pub contains : Interest → Interest → Bool
contains a b = bit_and a.bits b.bits == b.bits
