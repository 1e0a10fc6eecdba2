-- ===== src/Uring/Completions.antt =====
-- lio-uring/src/lib.rs: what a completion says beside its key and its result. The bits
-- `IORING_CQE_F_BUFFER`, 1, and `IORING_CQE_F_MORE`, 2, and the shift of 16 are the kernel's.
use Prim.Native.Nat.{bit_and}
use lio.Base.{
  ℕ, ◌/◌, ◌%◌, ◌^◌, Bool, true, false, not, Option, none, some, ◌==◌, if◌then◌else◌, pos, negsuc,
}
use lio.Uring.{Completion}

unfoldable pub is_ok : Completion → Bool
is_ok c = elim c.res [ pos _ ↦ true | negsuc _ ↦ false ]

unfoldable pub has_more : Completion → Bool
has_more c = not (bit_and c.flags 2 == 0)

unfoldable pub buffer_id : Completion → Option ℕ
buffer_id c = if not (bit_and c.flags 1 == 0) then some (c.flags / 2 ^ 16 % 2 ^ 16) else none
