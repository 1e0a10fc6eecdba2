-- ===== src/Typed.antt =====
-- lio/src/api/ops: the typed operations. A type's fields are those of the struct, where a C string
-- or a structure that the operation only points to is the number of its address; a `Resource` is its descriptor.
pub mod Buffers
pub mod Files
pub mod Sockets
pub mod Errors
pub mod Lengths
use lio.Base.{
  ℕ, ◌%◌, ◌^◌, ℤ, pos, neg, is_neg, neg_part, pos_part, Option, none, some, Outcome, ret, expect,
  ◌>>=◌, IoError, os, IoResult, ok, err, if◌then◌else◌,
}
use lio.Op.{Op, RawBuf, RawFd, Resource, Pointer}
use lio.Poller.{as_i32}

-- `Error::from_raw_os_error((-res) as i32)`, for a negative result. An errno is the 32 bits of its `i32`.
abbrev pub raw_os_error : ℤ → IoError
raw_os_error res = os (neg_part res % 2 ^ 32)

-- The results of an operation that returns nothing, a number or a new descriptor.
unfoldable pub unit_result : ℤ → IoResult (Unit {0})
unit_result res = if is_neg res then err (raw_os_error res) else ok tt

unfoldable pub number_result : ℤ → IoResult ℤ
number_result res = if is_neg res then err (raw_os_error res) else ok (as_i32 (pos_part res))

unfoldable pub resource_result : ℤ → IoResult Resource
resource_result res = if is_neg res then err (raw_os_error res) else ok (as_i32 (pos_part res))

-- The trait `BufLike`.
pub record BufLike (B : Type 0) : Type 0 where
  pub buf : B → RawBuf
  pub after : B → ℕ → Outcome B

-- A `Vec<u8>`: where it is, its capacity and its length.
pub record Vec : Type 0 where
  pub ptr : Pointer
  pub capacity : ℕ
  pub len : ℕ

-- Its buffer is its whole capacity, and `after` is `set_len`.
unfoldable pub vec : BufLike Vec
vec = record {
  buf = λ v. record { ptr = v.ptr; len = v.capacity };
  after = λ v bw. ret (record v { len = bw });
}

module _ {B : Type 0} (buflike : BufLike B) where
  -- What `into_op` takes of the buffer.
  unfoldable pub raw_buf : Option B → Outcome RawBuf
  raw_buf buf = expect buf >>= λ b. ret (buflike.buf b)

  -- The result of an operation on a buffer, with the buffer.
  unfoldable pub buf_result : Option B → ℤ → Outcome (IoResult ℤ × B)
  buf_result buf res = expect buf >>= λ b.
      if is_neg res
      then ret (err (raw_os_error res), b)
      else (buflike.after b (pos_part res) >>= λ b'. ret (ok (as_i32 (pos_part res)), b'))
