-- ===== src/Typed/Lengths.antt =====
-- How many bytes an operation on a `Vec<u8>` asks for, and how many it has afterwards.
use lio.Base.{ℕ, ◌^◌, ◌<◌, ◌≤◌, ◌≡◌, refl, ap, pos, ret, ok, arith}
use lio.Op.{Op, RawFd, Resource}
use lio.Syscall.{Kernel}
use lio.Syscall
use lio.Poller.{as_i32, run_op_blocking}
use lio.Typed.{Vec, vec}
use lio.Typed.Buffers.{read, write, new_read, new_write}

as_i32_small : (n : ℕ) → n < 2 ^ 31 → as_i32 n ≡ pos n
as_i32_small n small = ground (arith, small)

-- A read into a vector asks the kernel for the vector's whole capacity. If the kernel reads `n` bytes, no
-- more than it was asked for and fewer than 2^31, the operation returns `n` and the same vector with
-- the length `n`, which is within its capacity.
pub read-run_op_blocking :
    {K : Type 0} (kernel : Kernel K) (k k' : K) (fd : Resource) (v : Vec) (n errno : ℕ)
    → kernel (Syscall.read fd v.ptr v.capacity) k ≡ (pos n, errno, k')
    → n ≤ v.capacity
    → n < 2 ^ 31
    → (op : Op) × (v' : Vec) × ((read vec).into_op (new_read fd v) ≡ ret (op, new_read fd v))
      × (run_op_blocking kernel op k ≡ (pos n, k'))
      × ((read vec).extract_result (new_read fd v) (pos n) ≡ ret (ok (pos n), v'))
      × (v'.ptr ≡ v.ptr)
      × (v'.len ≡ n)
      × (v'.len ≤ v'.capacity)
unfolding read new_read vec run_op_blocking
read-run_op_blocking kernel k k' fd v n errno ran asked small = (
  Op.read fd (record { ptr = v.ptr; len = v.capacity }),
  record v { len = n },
  refl,
  rw ran refl,
  ap (λ r. ret (ok r, record v { len = n })) (as_i32_small n small),
  refl,
  refl,
  asked,
)

-- A write from a vector that has spare capacity asks the kernel for more bytes than the vector holds.
write_beyond_length :
    (fd : Resource) (v : Vec)
    → v.len < v.capacity
    → (buffer : lio.Op.RawBuf) × ((write vec).into_op (new_write fd v)
        ≡ ret (Op.write fd buffer, new_write fd v))
      × (buffer.ptr ≡ v.ptr)
      × (v.len < buffer.len)
unfolding write new_write vec
write_beyond_length fd v spare = (record { ptr = v.ptr; len = v.capacity }, refl, refl, spare)
