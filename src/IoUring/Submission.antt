-- ===== src/IoUring/Submission.antt =====
-- What `push` hands to the ring.
use lio.Base.{ℕ, ◌≡◌, refl, Bool, true, false, pos, ret, ok, err, would_block, if◌then◌else◌, arith}
use lio.Op.{Op, RawFd, RawBuf}
use lio.Uring.{Liburing}
use lio.Uring
use lio.IoUring.{IoUring, create_io_uring_entry, push}

-- A read or a write that names no offset is submitted exactly as one at offset 0, so it does not
-- use the position of the file.
pub push_without_offset :
    {K : Type 0} (lib : Liburing K) (id : ℕ) (fd : RawFd) (buffer : RawBuf) (b : IoUring) (k : K)
    → (push lib id (Op.read fd buffer) (b, k) ≡ push lib id (Op.read_at fd (pos 0) buffer) (b, k))
      × (push lib id (Op.write fd buffer) (b, k)
          ≡ push lib id (Op.write_at fd (pos 0) buffer) (b, k))
unfolding push create_io_uring_entry
push_without_offset lib id fd buffer b k = (refl, refl)

-- With its ring, `push` writes one entry, made of the operation and carrying its key and no flags,
-- if the queue has a slot; otherwise it reports that it would block and writes nothing.
pub push-write_sqe :
    {K : Type 0} (lib : Liburing K) (id : ℕ) (op : Op) (b : IoUring) (k k' : K) (found : Bool)
    → b.ring ≡ true
    → lib.get_sqe k ≡ (found, k')
    → push lib id op (b, k) ≡ (
        if found
        then ret (
          ok tt,
          (b, lib.write_sqe (record (create_io_uring_entry op) { user_data = id; flags = 0 }) k'),
        )
        else ret (err would_block, (b, k')))
unfolding push Uring.push
push-write_sqe lib id op b k k' true on e = ground (arith, on, e)
push-write_sqe lib id op b k k' false on e = ground (arith, on, e)
