-- ===== src/Uring/Selection.antt =====
-- lio-uring/src/lib.rs and lio-uring/src/operation.rs: the buffer that the kernel chooses. An entry
-- asks for one with a flag, and its completion names the one that was chosen.
use Prim.Native.Nat.{bit_and}
use lio.Base.{ℕ, ◌+◌, ◌*◌, ◌/◌, ◌%◌, ◌^◌, ◌≡◌, ◌<◌, refl, true, some, ok, ℤ, ◌==◌, not, arith}
use lio.Base.Bits.{and_digit, and_zero}
use lio.Op.{RawFd, Pointer}
use lio.Uring.{Liburing, Completion, push, push_with_flags}
use lio.Uring.Completions.{has_more, buffer_id}
use lio.Uring.Entries.{Sqe}
use lio.Uring.Entries.Transfers.{
  build_recv_multi, build_recv_msg_multi, build_recv_multi_bundle, build_recv_bundle,
  build_send_bundle, build_read_multi,
}

-- The entries of the requests that take their buffers from a group.
pub data Selects : Sqe → Type 0 where
  read_multi : (fd : RawFd) (len group offset : ℕ) → Selects (build_read_multi fd len group offset)
  recv_multi : (fd : RawFd) (group : ℕ) (flags : ℤ) → Selects (build_recv_multi fd group flags)
  recv_msg_multi :
      (fd : RawFd) (msg : Pointer) (group ioprio flags : ℕ)
      → Selects (build_recv_msg_multi fd msg group ioprio flags)
  send_bundle :
      (fd : RawFd) (group : ℕ) (flags : ℤ) (len : ℕ)
      → Selects (build_send_bundle fd group flags len)
  recv_bundle : (fd : RawFd) (group : ℕ) (flags : ℤ) → Selects (build_recv_bundle fd group flags)
  recv_multi_bundle :
      (fd : RawFd) (group : ℕ) (flags : ℤ) → Selects (build_recv_multi_bundle fd group flags)

selecting_flag : {entry : Sqe} → Selects entry → entry.flags ≡ 2 ^ 5
selecting_flag (read_multi fd len group offset) = refl
selecting_flag (recv_multi fd group flags) = refl
selecting_flag (recv_msg_multi fd msg group ioprio flags) = refl
selecting_flag (send_bundle fd group flags len) = refl
selecting_flag (recv_bundle fd group flags) = refl
selecting_flag (recv_multi_bundle fd group flags) = refl

-- The builder of a multishot or bundled transfer sets the flag that has the kernel choose the
-- buffer, but `push` submits the entry exactly as one without that flag. When the queue has a slot,
-- `push_with_flags` submits the entry as it was built if it is given that flag once more.
push_forgets_selection :
    {K : Type 0} (lib : Liburing K) {entry : Sqe} (id : ℕ) (k k' : K)
    → Selects entry
    → lib.get_sqe k ≡ (true, k')
    → (entry.flags ≡ 2 ^ 5)
      × (push lib entry id k ≡ push lib (record entry { flags = 0 }) id k)
      × (push_with_flags lib entry id (2 ^ 5) k
          ≡ (ok tt, lib.write_sqe (record entry { user_data = id }) k'))
unfolding push push_with_flags
push_forgets_selection lib {entry} id k k' selects slot =
    (selecting_flag selects, refl, rw (slot, selecting_flag selects) refl)

and_one : (x : ℕ) → bit_and x 1 ≡ x % 2
and_one x = omega (arith, and_digit x 1, and_zero (x / 2))

and_two : (x : ℕ) → bit_and x 2 ≡ x / 2 % 2 * 2
and_two x = omega (arith, and_digit x 2, and_one (x / 2))

-- A completion whose flags are a buffer's number above 16 lower bits names that buffer if the lowest
-- bit is set, and says that more completions follow when the next bit is set.
buffer_id-has_more :
    (c : Completion) (buffer low : ℕ)
    → buffer < 2 ^ 16
    → low < 2 ^ 16
    → c.flags ≡ buffer * 2 ^ 16 + low
    → low % 2 ≡ 1
    → (buffer_id c ≡ some buffer) × (has_more c ≡ not (low / 2 % 2 == 0))
unfolding buffer_id has_more
buffer_id-has_more c buffer low small below e bit =
    (ground (arith, e, and_one c.flags), ground (arith, e, and_two c.flags))
