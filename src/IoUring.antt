-- ===== src/IoUring.antt =====
-- lio/src/backends/impls/io_uring.rs: the backend on a ring.
-- The world of the backend is the ring's. `ring` says whether the ring is there, as after `init`.
-- The loop that drains the queue ends when the queue does; here it has fuel, which bounds how many
-- completions one call takes.
pub mod Drained
pub mod OneShot
pub mod Lawful
pub mod Submission
use lio.Base.{
  ℕ, zero, suc, Bool, true, false, Option, none, some, List, [], ◌∷◌, ◌++◌, if◌then◌else◌, Outcome,
  ret, panic, IoResult, ok, err, would_block, pos, ◌%◌, ◌^◌,
}
use lio.Op
use lio.Op.{IoBackend, Op, RawBuf, OpCompleted, Duration, is_zero}
use lio.Uring
use lio.Uring.{Liburing, Completion, submit, try_wait}
use lio.Uring.Setup
use lio.Uring.Entries.{
  Sqe, as_u64, build_nop, build_read, build_write, build_send, build_recv, build_accept,
  build_connect, build_bind, build_listen, build_shutdown, build_socket, build_open_at, build_close,
  build_fsync, build_ftruncate, build_link_at, build_symlink_at, build_tee, build_timeout,
}

pub record IoUring : Type 0 where
  pub ring : Bool
  pub completed : List OpCompleted

-- `OpCompleted::new(op.user_data(), op.result() as isize)`.
abbrev pub completed_of : Completion → OpCompleted
completed_of c = record { op_id = c.user_data; result = c.res }

-- The options that an operation does not set have their defaults, which are 0.
unfoldable pub create_io_uring_entry : Op → Sqe
create_io_uring_entry Op.nop = build_nop
create_io_uring_entry (Op.read fd b) = build_read fd b.ptr (b.len % 2 ^ 32) 0 0 (pos 0) 0
create_io_uring_entry (Op.write fd b) = build_write fd b.ptr (b.len % 2 ^ 32) 0 0 (pos 0)
create_io_uring_entry (Op.read_at fd offset b) =
    build_read fd b.ptr (b.len % 2 ^ 32) (as_u64 offset) 0 (pos 0) 0
create_io_uring_entry (Op.write_at fd offset b) =
    build_write fd b.ptr (b.len % 2 ^ 32) (as_u64 offset) 0 (pos 0)
create_io_uring_entry (Op.send fd flags b) = build_send fd b.ptr (b.len % 2 ^ 32) flags 0 0
create_io_uring_entry (Op.recv fd flags b) = build_recv fd b.ptr (b.len % 2 ^ 32) flags 0
create_io_uring_entry (Op.accept fd addr len) = build_accept fd addr len (pos 0)
create_io_uring_entry (Op.connect fd addr len called) = build_connect fd addr len
create_io_uring_entry (Op.bind fd addr addrlen) = build_bind fd addr addrlen
create_io_uring_entry (Op.listen fd backlog) = build_listen fd backlog
create_io_uring_entry (Op.shutdown fd how) = build_shutdown fd how
create_io_uring_entry (Op.socket domain ty proto) = build_socket domain ty proto (pos 0)
create_io_uring_entry (Op.open_at dir_fd path flags) = build_open_at dir_fd path flags 0
create_io_uring_entry (Op.close fd) = build_close fd
create_io_uring_entry (Op.fsync fd) = build_fsync fd 0
create_io_uring_entry (Op.truncate fd size) = build_ftruncate fd size
create_io_uring_entry (Op.link_at old_dir_fd old_path new_dir_fd new_path) =
    build_link_at old_dir_fd old_path new_dir_fd new_path (pos 0)
create_io_uring_entry (Op.symlink_at dir_fd target linkpath) =
    build_symlink_at dir_fd target linkpath
create_io_uring_entry (Op.tee fd_in fd_out size) = build_tee fd_in fd_out size 0
create_io_uring_entry (Op.timeout duration timer_fd timespec) = build_timeout timespec 0 0

module _ {K : Type 0} (lib : Liburing K) where
  -- The ring that was there before, if any, is dropped.
  unfoldable pub init : ℕ → IoUring × K → Outcome (IoResult (Unit {0}) × (IoUring × K))
  unfolding Setup.new Setup.drop_ring
  init cap (b, k) =
      let (made, k') = Setup.new lib (cap % 2 ^ 32) k in
      elim made [
        | err e ↦ ret (err e, (b, k'))
        | ok _ ↦ ret (
          ok tt,
          (record { ring = true; completed = [] }, (if b.ring then Setup.drop_ring lib k' else k')),
        )
      ]

  -- Any error of the ring is reported as a full queue.
  unfoldable pub push : ℕ → Op → IoUring × K → Outcome (IoResult (Unit {0}) × (IoUring × K))
  unfolding create_io_uring_entry
  push id op (b, k) =
      if b.ring
      then (let (r, k') = Uring.push lib (create_io_uring_entry op) id k in
          elim r [ err e ↦ ret (err would_block, (b, k')) | ok u ↦ ret (ok u, (b, k')) ])
      else panic

  unfoldable pub flush : IoUring × K → Outcome (IoResult ℕ × (IoUring × K))
  flush (b, k) = if b.ring then (let (r, k') = submit lib k in ret (r, (b, k'))) else panic

  -- The match on the timeout.
  unfoldable pub first : Option Duration → K → IoResult (Option Completion) × K
  first none k =
      let (r, k') = Uring.wait lib k in elim r [ err e ↦ (err e, k') | ok c ↦ (ok (some c), k') ]
  first (some d) k = if is_zero d then try_wait lib k else Uring.wait_timeout lib d k

  -- The loop over the completions that are there already.
  unfoldable pub drain : ℕ → K → List OpCompleted × K
  drain zero k = ([], k)
  drain (suc fuel) k =
      let (r, k') = try_wait lib k in
      elim r [
        | err e ↦ ([], k')
        | ok none ↦ ([], k')
        | ok (some c) ↦ let (rest, k'') = drain fuel k' in (completed_of c ∷ rest, k'')
      ]

  -- `poll_inner`, which `wait_timeout` calls.
  unfoldable pub wait_timeout :
      ℕ → Option Duration → IoUring × K → Outcome (IoResult (List OpCompleted) × (IoUring × K))
  unfolding first drain
  wait_timeout fuel timeout (b, k) =
      if b.ring
      then (let (r, k') = first timeout k in
          elim r [
            | err e ↦ ret (err e, (record b { completed = [] }, k'))
            | ok none ↦ ret (ok [], (record b { completed = [] }, k'))
            | ok (some c) ↦
                let (rest, k'') = drain fuel k' in
                let completed = completed_of c ∷ rest in
                ret (ok completed, (record b { completed = completed }, k''))
          ])
      else panic

  -- The backend with the fuel of its loop.
  unfoldable pub backend : ℕ → IoBackend (IoUring × K)
  unfolding init push flush wait_timeout
  backend fuel = record {
    init = init;
    push = push;
    flush = flush;
    wait_timeout = wait_timeout fuel;
  }
