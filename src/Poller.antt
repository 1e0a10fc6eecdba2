-- ===== src/Poller.antt =====
-- lio/src/backends/impls/pollingv2/mod.rs: the readiness backend.
-- The operating system's poller (`ReadinessPoll`) and the system calls are parameters over one
-- outside world `K`. `Poller` has the fields of the struct; the buffer of events is its capacity.
-- What `OpBuf::peek` copies out is the `RawBuf` of the operation.
pub mod Backend
pub mod RunOp
pub mod Consistency
pub mod Push
pub mod Handling
pub mod Reporting
pub mod Lawful
pub mod Accepting
pub mod Selector
pub mod Soundness
pub mod OneEvent
pub mod Wait
pub mod Faults
pub mod Epoll
pub mod Kqueue
use lio.Base.{
  ℕ, ◌+◌, ◌-◌, ◌*◌, ◌/◌, ◌%◌, ◌^◌, min, Bool, true, false, ◌||◌, ◌&&◌, Option, none, some, List, [],
  ◌∷◌, ◌++◌, map, ltb, leb, ◌==◌, if◌then◌else◌, length, ℤ, pos, neg, is_neg, neg_part, Outcome,
  ret, panic, ◌>>=◌, expect, IoError, os, IoResult, ok, err,
}
use lio.Base.Assoc.{lookup, insert, remove}
use lio.Op.{Op, RawFd, Duration, OpCompleted, IoBackend}
use lio.Interest.{Interest}
use lio.Interest
use lio.Syscall.{Kernel, syscall_result, eagain, einprogress, eisconn, eio}
use lio.Syscall
use lio.Store.{notify_key}

pub record Event : Type 0 where
  pub key : ℕ
  pub interest : Interest

-- The trait `ReadinessPoll`, with `OsPoller::new` and with what `Events::get_event` makes of the
-- native events. `wait` is given the capacity of the buffer.
pub record ReadinessPoll (K : Type 0) : Type 0 where
  pub new : K → IoResult (Unit {0}) × K
  pub add : RawFd → ℕ → Interest → K → IoResult (Unit {0}) × K
  pub modify : RawFd → ℕ → Interest → K → IoResult (Unit {0}) × K
  pub delete : RawFd → K → IoResult (Unit {0}) × K
  pub delete_timer : ℕ → K → IoResult (Unit {0}) × K
  pub wait : ℕ → Option Duration → K → IoResult (List Event) × K

pub record Poller : Type 0 where
  pub sys : Bool
  pub fd_map : Option (List (ℕ × RawFd))
  pub op_map : List (ℕ × Op)
  pub events : ℕ
  pub immediate : List (ℕ × ℤ)
  pub completed : List OpCompleted

-- `Events::iter`, which leaves out the events of the poller itself.
unfoldable pub iter : List Event → List Event
iter [] = []
iter (e ∷ es) = let rest = iter es in if e.key == notify_key then rest else e ∷ rest

-- A cast to `i32`.
abbrev pub as_i32 : ℕ → ℤ
as_i32 n = if ltb (n % 2 ^ 32) (2 ^ 31) then pos (n % 2 ^ 32) else neg (2 ^ 32 - n % 2 ^ 32)

-- A cast from `u64` to `off_t`.
abbrev pub as_i64 : ℕ → ℤ
as_i64 n = if ltb (n % 2 ^ 64) (2 ^ 63) then pos (n % 2 ^ 64) else neg (2 ^ 64 - n % 2 ^ 64)

abbrev pub as_millis : Duration → ℕ
as_millis d = d.secs * 1000 + d.nanos / 1000000

-- What a completion of the other kind reports: `errno` as an `i32` compared with a number.
abbrev pub would_block : ℤ → Bool
would_block r =
    is_neg r
    && (neg_part r % 2 ^ 32 == eagain
        || (neg_part r % 2 ^ 32 == eagain || neg_part r % 2 ^ 32 == einprogress))

module _ {K : Type 0} (kernel : Kernel K) where
  -- A system call with its result in the library's convention.
  issue : Syscall.Syscall → K → ℤ × K
  issue call k = let (r, errno, k') = kernel call k in (syscall_result r errno, k')

  -- `connect` takes EISCONN for success once it has been called before.
  issue_connect : RawFd → ℕ → ℕ → Bool → K → ℤ × K
  issue_connect fd addr len connect_called k =
      let (r, errno, k') = kernel (Syscall.connect fd addr len) k in
      if is_neg r
      then (if errno == einprogress
          then (neg errno, k')
          else if errno == eisconn && connect_called
          then (pos 0, k')
          else (neg errno, k'))
      else (r, k')

  unfoldable pub run_op_on_event : Op → K → Outcome (ℤ × K)
  unfolding issue issue_connect
  run_op_on_event (Op.read fd buffer) k = ret (issue (Syscall.read fd buffer.ptr buffer.len) k)
  run_op_on_event (Op.write fd buffer) k = ret (issue (Syscall.write fd buffer.ptr buffer.len) k)
  run_op_on_event (Op.read_at fd offset buffer) k =
      ret (issue (Syscall.pread fd buffer.ptr buffer.len offset) k)
  run_op_on_event (Op.write_at fd offset buffer) k =
      ret (issue (Syscall.pwrite fd buffer.ptr buffer.len offset) k)
  run_op_on_event (Op.send fd flags buffer) k =
      ret (issue (Syscall.send fd buffer.ptr buffer.len flags) k)
  run_op_on_event (Op.recv fd flags buffer) k =
      ret (issue (Syscall.recv fd buffer.ptr buffer.len flags) k)
  run_op_on_event (Op.accept fd addr len) k = ret (issue (Syscall.accept fd addr len) k)
  run_op_on_event (Op.timeout duration timer_fd timespec) k = ret (pos 0, k)
  run_op_on_event (Op.connect fd addr len connect_called) k =
      ret (issue_connect fd addr len connect_called k)
  run_op_on_event op k = panic

  unfoldable pub run_op_blocking : Op → K → ℤ × K
  unfolding issue issue_connect
  run_op_blocking (Op.read fd buffer) k = issue (Syscall.read fd buffer.ptr buffer.len) k
  run_op_blocking (Op.write fd buffer) k = issue (Syscall.write fd buffer.ptr buffer.len) k
  run_op_blocking (Op.read_at fd offset buffer) k =
      issue (Syscall.pread fd buffer.ptr buffer.len offset) k
  run_op_blocking (Op.write_at fd offset buffer) k =
      issue (Syscall.pwrite fd buffer.ptr buffer.len offset) k
  run_op_blocking (Op.send fd flags buffer) k =
      issue (Syscall.send fd buffer.ptr buffer.len flags) k
  run_op_blocking (Op.recv fd flags buffer) k =
      issue (Syscall.recv fd buffer.ptr buffer.len flags) k
  run_op_blocking (Op.accept fd addr len) k = issue (Syscall.accept fd addr len) k
  run_op_blocking (Op.connect fd addr len connect_called) k =
      issue_connect fd addr len connect_called k
  run_op_blocking (Op.bind fd addr addrlen) k = issue (Syscall.bind fd addr addrlen) k
  run_op_blocking (Op.listen fd backlog) k = issue (Syscall.listen fd backlog) k
  run_op_blocking (Op.shutdown fd how) k = issue (Syscall.shutdown fd how) k
  run_op_blocking (Op.socket domain ty proto) k = issue (Syscall.socket domain ty proto) k
  run_op_blocking (Op.open_at dir_fd path flags) k = issue (Syscall.openat dir_fd path flags) k
  run_op_blocking (Op.close fd) k = issue (Syscall.close fd) k
  run_op_blocking (Op.fsync fd) k = issue (Syscall.fsync fd) k
  run_op_blocking (Op.truncate fd size) k = issue (Syscall.ftruncate fd (as_i64 size)) k
  run_op_blocking (Op.link_at old_dir_fd old_path new_dir_fd new_path) k =
      issue (Syscall.linkat old_dir_fd old_path new_dir_fd new_path (pos 0)) k
  run_op_blocking (Op.symlink_at dir_fd target linkpath) k =
      issue (Syscall.symlinkat target dir_fd linkpath) k
  run_op_blocking (Op.tee fd_in fd_out size) k = issue (Syscall.tee fd_in fd_out size 0) k
  run_op_blocking (Op.timeout duration timer_fd timespec) k =
      (pos 0, (kernel (Syscall.sleep duration) k).2)
  run_op_blocking Op.nop k = (pos 0, k)
