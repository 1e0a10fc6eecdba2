-- ===== src/Poller/Epoll/Notifying.antt =====
-- lio/src/backends/impls/pollingv2/os/epoll.rs: `Notifier`, an eventfd or a pipe.
-- The system calls are the record `NotifierKernel`, each an `io::Result` as `syscall!` makes it;
-- `close` is what dropping an `OwnedFd` does. `rounds` is the fuel of the loop of `clear`.
use Prim.Native.Nat.{bit_or}
use lio.Base.{ℕ, zero, suc, IoResult, ok, err}
use lio.Op.{RawFd}

pub record NotifierKernel (K : Type 0) : Type 0 where
  pub eventfd : K → IoResult RawFd × K
  pub pipe2 : K → IoResult (RawFd × RawFd) × K
  pub pipe : K → IoResult (RawFd × RawFd) × K
  pub get_fd : RawFd → K → IoResult ℕ × K
  pub set_fd : RawFd → ℕ → K → IoResult (Unit {0}) × K
  pub get_fl : RawFd → K → IoResult ℕ × K
  pub set_fl : RawFd → ℕ → K → IoResult (Unit {0}) × K
  pub read : RawFd → ℕ → K → IoResult ℕ × K
  pub write : RawFd → ℕ → K → IoResult ℕ × K
  pub close : RawFd → K → K
  pub rounds : ℕ

pub data Notifier : Type 0 where
  event_fd : RawFd → Notifier
  pipe_ends : (read_pipe write_pipe : RawFd) → Notifier

-- `FD_CLOEXEC` and `O_NONBLOCK` of Linux.
abbrev pub fd_cloexec : ℕ
fd_cloexec = 1

abbrev pub o_nonblock : ℕ
o_nonblock = 0x800

unfoldable pub as_fd : Notifier → RawFd
as_fd (event_fd fd) = fd
as_fd (pipe_ends read_pipe write_pipe) = read_pipe

module _ {K : Type 0} (calls : NotifierKernel K) where
  -- `fcntl` with the flags that are there and one more.
  unfoldable pub set_cloexec : RawFd → K → IoResult (Unit {0}) × K
  set_cloexec fd k =
      let (flags, k') = calls.get_fd fd k in
      elim flags [ err e ↦ (err e, k') | ok f ↦ calls.set_fd fd (bit_or f fd_cloexec) k' ]

  unfoldable pub set_nonblock : RawFd → K → IoResult (Unit {0}) × K
  set_nonblock fd k =
      let (flags, k') = calls.get_fl fd k in
      elim flags [ err e ↦ (err e, k') | ok f ↦ calls.set_fl fd (bit_or f o_nonblock) k' ]

  -- An early return drops both ends of the pipe.
  unfoldable pub or_drop : RawFd × RawFd → IoResult (Unit {0}) × K → IoResult (RawFd × RawFd) × K
  or_drop ends (ok u, k) = (ok ends, k)
  or_drop ends (err e, k) = (err e, calls.close ends.0 (calls.close ends.1 k))

  -- The two calls of `fcntl` after `pipe`, one after the other.
  unfoldable pub mark_write : IoResult (RawFd × RawFd) × K → IoResult (RawFd × RawFd) × K
  unfolding set_cloexec or_drop
  mark_write (err e, k) = (err e, k)
  mark_write (ok ends, k) = or_drop ends (set_cloexec ends.1 k)

  unfoldable pub mark_read : IoResult (RawFd × RawFd) × K → IoResult (RawFd × RawFd) × K
  unfolding set_cloexec or_drop
  mark_read (err e, k) = (err e, k)
  mark_read (ok ends, k) = or_drop ends (set_cloexec ends.0 k)

  -- The function `pipe`, by the answer of `pipe2`.
  unfoldable pub marked : IoResult (RawFd × RawFd) × K → IoResult (RawFd × RawFd) × K
  unfolding mark_write mark_read
  marked (ok ends, k) = (ok ends, k)
  marked (err e, k) = mark_write (mark_read (calls.pipe k))

  unfoldable pub unblocked : IoResult (RawFd × RawFd) × K → IoResult (RawFd × RawFd) × K
  unfolding set_nonblock or_drop
  unblocked (err e, k) = (err e, k)
  unblocked (ok ends, k) = or_drop ends (set_nonblock ends.0 k)

  unfoldable pub as_pipe : IoResult (RawFd × RawFd) × K → IoResult Notifier × K
  as_pipe (err e, k) = (err e, k)
  as_pipe (ok ends, k) = (ok (pipe_ends ends.0 ends.1), k)

  -- `Notifier::new`, by the answer of `eventfd`.
  unfoldable pub or_pipe : IoResult RawFd × K → IoResult Notifier × K
  unfolding marked unblocked as_pipe
  or_pipe (ok fd, k) = (ok (event_fd fd), k)
  or_pipe (err e, k) = as_pipe (unblocked (marked (calls.pipe2 k)))

  unfoldable pub new_notifier : K → IoResult Notifier × K
  unfolding or_pipe
  new_notifier k = or_pipe (calls.eventfd k)

  -- The results of reading and writing are ignored.
  unfoldable pub notify : Notifier → K → K
  notify (event_fd fd) k = (calls.write fd 8 k).1
  notify (pipe_ends read_pipe write_pipe) k = (calls.write write_pipe 1 k).1

  -- The pipe is read until that fails.
  unfoldable pub empty : ℕ → RawFd → K → K
  empty zero fd k = k
  empty (suc fuel) fd k =
      let (got, k') = calls.read fd 1024 k in
      let rest = empty fuel fd k' in elim got [ ok n ↦ rest | err e ↦ k' ]

  unfoldable pub clear : Notifier → K → K
  unfolding empty
  clear (event_fd fd) k = (calls.read fd 8 k).1
  clear (pipe_ends read_pipe write_pipe) k = empty calls.rounds read_pipe k

  -- Dropping a notifier closes its descriptors, the read end of a pipe first.
  unfoldable pub drop_notifier : Notifier → K → K
  drop_notifier (event_fd fd) k = calls.close fd k
  drop_notifier (pipe_ends read_pipe write_pipe) k =
      calls.close write_pipe (calls.close read_pipe k)
