-- ===== src/Syscall.antt =====
-- The system calls that the polling backend makes, as data, and the convention for their results
-- (`syscall_result` of lio/src/backends/impls/pollingv2/mod.rs). The kernel itself is a parameter:
-- `Kernel K` answers a call with the C return value and the `errno` that it leaves.
-- The numbers of errors are those of Linux.
use lio.Base.{ℕ, ℤ, is_neg, neg, if◌then◌else◌}
use lio.Op.{RawFd, Pointer, Duration}

pub data Syscall : Type 0 where
  read : (fd : RawFd) (ptr : Pointer) (len : ℕ) → Syscall
  write : (fd : RawFd) (ptr : Pointer) (len : ℕ) → Syscall
  pread : (fd : RawFd) (ptr : Pointer) (len : ℕ) (offset : ℤ) → Syscall
  pwrite : (fd : RawFd) (ptr : Pointer) (len : ℕ) (offset : ℤ) → Syscall
  send : (fd : RawFd) (ptr : Pointer) (len : ℕ) (flags : ℤ) → Syscall
  recv : (fd : RawFd) (ptr : Pointer) (len : ℕ) (flags : ℤ) → Syscall
  accept : (fd : RawFd) (addr : Pointer) (len : Pointer) → Syscall
  connect : (fd : RawFd) (addr : Pointer) (len : ℕ) → Syscall
  bind : (fd : RawFd) (addr : Pointer) (len : ℕ) → Syscall
  listen : (fd : RawFd) (backlog : ℤ) → Syscall
  shutdown : (fd : RawFd) (how : ℤ) → Syscall
  socket : (domain : ℤ) (ty : ℤ) (proto : ℤ) → Syscall
  openat : (dir_fd : RawFd) (path : Pointer) (flags : ℤ) → Syscall
  close : (fd : RawFd) → Syscall
  fsync : (fd : RawFd) → Syscall
  ftruncate : (fd : RawFd) (size : ℤ) → Syscall
  linkat :
      (old_dir_fd : RawFd) (old_path : Pointer) (new_dir_fd : RawFd) (new_path : Pointer)
      (flags : ℤ)
      → Syscall
  symlinkat : (target : Pointer) (dir_fd : RawFd) (linkpath : Pointer) → Syscall
  tee : (fd_in : RawFd) (fd_out : RawFd) (size : ℕ) (flags : ℕ) → Syscall
  sleep : (duration : Duration) → Syscall

-- A call gives its C result, the `errno` after it, and the outside world after it.
abbrev pub Kernel : Type 0 → Type 0
Kernel K = Syscall → K → ℤ × ℕ × K

abbrev pub eagain : ℕ
eagain = 11

abbrev pub einprogress : ℕ
einprogress = 115

abbrev pub eisconn : ℕ
eisconn = 106

abbrev pub eio : ℕ
eio = 5

abbrev pub ebadf : ℕ
ebadf = 9

abbrev pub enoent : ℕ
enoent = 2

-- `syscall_result` and `syscall_result_ssize`: a negative result becomes `-errno`.
abbrev pub syscall_result : ℤ → ℕ → ℤ
syscall_result r errno = if is_neg r then neg errno else r
