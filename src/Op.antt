-- ===== src/Op.antt =====
-- lio/src/op.rs: the operations that a backend is given, and lio/src/backends/backends.rs: the
-- backend's interface. `Op` has the constructors of a Linux build. Pointers are numbers; a
-- `Resource` is the descriptor that it owns, so dropping one is not seen here.
use lio.Base.{◌==◌, ◌&&◌, ℕ, Option, List, Bool, false, ℤ, pos, negsuc, Outcome, IoResult}

-- `RawFd`, an `i32`.
abbrev pub RawFd : Type 0
RawFd = ℤ

-- The equality of descriptors.
abbrev pub same_fd : RawFd → RawFd → Bool
same_fd (pos m) (pos n) = m == n
same_fd (negsuc m) (negsuc n) = m == n
same_fd (pos m) (negsuc n) = false
same_fd (negsuc m) (pos n) = false

abbrev pub Resource : Type 0
Resource = RawFd

abbrev pub Pointer : Type 0
Pointer = ℕ

-- What an `OpBuf` of an operation holds: where the buffer is, and how long.
pub record RawBuf : Type 0 where
  pub ptr : Pointer
  pub len : ℕ

pub record Duration : Type 0 where
  pub secs : ℕ
  pub nanos : ℕ

-- `Duration::is_zero`.
abbrev pub is_zero : Duration → Bool
is_zero d = (d.secs == 0) && (d.nanos == 0)

pub data Op : Type 0 where
  read : (fd : Resource) (buffer : RawBuf) → Op
  write : (fd : Resource) (buffer : RawBuf) → Op
  read_at : (fd : Resource) (offset : ℤ) (buffer : RawBuf) → Op
  write_at : (fd : Resource) (offset : ℤ) (buffer : RawBuf) → Op
  send : (fd : Resource) (flags : ℤ) (buffer : RawBuf) → Op
  recv : (fd : Resource) (flags : ℤ) (buffer : RawBuf) → Op
  accept : (fd : Resource) (addr : Pointer) (len : Pointer) → Op
  connect : (fd : Resource) (addr : Pointer) (len : ℕ) (connect_called : Bool) → Op
  bind : (fd : Resource) (addr : Pointer) (addrlen : ℕ) → Op
  listen : (fd : Resource) (backlog : ℤ) → Op
  shutdown : (fd : Resource) (how : ℤ) → Op
  socket : (domain : ℤ) (ty : ℤ) (proto : ℤ) → Op
  open_at : (dir_fd : Resource) (path : Pointer) (flags : ℤ) → Op
  close : (fd : RawFd) → Op
  fsync : (fd : Resource) → Op
  truncate : (fd : Resource) (size : ℕ) → Op
  link_at :
      (old_dir_fd : Resource) (old_path : Pointer) (new_dir_fd : Resource) (new_path : Pointer) → Op
  symlink_at : (dir_fd : Resource) (target : Pointer) (linkpath : Pointer) → Op
  tee : (fd_in : Resource) (fd_out : Resource) (size : ℕ) → Op
  timeout : (duration : Duration) (timer_fd : Resource) (timespec : Pointer) → Op
  nop : Op

pub record OpCompleted : Type 0 where
  pub op_id : ℕ
  pub result : ℤ

-- The trait `IoBackend`. `B` is the backend with all of the outside world that it acts on.
pub record IoBackend (B : Type 0) : Type 0 where
  pub init : ℕ → B → Outcome (IoResult (Unit {0}) × B)
  pub push : ℕ → Op → B → Outcome (IoResult (Unit {0}) × B)
  pub flush : B → Outcome (IoResult ℕ × B)
  pub wait_timeout : Option Duration → B → Outcome (IoResult (List OpCompleted) × B)
