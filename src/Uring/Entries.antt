-- ===== src/Uring/Entries.antt =====
-- lio-uring/src/operation.rs: the submission entries of the operations that the driver has.
-- `build_read` is `Read {..}.build()`, and so on: its arguments are the fields of the struct. A
-- field of `Sqe` is a member, or a union with its members' bits, of the kernel's structure.
pub mod Transfers
pub mod Paths
pub mod Control
use lio.Base.{ℕ, ltb, if◌then◌else◌, ◌-◌, ◌%◌, ◌^◌, ℤ, pos, negsuc}
use lio.Op.{RawFd, Pointer}

-- `off` is also `addr2`; `op_flags` is `rw_flags`, `msg_flags`, `accept_flags` and the like; `buf`
-- is `buf_index` or `buf_group`; `splice` is `splice_fd_in`, whose low half is `addr_len`.
pub record Sqe : Type 0 where
  pub opcode : ℕ
  pub flags : ℕ
  pub ioprio : ℕ
  pub fd : ℤ
  pub off : ℕ
  pub addr : ℕ
  pub len : ℕ
  pub op_flags : ℕ
  pub user_data : ℕ
  pub buf : ℕ
  pub splice : ℤ
  pub addr3 : ℕ

abbrev pub sqe_zeroed : Sqe
sqe_zeroed = record {
  opcode = 0;
  flags = 0;
  ioprio = 0;
  fd = pos 0;
  off = 0;
  addr = 0;
  len = 0;
  op_flags = 0;
  user_data = 0;
  buf = 0;
  splice = pos 0;
  addr3 = 0;
}

-- Casts of a signed number to an unsigned one.
abbrev pub as_u32 : ℤ → ℕ
as_u32 (pos n) = n % 2 ^ 32
as_u32 (negsuc n) = 2 ^ 32 - 1 - n % 2 ^ 32

abbrev pub as_u64 : ℤ → ℕ
as_u64 (pos n) = n % 2 ^ 64
as_u64 (negsuc n) = 2 ^ 64 - 1 - n % 2 ^ 64

-- The cast of `u32` to `i32`.
abbrev pub as_i32 : ℕ → ℤ
as_i32 n = if ltb (n % 2 ^ 32) (2 ^ 31) then pos (n % 2 ^ 32) else negsuc (2 ^ 32 - 1 - n % 2 ^ 32)

-- The opcodes are the kernel's numbers `IORING_OP_NOP` and so on.
abbrev pub build_nop : Sqe
build_nop = record sqe_zeroed { opcode = 0; fd = negsuc 0 }

abbrev pub build_read : RawFd → Pointer → ℕ → ℕ → ℕ → ℤ → ℕ → Sqe
build_read fd ptr len offset ioprio rw_flags buf_group = record sqe_zeroed {
  opcode = 22;
  fd = fd;
  ioprio = ioprio;
  addr = ptr;
  len = len;
  off = offset;
  op_flags = as_u32 rw_flags;
  buf = buf_group;
}

abbrev pub build_write : RawFd → Pointer → ℕ → ℕ → ℕ → ℤ → Sqe
build_write fd ptr len offset ioprio rw_flags = record sqe_zeroed {
  opcode = 23;
  fd = fd;
  ioprio = ioprio;
  addr = ptr;
  len = len;
  off = offset;
  op_flags = as_u32 rw_flags;
}

abbrev pub build_send : RawFd → Pointer → ℕ → ℤ → Pointer → ℕ → Sqe
build_send fd ptr len flags dest_addr dest_addr_len = record sqe_zeroed {
  opcode = 26;
  fd = fd;
  addr = ptr;
  off = dest_addr;
  splice = pos (dest_addr_len % 2 ^ 16);
  len = len;
  op_flags = as_u32 flags;
}

abbrev pub build_recv : RawFd → Pointer → ℕ → ℤ → ℕ → Sqe
build_recv fd ptr len flags buf_group = record sqe_zeroed {
  opcode = 27;
  fd = fd;
  addr = ptr;
  len = len;
  op_flags = as_u32 flags;
  buf = buf_group;
}

abbrev pub build_accept : RawFd → Pointer → Pointer → ℤ → Sqe
build_accept fd addr addrlen flags = record sqe_zeroed {
  opcode = 13;
  fd = fd;
  addr = addr;
  off = addrlen;
  op_flags = as_u32 flags;
}

abbrev pub build_connect : RawFd → Pointer → ℕ → Sqe
build_connect fd addr addrlen = record sqe_zeroed {
  opcode = 16;
  fd = fd;
  addr = addr;
  off = addrlen;
}

abbrev pub build_bind : RawFd → Pointer → ℕ → Sqe
build_bind fd addr addrlen = record sqe_zeroed { opcode = 56; fd = fd; addr = addr; off = addrlen }

abbrev pub build_listen : RawFd → ℤ → Sqe
build_listen fd backlog = record sqe_zeroed { opcode = 57; fd = fd; len = as_u32 backlog }

abbrev pub build_shutdown : RawFd → ℤ → Sqe
build_shutdown fd how = record sqe_zeroed { opcode = 34; fd = fd; len = as_u32 how }

abbrev pub build_socket : ℤ → ℤ → ℤ → ℤ → Sqe
build_socket domain socket_type protocol flags = record sqe_zeroed {
  opcode = 45;
  fd = domain;
  off = as_u64 socket_type;
  len = as_u32 protocol;
  op_flags = as_u32 flags;
}

abbrev pub build_open_at : RawFd → Pointer → ℤ → ℕ → Sqe
build_open_at dirfd pathname flags mode = record sqe_zeroed {
  opcode = 18;
  fd = dirfd;
  addr = pathname;
  len = mode;
  op_flags = as_u32 flags;
}

abbrev pub build_close : RawFd → Sqe
build_close fd = record sqe_zeroed { opcode = 19; fd = fd }

abbrev pub build_fsync : RawFd → ℕ → Sqe
build_fsync fd flags = record sqe_zeroed { opcode = 3; fd = fd; op_flags = flags }

abbrev pub build_ftruncate : RawFd → ℕ → Sqe
build_ftruncate fd len = record sqe_zeroed { opcode = 55; fd = fd; off = len }

abbrev pub build_link_at : RawFd → Pointer → RawFd → Pointer → ℤ → Sqe
build_link_at olddirfd oldpath newdirfd newpath flags = record sqe_zeroed {
  opcode = 39;
  fd = olddirfd;
  addr = oldpath;
  len = as_u32 newdirfd;
  off = newpath;
  op_flags = as_u32 flags;
}

abbrev pub build_symlink_at : RawFd → Pointer → Pointer → Sqe
build_symlink_at newdirfd target linkpath = record sqe_zeroed {
  opcode = 38;
  fd = newdirfd;
  addr = target;
  off = linkpath;
}

abbrev pub build_tee : RawFd → RawFd → ℕ → ℕ → Sqe
build_tee fd_in fd_out len flags = record sqe_zeroed {
  opcode = 33;
  fd = fd_out;
  len = len;
  splice = fd_in;
  op_flags = flags;
}

abbrev pub build_timeout : Pointer → ℕ → ℕ → Sqe
build_timeout timespec count flags = record sqe_zeroed {
  opcode = 11;
  fd = negsuc 0;
  addr = timespec;
  len = 1;
  off = count;
  op_flags = flags;
}
