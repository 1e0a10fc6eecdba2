-- ===== src/Uring/Entries/Paths.antt =====
-- lio-uring/src/operation.rs: the submission entries of operations on files and their names.
use lio.Base.{ℕ, ℤ, pos, negsuc}
use lio.Op.{RawFd, Pointer}
use lio.Uring.Entries.{Sqe, sqe_zeroed, as_u32, as_u64}

abbrev pub build_sync_file_range : RawFd → ℕ → ℕ → ℕ → Sqe
build_sync_file_range fd len offset flags = record sqe_zeroed {
  opcode = 8;
  fd = fd;
  len = len;
  off = offset;
  op_flags = flags;
}

abbrev pub build_fallocate : RawFd → ℕ → ℕ → ℤ → Sqe
build_fallocate fd len offset mode = record sqe_zeroed {
  opcode = 17;
  fd = fd;
  addr = len;
  len = as_u32 mode;
  off = offset;
}

abbrev pub build_statx : RawFd → Pointer → Pointer → ℤ → ℕ → Sqe
build_statx dirfd pathname statxbuf flags mask = record sqe_zeroed {
  opcode = 21;
  fd = dirfd;
  addr = pathname;
  len = mask;
  off = statxbuf;
  op_flags = as_u32 flags;
}

abbrev pub build_fadvise : RawFd → ℤ → ℤ → ℕ → Sqe
build_fadvise fd len advice offset = record sqe_zeroed {
  opcode = 24;
  fd = fd;
  len = as_u32 len;
  off = offset;
  op_flags = as_u32 advice;
}

abbrev pub build_madvise : Pointer → ℤ → ℤ → Sqe
build_madvise addr len advice = record sqe_zeroed {
  opcode = 25;
  fd = negsuc 0;
  addr = addr;
  len = as_u32 len;
  op_flags = as_u32 advice;
}

abbrev pub build_splice : RawFd → ℤ → RawFd → ℤ → ℕ → ℕ → Sqe
build_splice fd_in off_in fd_out off_out len flags = record sqe_zeroed {
  opcode = 30;
  fd = fd_out;
  len = len;
  off = as_u64 off_out;
  splice = fd_in;
  addr = as_u64 off_in;
  op_flags = flags;
}

abbrev pub build_rename_at : RawFd → Pointer → RawFd → Pointer → ℕ → Sqe
build_rename_at olddirfd oldpath newdirfd newpath flags = record sqe_zeroed {
  opcode = 35;
  fd = olddirfd;
  addr = oldpath;
  len = as_u32 newdirfd;
  off = newpath;
  op_flags = flags;
}

abbrev pub build_unlink_at : RawFd → Pointer → ℤ → Sqe
build_unlink_at dirfd pathname flags = record sqe_zeroed {
  opcode = 36;
  fd = dirfd;
  addr = pathname;
  op_flags = as_u32 flags;
}

abbrev pub build_mkdir_at : RawFd → Pointer → ℕ → Sqe
build_mkdir_at dirfd pathname mode = record sqe_zeroed {
  opcode = 37;
  fd = dirfd;
  addr = pathname;
  len = mode;
}

abbrev pub build_f_get_xattr : RawFd → Pointer → Pointer → ℕ → Sqe
build_f_get_xattr fd name value len = record sqe_zeroed {
  opcode = 43;
  fd = fd;
  addr = name;
  len = len;
  off = value;
  op_flags = 0;
}

abbrev pub build_f_set_xattr : RawFd → Pointer → Pointer → ℕ → ℤ → Sqe
build_f_set_xattr fd name value len flags = record sqe_zeroed {
  opcode = 41;
  fd = fd;
  addr = name;
  len = len;
  off = value;
  op_flags = as_u32 flags;
}

abbrev pub build_pipe : Pointer → ℕ → Sqe
build_pipe fds flags = record sqe_zeroed { opcode = 62; fd = pos 0; addr = fds; op_flags = flags }

abbrev pub build_get_xattr : Pointer → Pointer → Pointer → ℕ → Sqe
build_get_xattr name value path len = record sqe_zeroed {
  opcode = 44;
  addr = name;
  len = len;
  off = value;
  addr3 = path;
  op_flags = 0;
}

abbrev pub build_set_xattr : Pointer → Pointer → Pointer → ℕ → ℤ → Sqe
build_set_xattr name value path len flags = record sqe_zeroed {
  opcode = 42;
  addr = name;
  len = len;
  off = value;
  addr3 = path;
  op_flags = as_u32 flags;
}
