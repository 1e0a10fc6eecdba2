-- ===== src/Uring/Entries/Control.antt =====
-- lio-uring/src/operation.rs: the submission entries of polls, timeouts, cancellation, provided
-- buffers and waits. The target is little-endian. `IORING_POLL_ADD_MULTI`, 1, and
-- `IORING_TIMEOUT_UPDATE`, 2, are the kernel's bits.
use Prim.Native.Nat.{bit_or}
use lio.Base.{ℕ, Bool, if◌then◌else◌, ℤ, pos, negsuc}
use lio.Op.{RawFd, Pointer}
use lio.Uring.Entries.{Sqe, sqe_zeroed, as_u32, as_u64, as_i32}

abbrev pub build_poll_add : RawFd → ℕ → Bool → Sqe
build_poll_add fd flags multi = record sqe_zeroed {
  opcode = 6;
  fd = fd;
  len = if multi then 1 else 0;
  op_flags = flags;
}

abbrev pub build_poll_remove : ℕ → Sqe
build_poll_remove user_data = record sqe_zeroed { opcode = 7; fd = negsuc 0; addr = user_data }

abbrev pub build_timeout_remove : ℕ → Sqe
build_timeout_remove user_data = record sqe_zeroed { opcode = 12; fd = negsuc 0; addr = user_data }

abbrev pub build_timeout_update : ℕ → Pointer → ℕ → Sqe
build_timeout_update user_data timespec flags = record sqe_zeroed {
  opcode = 12;
  fd = negsuc 0;
  off = timespec;
  addr = user_data;
  op_flags = bit_or flags 2;
}

abbrev pub build_async_cancel : ℕ → Sqe
build_async_cancel user_data = record sqe_zeroed { opcode = 14; fd = negsuc 0; addr = user_data }

abbrev pub build_link_timeout : Pointer → ℕ → Sqe
build_link_timeout timespec flags = record sqe_zeroed {
  opcode = 15;
  fd = negsuc 0;
  addr = timespec;
  len = 1;
  op_flags = flags;
}

abbrev pub build_files_update : Pointer → ℕ → ℤ → Sqe
build_files_update fds len offset = record sqe_zeroed {
  opcode = 20;
  fd = negsuc 0;
  addr = fds;
  len = len;
  off = as_u64 offset;
}

abbrev pub build_epoll_ctl : RawFd → RawFd → ℤ → Pointer → Sqe
build_epoll_ctl epfd fd op ev = record sqe_zeroed {
  opcode = 29;
  fd = epfd;
  addr = ev;
  len = as_u32 op;
  off = as_u64 fd;
}

abbrev pub build_epoll_wait : RawFd → Pointer → ℕ → ℕ → Sqe
build_epoll_wait fd events max_events flags = record sqe_zeroed {
  opcode = 59;
  fd = fd;
  addr = events;
  len = max_events;
  op_flags = flags;
}

abbrev pub build_provide_buffers : Pointer → ℤ → ℕ → ℕ → ℕ → Sqe
build_provide_buffers addr len nbufs bgid bid = record sqe_zeroed {
  opcode = 31;
  fd = pos nbufs;
  addr = addr;
  len = as_u32 len;
  off = bid;
  buf = bgid;
}

abbrev pub build_remove_buffers : ℕ → ℕ → Sqe
build_remove_buffers nbufs bgid = record sqe_zeroed { opcode = 32; fd = pos nbufs; buf = bgid }

abbrev pub build_wait_id : ℕ → ℕ → ℤ → Pointer → ℕ → Sqe
build_wait_id idtype id options infop flags = record sqe_zeroed {
  opcode = 50;
  fd = as_i32 id;
  len = idtype;
  op_flags = flags;
  splice = options;
  off = infop;
}

abbrev pub build_futex_wait : Pointer → ℕ → ℕ → ℕ → ℕ → Sqe
build_futex_wait futex val mask futex_flags flags = record sqe_zeroed {
  opcode = 51;
  fd = as_i32 futex_flags;
  addr = futex;
  off = val;
  addr3 = mask;
  op_flags = flags;
}

abbrev pub build_futex_wake : Pointer → ℕ → ℕ → ℕ → ℕ → Sqe
build_futex_wake futex val mask futex_flags flags = record sqe_zeroed {
  opcode = 52;
  fd = as_i32 futex_flags;
  addr = futex;
  off = val;
  addr3 = mask;
  op_flags = flags;
}
