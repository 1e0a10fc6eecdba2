-- ===== src/Uring/Entries/Transfers.antt =====
-- lio-uring/src/operation.rs: the submission entries of reads, writes and messages. Several share an
-- opcode with a plain operation and differ in `ioprio`, whose bits `IORING_RECV_MULTISHOT`, 2,
-- `IORING_RECVSEND_BUNDLE`, 16, and `IORING_ACCEPT_MULTISHOT`, 1, are the kernel's.
use Prim.Native.Nat.{bit_or}
use lio.Base.{ℕ, Bool, if◌then◌else◌, Option, none, some, ◌-◌, ◌%◌, ◌^◌, ℤ, pos}
use lio.Op.{RawFd, Pointer}
use lio.Uring.Entries.{Sqe, sqe_zeroed, as_u32, as_i32}

-- `SqeFlags::BUFFER_SELECT`: the kernel takes the buffer from the group `buf`.
abbrev buffer_select : ℕ
buffer_select = 2 ^ 5

-- The buffer of a zero-copy send, which `IORING_RECVSEND_FIXED_BUF`, 4, marks as registered.
abbrev with_fixed_buf : Option ℕ → Sqe → Sqe
with_fixed_buf none sqe = sqe
with_fixed_buf (some buf_index) sqe = record sqe { buf = buf_index; ioprio = bit_or sqe.ioprio 4 }

abbrev pub build_readv : RawFd → Pointer → ℕ → ℕ → ℕ → ℤ → ℕ → Sqe
build_readv fd iovec len ioprio offset rw_flags buf_group = record sqe_zeroed {
  opcode = 1;
  fd = fd;
  ioprio = ioprio;
  addr = iovec;
  len = len;
  off = offset;
  op_flags = as_u32 rw_flags;
  buf = buf_group;
}

abbrev pub build_writev : RawFd → Pointer → ℕ → ℕ → ℕ → ℤ → Sqe
build_writev fd iovec len ioprio offset rw_flags = record sqe_zeroed {
  opcode = 2;
  fd = fd;
  ioprio = ioprio;
  addr = iovec;
  len = len;
  off = offset;
  op_flags = as_u32 rw_flags;
}

abbrev pub build_read_fixed : RawFd → Pointer → ℕ → ℕ → ℕ → ℕ → ℤ → Sqe
build_read_fixed fd ptr len buf_index ioprio offset rw_flags = record sqe_zeroed {
  opcode = 4;
  fd = fd;
  ioprio = ioprio;
  addr = ptr;
  len = len;
  off = offset;
  op_flags = as_u32 rw_flags;
  buf = buf_index;
}

abbrev pub build_write_fixed : RawFd → Pointer → ℕ → ℕ → ℕ → ℕ → ℤ → Sqe
build_write_fixed fd ptr len buf_index ioprio offset rw_flags = record sqe_zeroed {
  opcode = 5;
  fd = fd;
  ioprio = ioprio;
  addr = ptr;
  len = len;
  off = offset;
  op_flags = as_u32 rw_flags;
  buf = buf_index;
}

abbrev pub build_readv_fixed : RawFd → Pointer → ℕ → ℕ → ℕ → ℕ → ℤ → Sqe
build_readv_fixed fd iovec len buf_index ioprio offset rw_flags = record sqe_zeroed {
  opcode = 60;
  fd = fd;
  off = offset;
  addr = iovec;
  len = len;
  buf = buf_index;
  ioprio = ioprio;
  op_flags = as_u32 rw_flags;
}

abbrev pub build_writev_fixed : RawFd → Pointer → ℕ → ℕ → ℕ → ℕ → ℤ → Sqe
build_writev_fixed fd iovec len buf_index ioprio offset rw_flags = record sqe_zeroed {
  opcode = 61;
  fd = fd;
  off = offset;
  addr = iovec;
  len = len;
  buf = buf_index;
  ioprio = ioprio;
  op_flags = as_u32 rw_flags;
}

abbrev pub build_read_multi : RawFd → ℕ → ℕ → ℕ → Sqe
build_read_multi fd len buf_group offset = record sqe_zeroed {
  opcode = 49;
  fd = fd;
  off = offset;
  len = len;
  buf = buf_group;
  flags = buffer_select;
}

abbrev pub build_send_msg : RawFd → Pointer → ℕ → ℕ → Sqe
build_send_msg fd msg ioprio flags = record sqe_zeroed {
  opcode = 9;
  fd = fd;
  ioprio = ioprio;
  addr = msg;
  len = 1;
  op_flags = flags;
}

abbrev pub build_recv_msg : RawFd → Pointer → ℕ → ℕ → ℕ → Sqe
build_recv_msg fd msg ioprio flags buf_group = record sqe_zeroed {
  opcode = 10;
  fd = fd;
  ioprio = ioprio;
  addr = msg;
  len = 1;
  op_flags = flags;
  buf = buf_group;
}

abbrev pub build_recv_msg_multi : RawFd → Pointer → ℕ → ℕ → ℕ → Sqe
build_recv_msg_multi fd msg buf_group ioprio flags = record sqe_zeroed {
  opcode = 10;
  fd = fd;
  addr = msg;
  len = 1;
  op_flags = flags;
  buf = buf_group;
  flags = buffer_select;
  ioprio = bit_or ioprio 2;
}

abbrev pub build_send_msg_zc : RawFd → Pointer → ℕ → ℕ → Sqe
build_send_msg_zc fd msg ioprio flags = record sqe_zeroed {
  opcode = 48;
  fd = fd;
  ioprio = ioprio;
  addr = msg;
  len = 1;
  op_flags = flags;
}

abbrev pub build_send_zc : RawFd → Pointer → ℕ → Option ℕ → Pointer → ℕ → ℤ → ℕ → Sqe
build_send_zc fd ptr len buf_index dest_addr dest_addr_len flags zc_flags =
    with_fixed_buf buf_index (record sqe_zeroed {
      opcode = 47;
      fd = fd;
      addr = ptr;
      len = len;
      op_flags = as_u32 flags;
      ioprio = zc_flags;
      off = dest_addr;
      splice = pos (dest_addr_len % 2 ^ 16);
    })

abbrev pub build_recv_multi : RawFd → ℕ → ℤ → Sqe
build_recv_multi fd buf_group flags = record sqe_zeroed {
  opcode = 27;
  fd = fd;
  op_flags = as_u32 flags;
  buf = buf_group;
  flags = buffer_select;
  ioprio = 2;
}

abbrev pub build_send_bundle : RawFd → ℕ → ℤ → ℕ → Sqe
build_send_bundle fd buf_group flags len = record sqe_zeroed {
  opcode = 26;
  fd = fd;
  len = len;
  op_flags = as_u32 flags;
  ioprio = 16;
  flags = buffer_select;
  buf = buf_group;
}

abbrev pub build_recv_bundle : RawFd → ℕ → ℤ → Sqe
build_recv_bundle fd buf_group flags = record sqe_zeroed {
  opcode = 27;
  fd = fd;
  op_flags = as_u32 flags;
  buf = buf_group;
  flags = buffer_select;
  ioprio = 16;
}

abbrev pub build_recv_multi_bundle : RawFd → ℕ → ℤ → Sqe
build_recv_multi_bundle fd buf_group flags = record sqe_zeroed {
  opcode = 27;
  fd = fd;
  op_flags = as_u32 flags;
  buf = buf_group;
  flags = buffer_select;
  ioprio = bit_or 2 16;
}

abbrev pub build_recv_zc : RawFd → ℕ → ℕ → ℕ → Sqe
build_recv_zc fd len ifq ioprio = record sqe_zeroed {
  opcode = 58;
  fd = fd;
  len = len;
  ioprio = bit_or ioprio 2;
  splice = as_i32 ifq;
}

abbrev pub build_accept_multi : RawFd → Bool → ℤ → Sqe
build_accept_multi fd allocate_file_index flags = record sqe_zeroed {
  opcode = 13;
  fd = fd;
  ioprio = 1;
  op_flags = as_u32 flags;
  splice = as_i32 (if allocate_file_index then 2 ^ 32 - 1 else 0);
}
