-- ===== src/Iocp.antt =====
-- lio/src/backends/impls/iocp.rs: the backend on the completion ports of Windows.
-- The system is a record of functions over its world: `call` makes a call that returns a number,
-- the others return more. An `OVERLAPPED` is its address. A handle or a socket is an integer, and the
-- invalid ones are -1. `is_socket` stands for that field of a closing operation, which the
-- operations of the other systems lack; there is no `tee`. The source matches on the operations as
-- they once were, with an address in place of the pointer to it and its length.
pub mod Starting
pub mod Polling
pub mod Timers
pub mod Owing
pub mod Accepting
pub mod Lawful
use lio.Base.{
  ℕ, not, ◌+◌, ◌-◌, ◌/◌, ◌%◌, ◌^◌, Bool, true, false, Option, none, some, List, [], ◌∷◌, ◌++◌, ◌==◌,
  if◌then◌else◌, ℤ, pos, negsuc, neg, Outcome, ret, panic, ◌>>=◌, expect, os, IoResult, ok, err,
}
use lio.Base.Assoc.{insert}
use lio.Op.{Op, OpCompleted, Pointer, RawBuf, Duration, same_fd}
use lio.Uring.Entries.{as_u32, as_u64}
use lio.Poller.{as_i64}
use lio.Poller.Kqueue.{contains}

abbrev pub Handle : Type 0
Handle = ℤ

pub data WinCall : Type 0 where
  wsa_startup create_port : WinCall
  associate : (handle port : Handle) → WinCall
  read_file write_file :
      (handle : Handle) (ptr : Pointer) (len offset offset_high overlapped : ℕ) → WinCall
  wsa_send wsa_recv : (socket : Handle) (ptr : Pointer) (len flags overlapped : ℕ) → WinCall
  accept : (socket : Handle) (addr len : Pointer) → WinCall
  connect : (socket : Handle) (addr : Pointer) (len : ℕ) → WinCall
  bind : (socket : Handle) (addr : Pointer) (len : ℕ) → WinCall
  listen : (socket : Handle) (backlog : ℤ) → WinCall
  shutdown : (socket : Handle) (how : ℕ) → WinCall
  socket : (domain ty proto : ℤ) → WinCall
  close_socket close_handle flush_file_buffers set_end_of_file : (handle : Handle) → WinCall
  set_file_pointer : (handle : Handle) (distance : ℤ) → WinCall
  create_file : (path : Pointer) → WinCall
  delete_timer : (timer completion : Handle) → WinCall
  post_status : (port : Handle) (bytes key : ℕ) → WinCall

-- What `GetQueuedCompletionStatus` returns and writes; the null pointer is 0.
pub record Status : Type 0 where
  pub success : Bool
  pub bytes : ℕ
  pub key : ℕ
  pub overlapped : ℕ

pub record Windows (K : Type 0) : Type 0 where
  pub call : WinCall → K → ℤ × K
  pub last_error : K → ℕ
  pub wsa_last_error : K → ℕ
  pub is_socket : Handle → Bool
  pub family : Pointer → K → ℕ
  pub new_state : K → ℕ × K
  pub create_timer : (port : Handle) (op_id due_time : ℕ) → K → ℤ × Handle × K
  pub get_status : (port : Handle) (timeout : ℕ) → K → Status × K

pub record Iocp : Type 0 where
  pub port : Option Handle
  pub associated_handles : List Handle
  pub active_ops : List (ℕ × ℕ)
  pub stored_ops : List (ℕ × Op)
  pub active_timers : List (ℕ × Handle)
  pub immediate : List (ℕ × ℤ)
  pub completed : List OpCompleted
  pub wsa_initialized : Bool

-- Tests of the numbers that calls return.
abbrev pub is_null : ℤ → Bool
is_null (pos n) = n == 0
is_null (negsuc n) = false

-- `SOCKET_ERROR`, `INVALID_SOCKET` and `INVALID_HANDLE_VALUE` are -1.
abbrev pub is_invalid : ℤ → Bool
is_invalid (pos n) = false
is_invalid (negsuc n) = n == 0

abbrev pub error_not_supported : ℕ
error_not_supported = 50

abbrev pub io_pending : ℕ
io_pending = 997

-- `error_result`.
abbrev pub error_result : ℕ → ℤ
error_result error = neg error

-- `SD_RECEIVE`, `SD_SEND` and `SD_BOTH`.
abbrev pub win_how : ℤ → ℕ
win_how (pos n) = if n == 0 then 0 else if n == 1 then 1 else 2
win_how (negsuc n) = 2

-- The length by the family: `AF_INET`, `AF_INET6` and any other.
abbrev pub addr_len : ℕ → ℕ
addr_len family = if family == 2 then 16 else if family == 23 then 28 else 128

abbrev pub complete_now : Iocp → ℕ → ℤ → Iocp
complete_now b id r = record b { immediate = b.immediate ++ (id, r) ∷ [] }

-- The state of an operation that is in flight, and the operation.
abbrev pub track : Iocp → ℕ → ℕ → Op → Iocp
track b id addr op = record b {
  active_ops = insert addr id b.active_ops;
  stored_ops = insert id op b.stored_ops;
}

module _ {K : Type 0} (win : Windows K) where
  -- A call that returns -1, or 0, on failure.
  socket_call : WinCall → K → ℤ × K
  socket_call c k =
      let (r, k') = win.call c k in
      if is_invalid r then (error_result (win.wsa_last_error k'), k') else (pos 0, k')

  file_call : WinCall → K → ℤ × K
  file_call c k =
      let (r, k') = win.call c k in
      if is_null r then (error_result (win.last_error k'), k') else (pos 0, k')

  close_socket_call : Handle → K → ℤ × K
  close_socket_call handle k =
      let (r, k') = win.call (WinCall.close_socket handle) k in
      if is_null r then (pos 0, k') else (error_result (win.wsa_last_error k'), k')

  unfoldable pub run_blocking : Op → K → ℤ × K
  unfolding socket_call file_call close_socket_call
  run_blocking (Op.socket domain ty proto) k =
      let (r, k') = win.call (WinCall.socket domain ty proto) k in
      if is_invalid r then (error_result (win.wsa_last_error k'), k') else (r, k')
  run_blocking (Op.bind fd addr addrlen) k =
      socket_call (WinCall.bind fd addr (addr_len (win.family addr k))) k
  run_blocking (Op.listen fd backlog) k = socket_call (WinCall.listen fd backlog) k
  run_blocking (Op.shutdown fd how) k = socket_call (WinCall.shutdown fd (win_how how)) k
  run_blocking (Op.close fd) k =
      if win.is_socket fd then close_socket_call fd k else file_call (WinCall.close_handle fd) k
  run_blocking (Op.fsync fd) k = file_call (WinCall.flush_file_buffers fd) k
  run_blocking (Op.truncate fd size) k =
      let (r, k') = win.call (WinCall.set_file_pointer fd (as_i64 size)) k in
      if is_null r
      then (error_result (win.last_error k'), k')
      else file_call (WinCall.set_end_of_file fd) k'
  run_blocking (Op.open_at dir_fd path flags) k =
      let (r, k') = win.call (WinCall.create_file path) k in
      if is_invalid r then (error_result (win.last_error k'), k') else (r, k')
  run_blocking Op.nop k = (pos 0, k)
  run_blocking op k = (error_result error_not_supported, k)

  -- `ensure_associated`, which panics before `init`.
  unfoldable pub ensure_associated : Handle → Iocp → K → Outcome (IoResult (Unit {0}) × Iocp × K)
  ensure_associated handle b k =
      if contains same_fd handle b.associated_handles
      then ret (ok tt, b, k)
      else (expect b.port >>= λ port.
          let (r, k') = win.call (WinCall.associate handle port) k in
          ret (
            if is_null r
            then (err (os (win.last_error k')), b, k')
            else (ok tt, record b { associated_handles = handle ∷ b.associated_handles }, k')))

  -- A result that is not zero, or a pending one, is reported through the port.
  unfoldable pub handle_async_result : ℤ → ℕ → ℕ → Op → Iocp → K → Iocp
  handle_async_result r id addr op b k =
      let error = win.last_error k in
      if not (is_null r)
      then track b id addr op
      else if error == io_pending
      then track b id addr op
      else complete_now b id (error_result error)

  unfoldable pub handle_wsa_result : ℤ → ℕ → ℕ → Op → Iocp → K → Iocp
  handle_wsa_result r id addr op b k =
      if is_null r
      then track b id addr op
      else let error = win.wsa_last_error k in
        if error == io_pending then track b id addr op else complete_now b id (error_result error)
