-- ===== src/Iocp/Starting.antt =====
-- lio/src/backends/impls/iocp.rs: how an operation is started, which is `push`.
use lio.Base.{
  ℕ, ◌/◌, ◌%◌, ◌^◌, if◌then◌else◌, pos, Outcome, ret, panic, ◌>>=◌, expect, os, IoResult, ok, err,
}
use lio.Base.Assoc.{insert}
use lio.Op.{Op}
use lio.Uring.Entries.{as_u32, as_u64}
use lio.Poller.{as_millis}
use lio.Iocp.{
  Handle, Windows, WinCall, Iocp, is_null, is_invalid, error_result, complete_now, run_blocking,
  ensure_associated, handle_async_result, handle_wsa_result,
}

-- What `push` and its parts return.
abbrev pub Started : Type 0 → Type 0
Started K = Outcome (IoResult (Unit {0}) × (Iocp × K))

module _ {K : Type 0} (win : Windows K) where
  -- With the handle on the port, a new state for the operation is made.
  abbrev pub with_state : Handle → Iocp → K → (ℕ → Iocp → K → Iocp × K) → Started K
  with_state handle b k issue = ensure_associated win handle b k >>= λ r. elim r.0 [
    | err e ↦ ret (err e, (r.1, r.2))
    | ok _ ↦ let (addr, k') = win.new_state r.2 in ret (ok tt, issue addr r.1 k')
  ]

  -- `ReadFile` and `WriteFile`, at an offset of 64 bits in two halves.
  abbrev pub file_io : ℕ → Op → (ℕ → WinCall) → ℕ → Iocp → K → Iocp × K
  file_io id op c addr b k =
      let (r, k') = win.call (c addr) k in (handle_async_result win r id addr op b k', k')

  abbrev pub socket_io : ℕ → Op → (ℕ → WinCall) → ℕ → Iocp → K → Iocp × K
  socket_io id op c addr b k =
      let (r, k') = win.call (c addr) k in (handle_wsa_result win r id addr op b k', k')

  unfoldable pub start_read : ℕ → Op → Iocp → K → Started K
  start_read id (Op.read fd buffer) b k =
      with_state fd b k
        (file_io id (Op.read fd buffer) (WinCall.read_file fd buffer.ptr (buffer.len % 2 ^ 32) 0 0))
  start_read id (Op.read_at fd offset buffer) b k = with_state fd b k (
      file_io id (Op.read_at fd offset buffer) (
        WinCall.read_file fd buffer.ptr (buffer.len % 2 ^ 32) (as_u64 offset % 2 ^ 32)
          (as_u64 offset / 2 ^ 32)))
  start_read id op b k = panic

  unfoldable pub start_write : ℕ → Op → Iocp → K → Started K
  start_write id (Op.write fd buffer) b k =
      with_state fd b k (
        file_io id (Op.write fd buffer)
          (WinCall.write_file fd buffer.ptr (buffer.len % 2 ^ 32) 0 0))
  start_write id (Op.write_at fd offset buffer) b k = with_state fd b k (
      file_io id (Op.write_at fd offset buffer) (
        WinCall.write_file fd buffer.ptr (buffer.len % 2 ^ 32) (as_u64 offset % 2 ^ 32)
          (as_u64 offset / 2 ^ 32)))
  start_write id op b k = panic

  unfoldable pub start_wsa_send : ℕ → Op → Iocp → K → Started K
  start_wsa_send id (Op.send fd flags buffer) b k = with_state fd b k (
      socket_io id (Op.send fd flags buffer)
        (WinCall.wsa_send fd buffer.ptr (buffer.len % 2 ^ 32) (as_u32 flags)))
  start_wsa_send id op b k = panic

  unfoldable pub start_wsa_recv : ℕ → Op → Iocp → K → Started K
  start_wsa_recv id (Op.recv fd flags buffer) b k = with_state fd b k (
      socket_io id (Op.recv fd flags buffer)
        (WinCall.wsa_recv fd buffer.ptr (buffer.len % 2 ^ 32) (as_u32 flags)))
  start_wsa_recv id op b k = panic

  -- `accept` and `connect` block, and are complete at once.
  unfoldable pub start_accept : ℕ → Op → Iocp → K → Started K
  start_accept id (Op.accept fd addr len) b k =
      let (r, k') = win.call (WinCall.accept fd addr len) k in
      let result = if is_invalid r then error_result (win.wsa_last_error k') else r in
      ret (ok tt, (complete_now b id result, k'))
  start_accept id op b k = panic

  unfoldable pub start_connect : ℕ → Op → Iocp → K → Started K
  start_connect id (Op.connect fd addr len connect_called) b k =
      let (r, k') = win.call (WinCall.connect fd addr len) k in
      let result = if is_invalid r then error_result (win.wsa_last_error k') else pos 0 in
      ret (ok tt, (complete_now b id result, k'))
  start_connect id op b k = panic

  -- The key is in the context that `timer_callback` is given.
  unfoldable pub start_timer : ℕ → Op → Iocp → K → Started K
  start_timer id (Op.timeout duration timer_fd timespec) b k = expect b.port >>= λ port.
      let (r, timer, k') = win.create_timer port id (as_millis duration % 2 ^ 32) k in
      ret (
        if is_null r then (err (os (win.last_error k')), (b, k')) else (
          ok tt,
          (
            record b {
              active_timers = insert id timer b.active_timers;
              stored_ops = insert id (Op.timeout duration timer_fd timespec) b.stored_ops;
            },
            k',
          ),
        ))
  start_timer id op b k = panic

  unfoldable pub push : ℕ → Op → Iocp × K → Started K
  unfolding start_read start_write start_wsa_send start_wsa_recv start_accept start_connect
      start_timer
  push id (Op.read fd buffer) (b, k) = start_read id (Op.read fd buffer) b k
  push id (Op.read_at fd offset buffer) (b, k) = start_read id (Op.read_at fd offset buffer) b k
  push id (Op.write fd buffer) (b, k) = start_write id (Op.write fd buffer) b k
  push id (Op.write_at fd offset buffer) (b, k) = start_write id (Op.write_at fd offset buffer) b k
  push id (Op.send fd flags buffer) (b, k) = start_wsa_send id (Op.send fd flags buffer) b k
  push id (Op.recv fd flags buffer) (b, k) = start_wsa_recv id (Op.recv fd flags buffer) b k
  push id (Op.accept fd addr len) (b, k) = start_accept id (Op.accept fd addr len) b k
  push id (Op.connect fd addr len called) (b, k) =
      start_connect id (Op.connect fd addr len called) b k
  push id (Op.timeout duration timer_fd timespec) (b, k) =
      start_timer id (Op.timeout duration timer_fd timespec) b k
  push id op (b, k) = let (r, k') = run_blocking win op k in ret (ok tt, (complete_now b id r, k'))
