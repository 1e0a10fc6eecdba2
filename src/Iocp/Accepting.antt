-- ===== src/Iocp/Accepting.antt =====
-- `push` of the backend on completion ports: one more completion is owed at most.
use lio.Base.{
  ℕ, os, ◌%◌, ◌/◌, ◌^◌, ◌+◌, ◌≤◌, ◌≡◌, refl, ◌∙◌, Bool, true, false, Option, some, ◌∷◌, ℤ, ret,
  arith, ◌==◌, if◌then◌else◌, IoResult, ok, err, Bool-cases, inl, inr,
}
use lio.Base.Assoc.{insert, lookup-insert}
use lio.Op.{Op, Duration, same_fd}
use lio.Contract.{Pushes, accepts, refuses}
use lio.Poller.Accepting.{count-queue}
use lio.Uring.Entries.{as_u32, as_u64}
use lio.Poller.{as_millis}
use lio.Poller.Kqueue.{contains}
use lio.Iocp.{
  is_null, WinCall, io_pending, ensure_associated, handle_async_result, handle_wsa_result, Handle,
  Windows, Iocp, complete_now, track,
}
use lio.Iocp.Starting.{push, with_state, file_io, socket_io}
use lio.Iocp.Owing.{owes, in_flight-insert}
use lio.Iocp.Polling.{backend}

-- The backend has its port.
abbrev pub HasPort : {K : Type 0} → Iocp × K → Type 0
HasPort s = (port : Handle) × (s.0.port ≡ some port)

-- Windows has no `tee`.
abbrev pub portable : Op → Bool
portable (Op.tee fd_in fd_out size) = false
portable op = true

module _ {K : Type 0} (win : Windows K) where
  -- An operation that is run at once.
  accepts_now :
      (fuel id : ℕ) (op : Op) (r : ℤ) (b : Iocp) (k k' : K)
      → HasPort (b, k)
      → push win id op (b, k) ≡ ret (ok tt, (complete_now b id r, k'))
      → Pushes (backend win fuel) HasPort (λ s. owes s.0) id op (b, k)
  unfolding backend
  accepts_now fuel id op r b k k' on run =
      accepts (complete_now b id r, k') run on (λ j. omega (arith, count-queue j id r b.immediate))

  ensure_associated_lem :
      (fd : Handle) (b : Iocp) (k : K)
      → HasPort (b, k)
      → (r : IoResult (Unit {0})) × (b' : Iocp) × (k' : K) × (ensure_associated win fd b k
          ≡ ret (r, b', k'))
        × ((port : Option Handle) → b.port ≡ port → b'.port ≡ port)
        × ((j : ℕ) → owes b' j ≡ owes b j)
  unfolding ensure_associated
  ensure_associated_lem fd b k (port, on) =
      elim (Bool-cases (contains same_fd fd b.associated_handles)) [
        | inl there ↦ (ok tt, b, k, ground (arith, there), λ p e. e, λ j. refl)
        | inr absent ↦
            let (answer, k') = win.call (WinCall.associate fd port) k in
            elim (Bool-cases (is_null answer)) [
              | inl failed ↦ (
                err (os (win.last_error k')),
                b,
                k',
                ground (arith, absent, on, failed),
                λ p e. e,
                λ j. refl,
              )
              | inr made ↦ (
                ok tt,
                record b { associated_handles = fd ∷ b.associated_handles },
                k',
                ground (arith, absent, on, made),
                λ p e. e,
                λ j. refl,
              )
            ]
      ]

  -- The operation was given to Windows, and owes one completion at most.
  abbrev TakesOn : ℕ → Iocp → Iocp → Type 0
  TakesOn id b b' =
      (b'.port ≡ b.port) × ((j : ℕ) → owes b' j ≤ owes b j + (if id == j then 1 else 0))

  track-TakesOn : (id addr : ℕ) (op : Op) (b : Iocp) → TakesOn id b (track b id addr op)
  track-TakesOn id addr op b = (refl, λ j. omega (arith, in_flight-insert j addr id b.active_ops))

  complete_now-TakesOn : (id : ℕ) (r : ℤ) (b : Iocp) → TakesOn id b (complete_now b id r)
  complete_now-TakesOn id r b = (refl, λ j. omega (arith, count-queue j id r b.immediate))

  handle_async_result-TakesOn :
      (r : ℤ) (id addr : ℕ) (op : Op) (b : Iocp) (k : K)
      → TakesOn id b (handle_async_result win r id addr op b k)
  unfolding handle_async_result
  handle_async_result-TakesOn r id addr op b k = elim (Bool-cases (is_null r)) [
    | inr done ↦ rw done (track-TakesOn id addr op b)
    | inl bad ↦ elim (Bool-cases (win.last_error k == io_pending)) [
      | inl later ↦ rw (bad, later) (track-TakesOn id addr op b)
      | inr wrong ↦ rw (bad, wrong) (complete_now-TakesOn id _ b)
    ]
  ]

  handle_wsa_result-TakesOn :
      (r : ℤ) (id addr : ℕ) (op : Op) (b : Iocp) (k : K)
      → TakesOn id b (handle_wsa_result win r id addr op b k)
  unfolding handle_wsa_result
  handle_wsa_result-TakesOn r id addr op b k = elim (Bool-cases (is_null r)) [
    | inl done ↦ rw done (track-TakesOn id addr op b)
    | inr bad ↦ elim (Bool-cases (win.wsa_last_error k == io_pending)) [
      | inl later ↦ rw (bad, later) (track-TakesOn id addr op b)
      | inr wrong ↦ rw (bad, wrong) (complete_now-TakesOn id _ b)
    ]
  ]

  started-Pushes :
      (fuel id : ℕ) (op : Op) (fd : Handle) (issue : ℕ → Iocp → K → Iocp × K) (b : Iocp) (k : K)
      → HasPort (b, k)
      → push win id op (b, k) ≡ with_state win fd b k issue
      → ((addr : ℕ) (c : Iocp) (k : K) → TakesOn id c (issue addr c k).0)
      → Pushes (backend win fuel) HasPort (λ s. owes s.0) id op (b, k)
  unfolding backend
  started-Pushes fuel id op fd issue b k (port, on) run takes =
      let (r, b', k', done, kept, same) = ensure_associated_lem fd b k (port, on) in
      by_result r b' k' done (kept (some port) on) same
    where
      by_result :
          (r : IoResult (Unit {0})) (b' : Iocp) (k' : K)
          → ensure_associated win fd b k ≡ ret (r, b', k')
          → b'.port ≡ some port
          → ((j : ℕ) → owes b' j ≡ owes b j)
          → Pushes (backend win fuel) HasPort (λ s. owes s.0) id op (b, k)
      by_result (err e) b' k' done on' same =
          refuses e (b', k') (run ∙ rw done refl) (port, on') (λ j. omega (arith, same j))
      by_result (ok u) b' k' done on' same =
          let (addr, k₁) = win.new_state k' in
          let (port_same, more) = takes addr b' k₁ in
          accepts (issue addr b' k₁) (run ∙ rw done refl) (port, port_same ∙ on')
            (λ j. omega (arith, same j, more j))

  file-Pushes :
      (fuel id : ℕ) (op : Op) (fd : Handle) (c : ℕ → WinCall) (b : Iocp) (k : K)
      → HasPort (b, k)
      → push win id op (b, k) ≡ with_state win fd b k (file_io win id op c)
      → Pushes (backend win fuel) HasPort (λ s. owes s.0) id op (b, k)
  file-Pushes fuel id op fd c b k on run =
      started-Pushes fuel id op fd (file_io win id op c) b k on run (λ addr b k.
        let (r, k') = win.call (c addr) k in handle_async_result-TakesOn r id addr op b k')

  socket-Pushes :
      (fuel id : ℕ) (op : Op) (fd : Handle) (c : ℕ → WinCall) (b : Iocp) (k : K)
      → HasPort (b, k)
      → push win id op (b, k) ≡ with_state win fd b k (socket_io win id op c)
      → Pushes (backend win fuel) HasPort (λ s. owes s.0) id op (b, k)
  socket-Pushes fuel id op fd c b k on run =
      started-Pushes fuel id op fd (socket_io win id op c) b k on run (λ addr b k.
        let (r, k') = win.call (c addr) k in handle_wsa_result-TakesOn r id addr op b k')

  start_timer-Pushes :
      (fuel id : ℕ) (d : Duration) (timer_fd : Handle) (timespec : ℕ) (b : Iocp) (k : K)
      → HasPort (b, k)
      → Pushes (backend win fuel) HasPort (λ s. owes s.0) id (Op.timeout d timer_fd timespec) (b, k)
  unfolding backend push
  start_timer-Pushes fuel id d timer_fd timespec b k (port, on) =
      let (r, timer, k') = win.create_timer port id (as_millis d % 2 ^ 32) k in
      elim (Bool-cases (is_null r)) [
        | inl failed ↦
            refuses (os (win.last_error k')) (b, k') (ground (arith, on, failed)) (port, on)
              (λ j. omega arith)
        | inr made ↦
            accepts
              (
                record b {
                  active_timers = insert id timer b.active_timers;
                  stored_ops = insert id (Op.timeout d timer_fd timespec) b.stored_ops;
                },
                k',
              )
              (ground (arith, on, made)) (port, on)
              (λ j. ground (arith, lookup-insert id j timer b.active_timers))
      ]

  pub push-Pushes :
      (fuel id : ℕ) (op : Op) (b : Iocp) (k : K)
      → HasPort (b, k)
      → portable op ≡ true
      → Pushes (backend win fuel) HasPort (λ s. owes s.0) id op (b, k)
  unfolding push
  push-Pushes fuel id (Op.tee fd_in fd_out size) b k on can = cc
  push-Pushes fuel id (Op.read fd buffer) b k on can =
      file-Pushes fuel id _ fd (WinCall.read_file fd buffer.ptr (buffer.len % 2 ^ 32) 0 0) b k on
        refl
  push-Pushes fuel id (Op.read_at fd offset buffer) b k on can =
      file-Pushes fuel id _ fd
        (WinCall.read_file fd buffer.ptr (buffer.len % 2 ^ 32) (as_u64 offset % 2 ^ 32)
          (as_u64 offset / 2 ^ 32))
        b k on refl
  push-Pushes fuel id (Op.write fd buffer) b k on can =
      file-Pushes fuel id _ fd (WinCall.write_file fd buffer.ptr (buffer.len % 2 ^ 32) 0 0) b k on
        refl
  push-Pushes fuel id (Op.write_at fd offset buffer) b k on can =
      file-Pushes fuel id _ fd
        (WinCall.write_file fd buffer.ptr (buffer.len % 2 ^ 32) (as_u64 offset % 2 ^ 32)
          (as_u64 offset / 2 ^ 32))
        b k on refl
  push-Pushes fuel id (Op.send fd flags buffer) b k on can =
      socket-Pushes fuel id _ fd
        (WinCall.wsa_send fd buffer.ptr (buffer.len % 2 ^ 32) (as_u32 flags)) b k on refl
  push-Pushes fuel id (Op.recv fd flags buffer) b k on can =
      socket-Pushes fuel id _ fd
        (WinCall.wsa_recv fd buffer.ptr (buffer.len % 2 ^ 32) (as_u32 flags)) b k on refl
  push-Pushes fuel id (Op.timeout duration timer_fd timespec) b k on can =
      start_timer-Pushes fuel id duration timer_fd timespec b k on
  push-Pushes fuel id op b k on can = accepts_now fuel id _ _ b k _ on refl
