-- ===== src/Iocp/Polling.antt =====
-- lio/src/backends/impls/iocp.rs: the completions that are taken from the port, and the backend.
-- The loops that ask the port for more have fuel, which bounds how often one call asks. A call whose
-- fuel is spent returns what it has.
use lio.Base.{
  ℕ, zero, suc, ◌-◌, ◌%◌, ◌^◌, min, Bool, true, false, not, ◌&&◌, Option, none, some, List, [], ◌∷◌,
  ◌++◌, map, ◌==◌, if◌then◌else◌, ℤ, pos, negsuc, Outcome, ret, ◌>>=◌, expect, os, IoResult, ok,
  err,
}
use lio.Base.Assoc.{lookup, remove}
use lio.Op.{OpCompleted, Duration, IoBackend, is_zero}
use lio.Poller.{as_millis}
use lio.Iocp.{Handle, Windows, WinCall, Status, Iocp, is_null, error_result}
use lio.Iocp.Starting.{push}

-- `NOTIFY_KEY` and `TIMER_KEY` are the two last keys of a completion.
abbrev pub notify_completion : ℕ
notify_completion = 2 ^ 64 - 1

abbrev pub timer_completion : ℕ
timer_completion = 2 ^ 64 - 2

abbrev pub wait_expired : ℕ
wait_expired = 258

abbrev pub told : ℕ → ℤ → OpCompleted
told id r = record { op_id = id; result = r }

abbrev pub has_completed : Iocp → Bool
has_completed b = elim b.completed [ [] ↦ false | c ∷ cs ↦ true ]

abbrev pub drained : Iocp → Iocp
drained b = record b { completed = map (λ c. told c.0 c.1) b.immediate; immediate = [] }

abbrev pub status_timeout : Option Duration → ℕ
status_timeout none = 2 ^ 32 - 1
status_timeout (some d) = min (as_millis d) (2 ^ 32 - 2)

abbrev pub is_blocking : Option Duration → Bool
is_blocking none = true
is_blocking (some d) = not (is_zero d)

-- Neither a completion nor one that failed.
abbrev pub is_empty : Status → Bool
is_empty st = not st.success && st.overlapped == 0

module _ {K : Type 0} (win : Windows K) where
  -- `timer_callback`, with the key in its context.
  unfoldable pub timer_callback : Handle → ℕ → K → ℤ × K
  timer_callback port op_id k =
      win.call (WinCall.post_status port (op_id % 2 ^ 32) timer_completion) k

  unfoldable pub settle_timer : ℕ → Iocp × K → Iocp × K
  settle_timer op_id (b, k) = elim (lookup op_id b.active_timers) [
    | none ↦ (b, k)
    | some timer ↦ (
      record b {
        active_timers = remove op_id b.active_timers;
        stored_ops = remove op_id b.stored_ops;
        completed = b.completed ++ told op_id (pos 0) ∷ [];
      },
      (win.call (WinCall.delete_timer timer (pos 0)) k).1,
    )
  ]

  unfoldable pub settle_op : Status → Iocp × K → Iocp × K
  settle_op st (b, k) = elim (lookup st.overlapped b.active_ops) [
    | none ↦ (b, k)
    | some op_id ↦ (
      record b {
        active_ops = remove st.overlapped b.active_ops;
        stored_ops = remove op_id b.stored_ops;
        completed =
            b.completed
            ++ told op_id (if st.success then pos st.bytes else error_result (win.last_error k))
              ∷ [];
      },
      k,
    )
  ]

  -- The first loop, until there is something, or nothing to wait for.
  unfoldable pub collect : ℕ → ℕ → Bool → Handle → Iocp × K → IoResult (Unit {0}) × (Iocp × K)
  unfolding settle_timer settle_op
  collect zero timeout blocking port s = (ok tt, s)
  collect (suc fuel) timeout blocking port (b, k) =
      let (st, k') = win.get_status port (if has_completed b then 0 else timeout) k in
      let again = collect fuel timeout blocking port (b, k') in
      let timed = collect fuel timeout blocking port (settle_timer st.bytes (b, k')) in
      let settled = settle_op st (b, k') in
      let onward = collect fuel timeout blocking port settled in
      if is_empty st
      then (if win.last_error k' == wait_expired
          then (ok tt, (b, k'))
          else (err (os (win.last_error k')), (b, k')))
      else if st.key == notify_completion
      then (if blocking && has_completed b then (ok tt, (b, k')) else again)
      else if st.key == timer_completion
      then timed
      else if blocking && has_completed settled.0
      then (ok tt, settled)
      else if not blocking
      then (ok tt, settled)
      else onward

  -- The second loop, which waits for nothing.
  unfoldable pub drain_port : ℕ → Handle → Iocp × K → Iocp × K
  unfolding settle_timer settle_op
  drain_port zero port s = s
  drain_port (suc fuel) port (b, k) =
      let (st, k') = win.get_status port 0 k in
      let again = drain_port fuel port (b, k') in
      let timed = drain_port fuel port (settle_timer st.bytes (b, k')) in
      let settled = drain_port fuel port (settle_op st (b, k')) in
      if is_empty st
      then (b, k')
      else if st.key == notify_completion
      then again
      else if st.key == timer_completion
      then timed
      else settled

  -- `poll_inner`. The port is asked for at the first turn of the loop, which there always is.
  unfoldable pub wait_timeout :
      ℕ → Option Duration → Iocp × K → Outcome (IoResult (List OpCompleted) × (Iocp × K))
  unfolding collect drain_port
  wait_timeout fuel timeout (b, k) = expect b.port >>= λ port.
      let (r, s) =
        collect fuel (status_timeout timeout) (is_blocking timeout) port (drained b, k) in
      elim r [
        | err e ↦ ret (err e, s)
        | ok _ ↦
            let s' = if has_completed s.0 then drain_port fuel port s else s in
            ret (ok s'.0.completed, s')
      ]

  unfoldable pub ensure_wsa : Iocp → K → IoResult (Unit {0}) × (Iocp × K)
  ensure_wsa b k =
      if b.wsa_initialized
      then (ok tt, (b, k))
      else (let (r, k') = win.call WinCall.wsa_startup k in
          elim r [
            | pos n ↦
                if n == 0
                then (ok tt, (record b { wsa_initialized = true }, k'))
                else (err (os n), (b, k'))
            | negsuc n ↦ (err (os (suc n)), (b, k'))
          ])

  unfoldable pub init : ℕ → Iocp × K → Outcome (IoResult (Unit {0}) × (Iocp × K))
  unfolding ensure_wsa
  init cap (b, k) =
      let (r, s) = ensure_wsa b k in
      elim r [
        | err e ↦ ret (err e, s)
        | ok _ ↦
            let (port, k') = win.call WinCall.create_port s.1 in
            if is_null port
            then ret (err (os (win.last_error k')), (s.0, k'))
            else ret (
              ok tt,
              (
                record {
                  port = some port;
                  associated_handles = [];
                  active_ops = [];
                  stored_ops = [];
                  active_timers = [];
                  immediate = [];
                  completed = [];
                  wsa_initialized = s.0.wsa_initialized;
                },
                k',
              ),
            )
      ]

  unfoldable pub flush : Iocp × K → Outcome (IoResult ℕ × (Iocp × K))
  flush s = ret (ok 0, s)

  unfoldable pub notify : Iocp × K → Outcome (IoResult (Unit {0}) × (Iocp × K))
  notify (b, k) = expect b.port >>= λ port.
      let (r, k') = win.call (WinCall.post_status port 0 notify_completion) k in
      ret (if is_null r then (err (os (win.last_error k')), (b, k')) else (ok tt, (b, k')))

  -- `Drop for Iocp`.
  unfoldable pub delete_timers : List (ℕ × Handle) → K → K
  delete_timers [] k = k
  delete_timers ((id, timer) ∷ ts) k =
      delete_timers ts (win.call (WinCall.delete_timer timer (negsuc 0)) k).1

  unfoldable pub drop_iocp : Iocp × K → K
  unfolding delete_timers
  drop_iocp (b, k) =
      let k' = delete_timers b.active_timers k in
      elim b.port [ none ↦ k' | some port ↦ (win.call (WinCall.close_handle port) k').1 ]

  unfoldable pub backend : ℕ → IoBackend (Iocp × K)
  unfolding init push flush wait_timeout
  backend fuel = record {
    init = init;
    push = push win;
    flush = flush;
    wait_timeout = wait_timeout fuel;
  }
