-- ===== src/Tests/IocpTests.antt =====
-- A port whose only completion is that of the timer of slot 5, in its second generation.
use lio.Base.{ℕ, suc, ◌+◌, ◌^◌, ◌≡◌, refl, true, none, some, [], ◌∷◌, pos, ret, ok, arith}
use lio.Base.Assoc.{lookup, insert}
use lio.Contract.{IsBackend}
use lio.Op.{Op}
use lio.Iocp.{Windows, WinCall, Iocp, run_blocking}
use lio.Iocp.Starting.{start_timer}
use lio.Iocp.Polling.{backend, collect, drain_port, timer_callback, wait_timeout}
use lio.Iocp.Owing.{owes}
use lio.Iocp.Accepting.{HasPort, portable}
use lio.Iocp.Lawful.{iocp-IsBackend}
use lio.Iocp.Timers.{posted, timer_of_used_slot_lost}

abbrev late : ℕ
late = 2 ^ 32 + 5

abbrev windows : Windows ℕ
windows = record {
  call = λ c k. (pos 1, suc k);
  last_error = λ k. 258;
  wsa_last_error = λ k. 997;
  is_socket = λ handle. true;
  family = λ addr k. 2;
  new_state = λ k. (64, k);
  create_timer = λ port op_id due_time k. (pos 1, pos 9, k);
  get_status = λ port timeout k. (posted late, k);
}

abbrev ported : Iocp
ported = record {
  port = some (pos 3);
  associated_handles = [];
  active_ops = [];
  stored_ops = [];
  active_timers = [];
  immediate = (2, pos 7) ∷ [];
  completed = [];
  wsa_initialized = true;
}

abbrev timed : Iocp
timed = record ported { active_timers = insert late (pos 9) [] }

iocp-IsBackend_example :
    IsBackend (backend windows 4) HasPort (λ s. owes s.0) (λ s. Unit) (λ op. portable op ≡ true)
iocp-IsBackend_example = iocp-IsBackend windows 4

timer_of_used_slot_lost_example :
    (b' : Iocp) × (start_timer windows late
        (Op.timeout (record { secs = 1; nanos = 0 }) (pos 0) 0)
        ported
        0
      ≡ ret (ok tt, (b', 0)))
    × (lookup late b'.active_timers ≡ some (pos 9))
    × (lookup 5 b'.active_timers ≡ none)
    × (timer_callback windows (pos 3) late 0
        ≡ windows.call (WinCall.post_status (pos 3) (posted late).bytes (posted late).key) 0)
    × (collect windows 3 1000 true (pos 3) (timed, 0)
        ≡ collect windows 2 1000 true (pos 3) (timed, 0))
    × (drain_port windows 3 (pos 3) (timed, 0) ≡ drain_port windows 2 (pos 3) (timed, 0))
unfolding lookup insert lio.Base.Assoc.remove
timer_of_used_slot_lost_example =
    timer_of_used_slot_lost windows 2 late 1000 true (record { secs = 1; nanos = 0 }) (pos 0) 0
      (pos 3) (pos 9) (pos 1) ported timed 0 0 0 0 0 0 refl refl refl (omega arith) refl refl refl
      refl

-- The queued completion is told first.
told_first :
    wait_timeout windows 0 none (ported, 0)
    ≡ ret (
      ok (record { op_id = 2; result = pos 7 } ∷ []),
      (record ported { immediate = []; completed = record { op_id = 2; result = pos 7 } ∷ [] }, 0),
    )
unfolding wait_timeout
told_first = refl

-- A bound socket gives 0.
bound : run_blocking windows (Op.bind (pos 4) 64 16) 0 ≡ (pos 0, 1)
unfolding run_blocking
bound = refl
