-- ===== src/Tests/PollerTests.antt =====
-- The readiness backend over a kernel whose world is the number of calls made so far, and an
-- operating system's poller that accepts every registration.
use lio.Base.{
  ℕ, zero, suc, ◌+◌, ◌≤◌, ◌<◌, ◌^◌, ◌≡◌, ◌≢◌, refl, Bool, true, false, ◌||◌, Option, none, some, [],
  ◌∷◌, ◌++◌, arith, length, All, ltb, ◌==◌, if◌then◌else◌, Outcome, ret, panic, inl, inr, ℤ, pos,
  negsuc, neg, os, IoResult, ok, err,
}
use lio.Base.Assoc.{lookup}
use lio.Op.{Op}
use lio.Interest
use lio.Interest.{Interest, is_readable, is_writable, is_timer, or, contains}
use lio.Syscall.{Kernel, einprogress}
use lio.Syscall
use lio.Poller.{Poller, Event, ReadinessPoll, iter, run_op_on_event, run_op_blocking}
use lio.Poller.Backend.{push, process, wait_timeout}
use lio.Poller.RunOp.{run_op_on_event-run_op_blocking}
use lio.Poller.Consistency.{IsConsistent}
use lio.Poller.Faults.{connect_in_progress_panics}

-- Every call returns 1, but a connection is in progress.
abbrev pub kernel : Kernel ℕ
kernel (Syscall.connect fd addr len) k = (negsuc 0, einprogress, suc k)
kernel call k = (pos 1, 0, suc k)

abbrev ready : Event
ready = record { key = 3; interest = Interest.read }

abbrev poll : ReadinessPoll ℕ
poll = record {
  new = λ k. (ok tt, k);
  add = λ fd key interest k. (ok tt, k);
  modify = λ fd key interest k. (ok tt, k);
  delete = λ fd k. (ok tt, k);
  delete_timer = λ key k. (err (os 2), k);
  wait = λ room timeout k. (ok (ready ∷ []), k);
}

-- A poller that cannot deregister.
abbrev stuck_poll : ReadinessPoll ℕ
stuck_poll = record poll { delete = λ fd k. (err (os 2), k) }

abbrev a_recv : Op
a_recv = Op.recv (pos 8) (pos 0) (record { ptr = 64; len = 16 })

-- One `recv` is registered under key 3, and the completion of key 2 is queued.
abbrev pub waiting : Poller
waiting = record {
  sys = true;
  fd_map = some ((3, pos 8) ∷ []);
  op_map = (3, a_recv) ∷ [];
  events = 4;
  immediate = (2, pos 7) ∷ [];
  completed = [];
}

pub waiting-IsConsistent : IsConsistent waiting
unfolding lookup
waiting-IsConsistent = record {
  started = refl;
  fds = (3, pos 8) ∷ [];
  has = refl;
  agree = λ j. ground arith;
}

-- The queued completion, then that of the event; afterwards nothing is left.
wait_waiting :
    wait_timeout kernel poll none (waiting, 0)
    ≡ ret (
      ok (record { op_id = 2; result = pos 7 } ∷ record { op_id = 3; result = pos 1 } ∷ []),
      (
        record waiting {
          fd_map = some [];
          op_map = [];
          immediate = [];
          completed =
              record { op_id = 2; result = pos 7 } ∷ record { op_id = 3; result = pos 1 } ∷ [];
        },
        1,
      ),
    )
unfolding wait_timeout process iter lookup run_op_on_event is_timer lio.Base.Assoc.remove
wait_waiting = refl

run_op_example : run_op_on_event kernel a_recv 5 ≡ ret (run_op_blocking kernel a_recv 5)
run_op_example = run_op_on_event-run_op_blocking kernel a_recv 5

connect_in_progress_panics_example :
    (p' : Poller) × (push kernel poll 5 (Op.connect (pos 9) 64 16 false) (waiting, 0)
      ≡ ret (ok tt, (p', 1)))
    × (process kernel poll (record { key = 5; interest = Interest.write }) (p', 1) ≡ panic)
unfolding run_op_blocking
connect_in_progress_panics_example =
    connect_in_progress_panics kernel poll 5 waiting 0 1 1 waiting-IsConsistent (omega arith)
      (pos 9) 64 16 false Interest.write 1 refl refl
