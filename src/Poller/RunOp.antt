-- ===== src/Poller/RunOp.antt =====
-- The two ways to run an operation, `run_op_on_event` and `run_op_blocking`, against each other.
use lio.Base.{ℕ, ◌≡◌, refl, ◌⊎◌, inl, inr, pos, ret, panic}
use lio.Op.{Op, RawFd}
use lio.Interest.{Interest}
use lio.Syscall.{Kernel}
use lio.Poller.{run_op_on_event, run_op_blocking}
use lio.Poller.Backend.{route, watch}

-- What an event does to an operation: runs it, ends its wait, or finds it unforeseen.
pub data EventKind : Type 0 where
  runs elapses unforeseen : EventKind

abbrev pub event_kind : Op → EventKind
event_kind (Op.read fd buffer) = runs
event_kind (Op.write fd buffer) = runs
event_kind (Op.read_at fd offset buffer) = runs
event_kind (Op.write_at fd offset buffer) = runs
event_kind (Op.send fd flags buffer) = runs
event_kind (Op.recv fd flags buffer) = runs
event_kind (Op.accept fd addr len) = runs
event_kind (Op.connect fd addr len called) = runs
event_kind (Op.timeout duration timer_fd timespec) = elapses
event_kind op = unforeseen

module _ {K : Type 0} (kernel : Kernel K) where
  -- On an event, a buffer operation, an `accept` or a `connect` makes the very system call, with
  -- the same result, that it makes when it is run at once; a timeout is over with result 0 and no
  -- call; every other operation makes the backend panic.
  pub run_op_on_event-run_op_blocking :
      (op : Op) (k : K)
      → run_op_on_event kernel op k ≡ elim (event_kind op) [
        | runs ↦ ret (run_op_blocking kernel op k)
        | elapses ↦ ret (pos 0, k)
        | unforeseen ↦ panic
      ]
  unfolding run_op_on_event run_op_blocking
  run_op_on_event-run_op_blocking (Op.read fd buffer) k = refl
  run_op_on_event-run_op_blocking _ k = refl

-- Of the operations that `push` registers with the poller directly, an event can run all but `tee`.
pub watched_can_run :
    (op : Op) (fd : RawFd) (interest : Interest)
    → route op ≡ watch fd interest
    → (event_kind op ≡ runs)
      ⊎ ((fd_in fd_out : RawFd) × (size : ℕ) × (op ≡ Op.tee fd_in fd_out size)
          × (event_kind op ≡ unforeseen))
unfolding route
watched_can_run (Op.send fd' flags buffer) fd interest e = inl refl
watched_can_run (Op.recv fd' flags buffer) fd interest e = inl refl
watched_can_run (Op.accept fd' addr len) fd interest e = inl refl
watched_can_run (Op.tee fd_in fd_out size) fd interest e = inr (fd_in, fd_out, size, refl, refl)
watched_can_run _ fd interest e = cc
