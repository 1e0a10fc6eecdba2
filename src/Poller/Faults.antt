-- ===== src/Poller/Faults.antt =====
-- Where the readiness backend panics or forgets: a connection in progress, a `tee` that becomes
-- ready, and a poller that fails while completions are queued.
use lio.Base.{
  ℕ, Bool, false, ◌≡◌, ◌≢◌, refl, ◌∙◌, Option, none, some, [], ◌∷◌, ℤ, neg, ret, panic, arith, ◌≤◌,
  ==_refl, ≢→==, IoError, ok, err,
}
use lio.Base.Assoc.{lookup, insert, remove, lookup-remove}
use lio.Op.{Op, RawFd, Duration}
use lio.Interest
use lio.Interest.{Interest}
use lio.Store.{notify_key}
use lio.Syscall.{Kernel, einprogress}
use lio.Poller
use lio.Poller.{Poller, Event, ReadinessPoll, iter, run_op_on_event, run_op_blocking}
use lio.Poller.Backend.{push, process, process_all, wait_timeout, drained}
use lio.Poller.RunOp.{run_op_on_event-run_op_blocking}
use lio.Poller.Consistency.{IsConsistent, lookup-undo, lookup-new}

module _ {K : Type 0} (kernel : Kernel K) (poll : ReadinessPoll K) (id : ℕ) (p : Poller)
    (k k₁ k₂ : K) (v : IsConsistent p) (named : id ≢ notify_key) where
  -- A `connect` that is in progress is accepted and its descriptor registered, but its operation
  -- is gone from the map: the event that reports the connection makes the backend panic.
  pub connect_in_progress_panics :
      (fd : RawFd) (addr len : ℕ) (called : Bool) (interest : Interest) (k₃ : K)
      → run_op_blocking kernel (Op.connect fd addr len called) k ≡ (neg einprogress, k₁)
      → poll.add fd id Interest.write k₁ ≡ (ok tt, k₂)
      → (p' : Poller) × (push kernel poll id (Op.connect fd addr len called) (p, k)
          ≡ ret (ok tt, (p', k₂)))
        × (process kernel poll (record { key = id; interest = interest }) (p', k₃) ≡ panic)
  unfolding push process
  connect_in_progress_panics fd addr len called interest k₃ ran added = (
    record p {
      op_map = remove id (insert id (Op.connect fd addr len called) p.op_map);
      fd_map = some (insert id fd v.fds);
    },
    ground (arith, v.has, v.started, ran, added),
    ground (
      arith,
      ≢→== id notify_key named,
      lookup-new id fd v.fds,
      lookup-undo id (Op.connect fd addr len called) p.op_map,
    ),
  )

  -- A `tee` is registered with the poller, and the event that reports it ready makes the backend
  -- panic.
  pub tee_ready_panics :
      (fd_in fd_out : RawFd) (size : ℕ) (interest : Interest) (k₃ : K)
      → poll.add fd_in id Interest.read_and_write k ≡ (ok tt, k₁)
      → (p' : Poller) × (push kernel poll id (Op.tee fd_in fd_out size) (p, k)
          ≡ ret (ok tt, (p', k₁)))
        × (process kernel poll (record { key = id; interest = interest }) (p', k₃) ≡ panic)
  unfolding push process
  tee_ready_panics fd_in fd_out size interest k₃ added = (
    record p {
      op_map = insert id (Op.tee fd_in fd_out size) p.op_map;
      fd_map = some (insert id fd_in v.fds);
    },
    ground (arith, v.has, v.started, added),
    ground (
      arith,
      ≢→== id notify_key named,
      lookup-new id fd_in v.fds,
      lookup-new id (Op.tee fd_in fd_out size) p.op_map,
      run_op_on_event-run_op_blocking kernel (Op.tee fd_in fd_out size) k₃,
    ),
  )

  -- When the event of a finished operation cannot be deregistered, `wait_timeout` returns the
  -- poller's error although completions were queued: they are not returned, the queue is empty
  -- afterwards, and the operation is forgotten without a completion.
  deregistration_failure_loses_completions :
      (timeout : Option Duration) (interest : Interest) (op : Op) (fd : RawFd) (r : ℤ) (k₃ : K)
      (e : IoError)
      → poll.wait p.events timeout k ≡ (ok (record { key = id; interest = interest } ∷ []), k₁)
      → 1 ≤ p.events
      → lookup id v.fds ≡ some fd
      → lookup id p.op_map ≡ some op
      → run_op_on_event kernel op k₁ ≡ ret (r, k₂)
      → Poller.would_block r ≡ false
      → Interest.is_timer interest ≡ false
      → poll.delete fd k₂ ≡ (err e, k₃)
      → (p' : Poller) × (wait_timeout kernel poll timeout (p, k) ≡ ret (err e, (p', k₃)))
        × (p'.immediate ≡ [])
        × (lookup id p'.op_map ≡ none)
  unfolding wait_timeout process_all process iter
  deregistration_failure_loses_completions timeout interest op fd r k₃ e w fits has found ran over
        fdkind del =
      (
        record (drained p) { op_map = remove id p.op_map },
        ground (
          arith,
          v.has,
          v.started,
          w,
          has,
          found,
          ran,
          over,
          fdkind,
          del,
          ≢→== id notify_key named,
        ),
        refl,
        lookup-remove id id p.op_map ∙ rw (==_refl id),
      )
