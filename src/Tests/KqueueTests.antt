-- ===== src/Tests/KqueueTests.antt =====
-- Descriptor 3 on a kqueue whose kernel accepts changes in even worlds and refuses them in odd ones.
use lio.Base.{
  ℕ, ◌≡◌, refl, true, ◌||◌, some, [], ◌∷◌, ◌==◌, ◌+◌, ◌%◌, pos, neg, ret, os, IoResult, ok, err,
  if◌then◌else◌,
}
use lio.Base.Assoc.{lookup, remove, insert}
use lio.Op.{Op, same_fd}
use lio.Interest
use lio.Syscall.{Kernel}
use lio.Syscall
use lio.Poller.{Poller, run_op_blocking}
use lio.Poller.Backend.{push}
use lio.Poller.Consistency.{IsConsistent}
use lio.Poller.Kqueue.{
  OsPoller, KqueueKernel, eexist, contains, add, delete, submit_changes, kqueue,
}
use lio.Poller.Kqueue
use lio.Poller.Kqueue.Registered.{delete-add, second_operation_fails}

abbrev answers : ℕ → IoResult (Unit {0})
answers k = if k % 2 == 0 then ok tt else err (os 9)

abbrev events : KqueueKernel ℕ
events = record {
  kqueue = λ k. (ok tt, k);
  set_cloexec = λ k. (ok tt, k);
  new_notify = λ k. (ok tt, k);
  register = λ k. (ok tt, k);
  change = λ cs k. (answers k, k + 2);
  change_with_room = λ cs k. (ok (some 9 ∷ []), k);
  events = λ room timeout k. (ok [], k);
}

abbrev busy : OsPoller
busy = record { fds = pos 4 ∷ []; timers = [] }

delete-add_example :
    (p₁ p₂ p₃ : OsPoller) × (r : IoResult (Unit {0})) × (k₂ : ℕ) × (add events
        (pos 3)
        7
        Interest.read
        (busy, 0)
      ≡ (ok tt, (p₁, 2)))
    × (contains same_fd (pos 4) p₁.fds
        ≡ (same_fd (pos 3) (pos 4) || contains same_fd (pos 4) busy.fds))
    × (add events (pos 3) 7 Interest.read (p₁, 2) ≡ (err (os eexist), (p₁, 2)))
    × (delete events (pos 3) (p₁, 2) ≡ (r, (p₂, k₂)))
    × (contains same_fd (pos 4) p₂.fds ≡ contains same_fd (pos 4) busy.fds)
    × (delete events (pos 3) (p₂, k₂) ≡ (err (os Syscall.enoent), (p₂, k₂)))
    × (add events (pos 3) 7 Interest.read (busy, 1) ≡ (err (os 9), (p₃, 3)))
    × (contains same_fd (pos 4) p₃.fds ≡ contains same_fd (pos 4) busy.fds)
unfolding Kqueue.change_interests_batched Interest.is_timer Interest.is_readable
delete-add_example =
    delete-add events (pos 3) (pos 4) 7 Interest.read busy 0 1 2 3 (os 9) refl refl refl refl

-- A kernel in which every call succeeds.
abbrev five_bytes : Kernel (OsPoller × ℕ)
five_bytes call w = (pos 5, 0, w)

abbrev started : Poller
started = record {
  sys = true;
  fd_map = some [];
  op_map = [];
  events = 8;
  immediate = [];
  completed = [];
}

started-IsConsistent : IsConsistent started
unfolding lookup
started-IsConsistent = record { started = refl; fds = []; has = refl; agree = λ j. refl }

abbrev a_recv : Op
a_recv = Op.recv (pos 4) (pos 0) (record { ptr = 64; len = 16 })

second_operation_fails_example :
    (p' : Poller) × (push five_bytes (kqueue events) 5 a_recv (started, (busy, 0))
      ≡ ret (ok tt, (p', (busy, 0))))
    × (p'.immediate ≡ (5, neg eexist) ∷ [])
    × (p'.op_map ≡ remove 5 (insert 5 a_recv []))
unfolding run_op_blocking lio.Poller.Backend.route
second_operation_fails_example =
    second_operation_fails five_bytes events started busy 0 (busy, 0) 5 a_recv (pos 4) Interest.read
      (pos 5) started-IsConsistent refl refl refl
