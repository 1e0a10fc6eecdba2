-- ===== src/Driver.antt =====
-- lio/src/lio.rs: the driver, which joins the store and a backend.
-- The `Rc<RefCell<…>>` is the state passed along; the thread's global driver is not modelled. A
-- method returns its result, the new driver and the notifications made, in order.
pub mod Schedule
pub mod Notify
pub mod RunInner
pub mod CheckDone
pub mod Delivery
pub mod Batches
pub mod Safety
pub mod Readers
pub mod Calls
use lio.Base.{
  ℕ, Bool, true, false, Option, none, some, List, [], ◌∷◌, ◌++◌, if◌then◌else◌, length, ℤ, Outcome,
  ret, panic, ◌>>=◌, expect, IoError, IoResult, ok, err,
}
use lio.Op.{Op, OpCompleted, IoBackend, Duration}
use lio.Store
use lio.Store.{OpStore}
use lio.Registration.{Registration, Effect, set_waker, set_done, try_take_result, result_consumed}

pub record Lio (W C B : Type 0) : Type 0 where
  pub store : OpStore (Registration W C)
  pub io : B

-- `lio::Error`, with the result of `check_done`.
pub data Checked : Type 0 where
  result : ℤ → Checked
  entry_not_found entry_not_completed : Checked

-- `assert!`.
abbrev pub assert : Bool → Outcome (Unit {0})
assert true = ret tt
assert false = panic

module _ {W C : Type 0} where
  -- The loop over the completions: the store, the keys to remove, and the notifications.
  unfoldable pub notify_all :
      OpStore (Registration W C)
      → List OpCompleted
      → Outcome (OpStore (Registration W C) × List ℕ × List (Effect W C))
  notify_all s [] = ret (s, [], [])
  notify_all s (c ∷ cs) = elim (Store.get s c.op_id) [
    | none ↦ panic
    | some op ↦ elim (set_done op c.result) [
      | panic ↦ panic
      | ret (op', told) ↦ elim (notify_all (Store.put s c.op_id op') cs) [
        | panic ↦ panic
        | ret (s', to_remove, later) ↦
            ret
              (s', (if result_consumed op' then c.op_id ∷ to_remove else to_remove), told ++ later)
      ]
    ]
  ]

  -- The loop over the consumed keys.
  unfoldable pub remove_all :
      OpStore (Registration W C) → List ℕ → Outcome (OpStore (Registration W C))
  remove_all s [] = ret s
  remove_all s (id ∷ ids) = elim (Store.remove s id) [
    | panic ↦ panic
    | ret (_, s') ↦ remove_all s' ids
  ]

module _ {W C B : Type 0} where
  -- What `run_inner` does with the completions that the backend has handed over.
  unfoldable pub deliver :
      Lio W C B → List OpCompleted → Outcome (IoResult ℕ × Lio W C B × List (Effect W C))
  unfolding notify_all remove_all
  deliver lio completed = notify_all lio.store completed >>= λ told.
      remove_all told.0 told.1 >>= λ store.
      ret (ok (length completed), record lio { store = store }, told.2)

module _ {W C B : Type 0} (backend : IoBackend B) where
  unfoldable pub new_with_backend : B → ℕ → Outcome (IoResult (Lio W C B))
  new_with_backend b cap = backend.init cap b >>= λ started. elim started.0 [
    | err e ↦ ret (err e)
    | ok _ ↦ ret (ok (record { store = Store.with_capacity _ cap; io = started.1 }))
  ]

  unfoldable pub schedule : Lio W C B → Op → Registration W C → Outcome (IoResult ℕ × Lio W C B)
  schedule lio op notifier = Store.insert lio.store notifier >>= λ made.
      backend.push made.0 op lio.io >>= λ pushed. elim pushed.0 [
        | ok _ ↦ ret (ok made.0, record { store = made.1; io = pushed.1 })
        | err e ↦ Store.remove made.1 made.0 >>= λ undone.
            assert undone.0 >>= λ _. ret (err e, record { store = undone.1; io = pushed.1 })
      ]

  unfoldable pub run_inner :
      Lio W C B → Option Duration → Outcome (IoResult ℕ × Lio W C B × List (Effect W C))
  unfolding deliver
  run_inner lio timeout = backend.flush lio.io >>= λ flushed. elim flushed.0 [
    | err e ↦ ret (err e, record lio { io = flushed.1 }, [])
    | ok _ ↦ backend.wait_timeout timeout flushed.1 >>= λ waited. elim waited.0 [
      | err e ↦ ret (err e, record lio { io = waited.1 }, [])
      | ok completed ↦ deliver (record lio { io = waited.1 }) completed
    ]
  ]

  unfoldable pub try_run : Lio W C B → Outcome (IoResult ℕ × Lio W C B × List (Effect W C))
  unfolding run_inner
  try_run lio = run_inner lio (some (record { secs = 0; nanos = 0 }))

  unfoldable pub run : Lio W C B → Outcome (IoResult ℕ × Lio W C B × List (Effect W C))
  unfolding run_inner
  run lio = run_inner lio none

  unfoldable pub run_timeout :
      Lio W C B → Duration → Outcome (IoResult ℕ × Lio W C B × List (Effect W C))
  unfolding run_inner
  run_timeout lio timeout = run_inner lio (some timeout)

module _ {W C B : Type 0} where
  unfoldable pub check_done : Lio W C B → ℕ → Outcome (Checked × Lio W C B)
  check_done lio key = elim (Store.get lio.store key) [
    | none ↦ ret (entry_not_found, lio)
    | some entry ↦ try_take_result entry >>= λ taken. elim taken.0 [
      | none ↦ ret (entry_not_completed, record lio { store = Store.put lio.store key taken.1 })
      | some r ↦ Store.remove (Store.put lio.store key taken.1) key >>= λ undone.
          assert undone.0 >>= λ _. ret (result r, record lio { store = undone.1 })
    ]
  ]

  -- `Lio::set_waker`.
  unfoldable pub set_entry_waker : Lio W C B → ℕ → W → Outcome (Lio W C B × List (Effect W C))
  set_entry_waker lio id w = elim (Store.get lio.store id) [
    | none ↦ ret (lio, [])
    | some entry ↦ set_waker entry w >>= λ after.
        ret (record lio { store = Store.put lio.store id after.0 }, after.1)
  ]
