-- ===== src/Driver/Calls.antt =====
-- What a program does with its driver, call by call, over any backend that keeps the contract.
use lio.Base.{
  ℕ, ◌<◌, ◌≤◌, ◌^◌, ◌≡◌, ◌≢◌, refl, subst, Option, none, some, List, [], ◌∷◌, arith, Outcome, ret,
  ◌>>=◌, ok,
}
use lio.Op.{Op, IoBackend, Duration}
use lio.Contract.{IsBackend, starts, stops}
use lio.Store
use lio.Store.{OpStore}
use lio.Store.Invariant.{IsWf, occupied, with_capacity-IsWf}
use lio.Store.Handles.{with_capacity-get}
use lio.Registration.{Notifier, Registration, pending, done}
use lio.Driver.{Lio, new_with_backend, schedule, run_inner, check_done, set_entry_waker}
use lio.Driver.Schedule.{IsYoungStore}
use lio.Driver.Safety.{IsRunning, schedule-IsRunning, run_inner-IsRunning}
use lio.Driver.Readers.{check_done-IsRunning, set_entry_waker-IsRunning}

pub data Call (W C : Type 0) : Type 0 where
  schedules : Op → Notifier W C → Call W C
  runs : Option Duration → Call W C
  reads : ℕ → Call W C
  rewakes : ℕ → W → Call W C

module _ {W C B : Type 0} (backend : IoBackend B) where
  -- The driver after a call.
  unfoldable pub perform : Call W C → Lio W C B → Outcome (Lio W C B)
  unfolding schedule run_inner check_done set_entry_waker
  perform (schedules op n) lio = schedule backend lio op (pending n) >>= λ r. ret r.1
  perform (runs timeout) lio = run_inner backend lio timeout >>= λ r. ret r.1
  perform (reads key) lio = check_done lio key >>= λ r. ret r.1
  perform (rewakes key w) lio = set_entry_waker lio key w >>= λ r. ret r.0

  pub perform_all : List (Call W C) → Lio W C B → Outcome (Lio W C B)
  unfolding perform
  perform_all [] lio = ret lio
  perform_all (c ∷ cs) lio = perform c lio >>= λ l. perform_all cs l

module _ {W C B : Type 0} (Allowed : Op → Type 0) where
  -- What a call needs: room for a new entry, no slot at its last generation, and keys of 64 bits.
  abbrev pub CanCall : Lio W C B → Call W C → Type 0
  CanCall lio (schedules op n) =
      Allowed op × IsYoungStore lio.store × (occupied lio.store.slots < lio.store.capacity)
  CanCall lio (runs timeout) = IsYoungStore lio.store
  CanCall lio (reads key) = IsYoungStore lio.store × (key < 2 ^ 64)
  CanCall lio (rewakes key w) = key < 2 ^ 64

module _ {W C B : Type 0} (backend : IoBackend B) (Good : B → Type 0) (held : B → ℕ → ℕ)
    (Fresh : B → Type 0) (Allowed : Op → Type 0)
    (contract : IsBackend backend Good held Fresh Allowed) where
  -- The drivers that a program can have.
  pub data Reach : Lio W C B → Type 0 where
    created :
        (b : B) (cap : ℕ) (lio : Lio W C B)
        → Fresh b
        → new_with_backend backend b cap ≡ ret (ok lio)
        → Reach lio
    called :
        (lio l : Lio W C B) (c : Call W C)
        → Reach lio
        → CanCall Allowed lio c
        → perform backend c lio ≡ ret l
        → Reach l

  new_with_backend-IsRunning :
      (b : B) (cap : ℕ) (lio : Lio W C B)
      → Fresh b
      → new_with_backend backend b cap ≡ ret (ok lio)
      → IsRunning Good held lio
  unfolding new_with_backend
  new_with_backend-IsRunning b cap lio fresh e = elim (contract.inits cap b fresh) [
    | stops x b' run ↦ absurd (ground (arith, run, e))
    | starts b' run g nothing ↦
        let is : lio ≡ record { store = Store.with_capacity _ cap; io = b' } =
          ground (arith, run, e) in
        rw is (record {
          valid = with_capacity-IsWf cap;
          good = g;
          once = λ j. omega (arith, nothing j);
          matched = λ j owed. absurd (omega (arith, owed, nothing j));
          unread = λ j fits q.
              absurd (ground (arith, q, with_capacity-get {A = Registration W C} cap j));
        })
  ]

  perform-IsRunning :
      (lio : Lio W C B) (c : Call W C)
      → IsRunning Good held lio
      → CanCall Allowed lio c
      → (l : Lio W C B) × (perform backend c lio ≡ ret l) × IsRunning Good held l
  unfolding perform
  perform-IsRunning lio (schedules op n) r can =
      let (x, l, run, r') =
        schedule-IsRunning backend Good held Fresh Allowed contract lio op n r can.0 can.1 can.2 in
      (l, rw run refl, r')
  perform-IsRunning lio (runs timeout) r can =
      let (x, l, told, run, r') =
        run_inner-IsRunning backend Good held Fresh Allowed contract lio timeout r can in
      (l, rw run refl, r')
  perform-IsRunning lio (reads key) r can =
      let (x, l, run, r') =
        check_done-IsRunning backend Good held Fresh Allowed contract lio key r can.0 can.1 in
      (l, rw run refl, r')
  perform-IsRunning lio (rewakes key w) r can =
      let (l, told, run, r') =
        set_entry_waker-IsRunning backend Good held Fresh Allowed contract lio key w r can in
      (l, rw run refl, r')

  Reach-IsRunning : (lio : Lio W C B) → Reach lio → IsRunning Good held lio
  Reach-IsRunning lio (created b n _ fresh e) = new_with_backend-IsRunning b n lio fresh e
  Reach-IsRunning _ (called lio l c h can e) =
      let (l', run, r) = perform-IsRunning lio c (Reach-IsRunning lio h) can in
      let same : l' ≡ l = ground (arith, run, e) in subst (IsRunning Good held) same r

  -- Over a backend that keeps the contract, a driver that has come through any calls never panics
  -- in the next one, as long as the store has room for what is scheduled and no slot has used up
  -- its generations.
  pub reachable_never_panics :
      (lio : Lio W C B) (c : Call W C)
      → Reach lio
      → CanCall Allowed lio c
      → (l : Lio W C B) × (perform backend c lio ≡ ret l) × Reach l
  reachable_never_panics lio c h can =
      let (l, run, _) = perform-IsRunning lio c (Reach-IsRunning lio h) can in
      (l, run, called lio l c h can run)

  -- In every driver that a program can have, the store is well formed and no entry is left without
  -- its result.
  pub reachable_entries :
      (lio : Lio W C B) (j : ℕ)
      → Reach lio
      → j < 2 ^ 64
      → IsWf lio.store × (Store.get lio.store j ≢ some (done none))
  reachable_entries lio j h fits = let r = Reach-IsRunning lio h in (r.valid, r.unread j fits)

  -- In every driver that a program can have, a completion that the backend still owes is owed once,
  -- and its entry is waiting for it.
  pub owed_entries_wait :
      (lio : Lio W C B) (j : ℕ)
      → Reach lio
      → 1 ≤ held lio.io j
      → (held lio.io j ≡ 1)
        × (j < 2 ^ 64)
        × (n : Notifier W C) × (Store.get lio.store j ≡ some (pending n))
  owed_entries_wait lio j h owed =
      let r = Reach-IsRunning lio h in
      let (fits, n, live) = r.matched j owed in (omega (arith, owed, r.once j), fits, n, live)
