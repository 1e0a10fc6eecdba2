-- ===== src/Tests/IoTests.antt =====
-- A typed operation that hands its number on, awaited and sent over the dummy backend.
use lio.Base.{
  ℕ, ◌<◌, ◌^◌, ◌≡◌, refl, none, some, [], ◌∷◌, arith, pos, ℤ, ret, panic, ok, true, get_elem?, zero,
  suc, List, ◌+◌, ◌==◌, if◌then◌else◌,
}
use lio.Op.{Op, OpCompleted}
use lio.Base.{All}
use lio.Contract.{count}
use lio.Store
use lio.Store.{OpStore, with_capacity, get, from_u64, u32_max}
use lio.Store.Invariant.{occupied, with_capacity-IsWf}
use lio.Registration.{Registration, Notifier, Effect, woke, waker, callback}
use lio.Registration
use lio.Driver.{schedule, Lio, run_inner, new_with_backend}
use lio.Driver.Calls.{
  schedules, runs, perform, Reach, created, called, reachable_never_panics, owed_entries_wait,
}
use lio.Dummy
use lio.Dummy.{DummyBackend}
use lio.Tests.DriverTests.{Reg, a_waker, one_waiting, one_waiting-IsWf, one_waiting_young}
use lio.Dummy.Lawful.{IsStarted, owed, dummy-IsBackend, dummy_lem}
use lio.Io.{
  TypedOp, value, inflight, done, ready, not_ready, poll, send_with, call_callback, recv,
  recv_timeout, try_recv,
}
use lio.Io.Awaiting.{poll-run_inner-poll}
use lio.Io.Receiving.{live, spent, waiting, holding, emptied, try_recv_times, send-run_inner-recv}

-- It is a no-op, and adds its number to the result.
abbrev plain : TypedOp ℤ (ℤ × ℤ)
plain = record { into_op = λ t. ret (Op.nop, t); extract_result = λ t r. ret (t, r) }

abbrev pub fresh : DummyBackend
fresh = record { pending = []; completed = []; initialized = true }

abbrev pub started : {C : Type 0} → Lio ℕ C DummyBackend
started = record { store = with_capacity _ 3; io = fresh }

pub new_young :
    {C : Type 0} (i : ℕ) (slot : Store.Slot (Registration ℕ C))
    → get_elem? (with_capacity (Registration ℕ C) 3).slots i ≡ some slot
    → slot.generation < u32_max
unfolding with_capacity
new_young zero slot e = ground arith
new_young (suc zero) slot e = ground arith
new_young (suc (suc zero)) slot e = ground arith
new_young (suc (suc (suc i))) slot e = cc

pub new_room :
    (C : Type 0)
    → occupied (with_capacity (Registration ℕ C) 3).slots
      < (with_capacity (Registration ℕ C) 3).capacity
unfolding with_capacity
new_room C = omega arith

-- A driver just made.
abbrev pub empty : Lio ℕ ℕ DummyBackend
empty = record { store = with_capacity Reg 3; io = fresh }

abbrev one_scheduled : Lio ℕ ℕ DummyBackend
one_scheduled = record { store = one_waiting; io = record fresh { pending = 0 ∷ [] } }

abbrev IsReached : Lio ℕ ℕ DummyBackend → Type 0
IsReached lio = Reach Dummy.backend IsStarted owed (λ b. Unit) (λ op. Unit) dummy-IsBackend lio

empty-IsReached : IsReached empty
unfolding new_with_backend Dummy.backend Dummy.init
empty-IsReached = created Dummy.new 3 empty tt refl

one_scheduled-IsReached : IsReached one_scheduled
unfolding perform schedule Dummy.backend Dummy.push Store.insert Store.try_insert with_capacity
    Store.as_u64
one_scheduled-IsReached =
    called empty one_scheduled (schedules Op.nop a_waker) empty-IsReached
      (tt, record { young = new_young }, new_room ℕ) refl

reachable_never_panics_example :
    (l : Lio ℕ ℕ DummyBackend) × (perform Dummy.backend (runs none) one_scheduled ≡ ret l)
    × IsReached l
reachable_never_panics_example =
    reachable_never_panics Dummy.backend IsStarted owed (λ b. Unit) (λ op. Unit) dummy-IsBackend
      one_scheduled (runs none) one_scheduled-IsReached (record { young = one_waiting_young })

owed_entries_wait_example :
    (owed one_scheduled.io 0 ≡ 1)
    × (0 < 2 ^ 64)
    × (n : Notifier ℕ ℕ) × (get one_waiting 0 ≡ some (Registration.pending n))
owed_entries_wait_example =
    owed_entries_wait Dummy.backend IsStarted owed (λ b. Unit) (λ op. Unit) dummy-IsBackend
      one_scheduled 0 one_scheduled-IsReached (omega arith)

poll-run_inner-poll_example :
    (l₁ l₂ l₃ : Lio ℕ ℕ DummyBackend) × (poll plain Dummy.backend
        (inflight 0 (pos 7))
        5
        one_scheduled
      ≡ ret (not_ready, inflight 0 (pos 7), l₁, []))
    × (run_inner Dummy.backend l₁ none ≡ ret (ok 1, l₂, woke 5 ∷ []))
    × (poll plain Dummy.backend (inflight 0 (pos 7)) 6 l₂
        ≡ ret (ready (pos 7, pos 0), done, l₃, []))
    × (get l₃.store 0 ≡ none)
    × (poll plain Dummy.backend done 6 l₃ ≡ panic)
unfolding Dummy.backend get from_u64
poll-run_inner-poll_example =
    poll-run_inner-poll plain Dummy.backend one_scheduled none one_scheduled.io _ 0 0 (pos 7)
      (pos 0) (pos 7, pos 0) (some 4) 5 6 one_waiting-IsWf (omega arith) (omega arith) refl refl
      refl refl

abbrev seven : ℤ × ℤ
seven = (pos 7, pos 0)

send-run_inner-recv_example :
    (l₁ l₂ : Lio ℕ (ℤ × ℕ) DummyBackend) × (send_with plain Dummy.backend (pos 7) 1 started
      ≡ ret l₁)
    × (try_recv_times 3 live (waiting {R = ℤ × ℤ}) ≡ ret (live, waiting))
    × (run_inner Dummy.backend l₁ none
        ≡ ret (ok 1, l₂, lio.Registration.called (pos 7, 1) (pos 0) ∷ []))
    × (call_callback plain (pos 7) (pos 0) waiting ≡ ret (holding seven))
    × (try_recv live (holding seven) ≡ ret (value seven, spent, emptied))
    × (recv_timeout live waiting (holding seven) ≡ ret (value seven, spent, emptied))
    × (recv live (holding seven) ≡ ret (value seven, spent, emptied))
    × (try_recv spent (emptied {R = ℤ × ℤ}) ≡ panic)
    × (recv_timeout spent (emptied {R = ℤ × ℤ}) emptied ≡ panic)
    × (recv spent (emptied {R = ℤ × ℤ}) ≡ panic)
send-run_inner-recv_example =
    send-run_inner-recv plain started (pos 7) (pos 7) Op.nop seven 1 3 (with_capacity-IsWf 3)
      (record { young = new_young }) (new_room _) refl refl refl refl

dummy_lem_example :
    (b₁ b₂ : DummyBackend) × (cs : List OpCompleted) × (Dummy.push 7 Op.nop fresh ≡ ret (ok tt, b₁))
    × IsStarted b₁
    × ((j : ℕ) → owed b₁ j ≡ owed fresh j + (if 7 == j then 1 else 0))
    × (Dummy.flush b₁ ≡ ret (ok 0, b₁))
    × (Dummy.wait_timeout none b₁ ≡ ret (ok cs, b₂))
    × IsStarted b₂
    × ((j : ℕ) → count j cs ≡ owed b₁ j)
    × All (λ c. c.result ≡ pos 0) cs
    × ((j : ℕ) → owed b₂ j ≡ 0)
dummy_lem_example = dummy_lem 7 Op.nop none fresh refl
