-- ===== src/Tests/DriverTests.antt =====
-- A driver over the dummy backend, with a waker under key 0 and a callback under key 1.
use lio.Base.{
  ℕ, zero, suc, ◌<◌, ◌^◌, ◌≡◌, refl, true, none, some, List, [], ◌∷◌, arith, get_elem?, ◌==◌,
  if◌then◌else◌, Outcome, ret, ◌>>=◌, pos, ok,
}
use lio.Op.{Op, OpCompleted}
use lio.Store
use lio.Store.{OpStore, with_capacity, try_insert, get, u32_max, as_u64, from_u64}
use lio.Store.Invariant.{IsWf}
use lio.Store.Steps.{here, next, inserts}
use lio.Store.Lifetime.{Reach-with_capacity-IsWf}
use lio.Registration.{
  Registration, Notifier, Effect, pending, done, waker, callback, woke, called, set_done, set_waker,
  try_take_result, replace_waker,
}
use lio.Driver.{Lio, Checked, result, entry_not_found, run_inner, check_done}
use lio.Driver.Notify.{Ready}
use lio.Driver.RunInner.{run_inner_lem}
use lio.Driver.CheckDone.{check_done-result}
use lio.Driver.Schedule.{Scheduled, schedule_lem}
use lio.Dummy
use lio.Dummy.{DummyBackend}

abbrev pub Reg : Type 0
Reg = Registration ℕ ℕ

abbrev pub a_waker : Notifier ℕ ℕ
a_waker = waker (some 4)

abbrev pub a_callback : Notifier ℕ ℕ
a_callback = callback 9

abbrev pub vacant_slot : Store.Slot Reg
vacant_slot = record { generation = 0; entry = none }

abbrev pub holding : Reg → Store.Slot Reg
holding reg = record { generation = 0; entry = some reg }

abbrev pub one_waiting : OpStore Reg
one_waiting = record {
  slots = holding (pending a_waker) ∷ vacant_slot ∷ vacant_slot ∷ [];
  free_list = [];
  next_slot = 1;
  capacity = 3;
}

abbrev two_waiting : OpStore Reg
two_waiting = record {
  slots = holding (pending a_waker) ∷ holding (pending a_callback) ∷ vacant_slot ∷ [];
  free_list = [];
  next_slot = 2;
  capacity = 3;
}

abbrev pub one_done : OpStore Reg
one_done = record one_waiting {
  slots = holding (done (some (pos 5))) ∷ vacant_slot ∷ vacant_slot ∷ [];
}

first_insert : try_insert (with_capacity Reg 3) (pending a_waker) ≡ ret (some 0, one_waiting)
unfolding try_insert with_capacity as_u64
first_insert = refl

second_insert : try_insert one_waiting (pending a_callback) ≡ ret (some 1, two_waiting)
unfolding try_insert as_u64
second_insert = refl

done_insert : try_insert (with_capacity Reg 3) (done (some (pos 5))) ≡ ret (some 0, one_done)
unfolding try_insert with_capacity as_u64
done_insert = refl

pub one_waiting-IsWf : IsWf one_waiting
one_waiting-IsWf = Reach-with_capacity-IsWf 3 one_waiting (next here (inserts _ _ first_insert))

two_waiting-IsWf : IsWf two_waiting
two_waiting-IsWf =
    Reach-with_capacity-IsWf 3 two_waiting
      (next (next here (inserts _ _ first_insert)) (inserts _ _ second_insert))

one_done-IsWf : IsWf one_done
one_done-IsWf = Reach-with_capacity-IsWf 3 one_done (next here (inserts _ _ done_insert))

abbrev dummy : DummyBackend
dummy = record { pending = 0 ∷ 1 ∷ []; completed = []; initialized = true }

abbrev dummy_after : DummyBackend
dummy_after = record {
  pending = [];
  completed = Dummy.succeeded 0 ∷ Dummy.succeeded 1 ∷ [];
  initialized = true;
}

abbrev both : List OpCompleted
both = Dummy.succeeded 0 ∷ Dummy.succeeded 1 ∷ []

abbrev driver : OpStore Reg → Lio ℕ ℕ DummyBackend
driver s = record { store = s; io = dummy }

both-Ready : Ready two_waiting both (a_waker ∷ a_callback ∷ [])
unfolding get from_u64
both-Ready = (omega arith, refl, (omega arith, tt), (omega arith, refl, tt, tt))

run_inner_lem_example :
    (s : OpStore Reg) × (run_inner Dummy.backend (driver two_waiting) none
      ≡ ret (ok 2, record { store = s; io = dummy_after }, woke 4 ∷ called 9 (pos 0) ∷ []))
    × IsWf s
    × (get s 1 ≡ none)
unfolding Dummy.backend from_u64
run_inner_lem_example =
    run_inner_lem Dummy.backend (driver two_waiting) none dummy dummy_after 0 both
      (a_waker ∷ a_callback ∷ []) 1 refl refl two_waiting-IsWf both-Ready (omega arith)
      (omega arith)

-- The callback is told, its entry removed, and the waker's result can be fetched once.
abbrev two_reads : Outcome (Checked × Checked)
two_reads = run_inner Dummy.backend (driver two_waiting) none >>= λ after.
    check_done after.1 0 >>= λ first. check_done first.1 0 >>= λ second. ret (first.0, second.0)

two_reads_lem : two_reads ≡ ret (result (pos 0), entry_not_found)
unfolding run_inner Dummy.backend check_done get from_u64 Store.put Store.remove set_done
    try_take_result lio.Registration.result_consumed
two_reads_lem = refl

-- The backend reports key 1 first, which is not live.
abbrev stray : Lio ℕ ℕ DummyBackend
stray = record { store = one_waiting; io = record dummy { pending = 1 ∷ 0 ∷ [] } }

check_done-result_example :
    (s : OpStore Reg) × (check_done (driver one_done) 0 ≡ ret (result (pos 5), driver s))
    × IsWf s
    × (check_done (driver s) 0 ≡ ret (entry_not_found, driver s))
    × (get s 1 ≡ (if 0 == 1 then none else get one_done 1))
unfolding get from_u64
check_done-result_example =
    check_done-result (driver one_done) 0 1 one_done-IsWf (omega arith) (omega arith) (omega arith)
      refl

pub one_waiting_young :
    (i : ℕ) (slot : Store.Slot Reg)
    → get_elem? one_waiting.slots i ≡ some slot
    → slot.generation < u32_max
one_waiting_young zero slot e = ground arith
one_waiting_young (suc zero) slot e = ground arith
one_waiting_young (suc (suc zero)) slot e = ground arith
one_waiting_young (suc (suc (suc i))) slot e = cc

schedule_lem_example :
    (id : ℕ) × (id < 2 ^ 64)
    × (get one_waiting id ≡ none)
    × Scheduled Dummy.backend (driver one_waiting) Op.nop (pending a_callback) 0 id
schedule_lem_example =
    schedule_lem Dummy.backend (driver one_waiting) Op.nop (pending a_callback) 0 one_waiting-IsWf
      (record { young = one_waiting_young }) (omega arith) (omega arith)

-- A driver whose backend holds nothing.
abbrev at_rest : Lio ℕ ℕ DummyBackend
at_rest = record {
  store = one_waiting;
  io = record { pending = []; completed = []; initialized = true };
}
