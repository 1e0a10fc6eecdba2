-- ===== src/Dummy.antt =====
-- lio/src/backends/impls/dummy.rs: the backend that completes every operation with result 0.
pub mod Drained
pub mod Lawful
use lio.Base.{
  ℕ, Bool, true, false, List, [], ◌∷◌, ◌++◌, map, if◌then◌else◌, ℤ, pos, Outcome, ret, panic,
  Option, IoResult, ok,
}
use lio.Op.{Op, OpCompleted, Duration, IoBackend}

pub record DummyBackend : Type 0 where
  pub pending : List ℕ
  pub completed : List OpCompleted
  pub initialized : Bool

unfoldable pub new : DummyBackend
new = record { pending = []; completed = []; initialized = false }

unfoldable pub init : ℕ → DummyBackend → Outcome (IoResult (Unit {0}) × DummyBackend)
init entries b = ret (ok tt, record { pending = []; completed = []; initialized = true })

unfoldable pub push : ℕ → Op → DummyBackend → Outcome (IoResult (Unit {0}) × DummyBackend)
push id op b =
    if b.initialized then ret (ok tt, record b { pending = b.pending ++ id ∷ [] }) else panic

unfoldable pub flush : DummyBackend → Outcome (IoResult ℕ × DummyBackend)
flush b = ret (ok 0, b)

abbrev pub succeeded : ℕ → OpCompleted
succeeded id = record { op_id = id; result = pos 0 }

unfoldable pub wait_timeout :
    Option Duration → DummyBackend → Outcome (IoResult (List OpCompleted) × DummyBackend)
wait_timeout timeout b =
    ret
      (ok (map succeeded b.pending), record b { pending = []; completed = map succeeded b.pending })

unfoldable pub backend : IoBackend DummyBackend
unfolding init push flush wait_timeout
backend = record { init = init; push = push; flush = flush; wait_timeout = wait_timeout }
