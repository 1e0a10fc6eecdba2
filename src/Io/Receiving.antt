-- ===== src/Io/Receiving.antt =====
-- `Io::send` and the `Receiver` that it returns: a result is received once, however often it is
-- asked for before.
use lio.Base.{
  ℕ, suc, zero, ◌<◌, ◌≡◌, refl, true, false, none, [], ◌∷◌, pos, Outcome, ret, panic, ◌>>=◌, ok,
}
use lio.Op.{Op}
use lio.Dummy
use lio.Dummy.{DummyBackend}
use lio.Store.Invariant.{IsWf, occupied}
use lio.Registration.{callback, called, new_callback}
use lio.Driver.{Lio, run_inner}
use lio.Driver.Schedule.{IsYoungStore}
use lio.Driver.Delivery.{schedule-run_inner}
use lio.Io.{
  TypedOp, Channel, value, Receiver, send_with, call_callback, recv, recv_timeout, try_recv,
}

-- The receiver that `send` returns, and what is left of it after a result.
abbrev pub live : Receiver
live = record { recv = true }

abbrev pub spent : Receiver
spent = record { recv = false }

module _ {R : Type 0} where
  -- `channel()`, before and after the callback, and once the result is taken.
  abbrev pub waiting : Channel R
  waiting = record { queue = []; connected = true }

  abbrev pub holding : R → Channel R
  holding out = record { queue = out ∷ []; connected = false }

  abbrev pub emptied : Channel R
  emptied = record { queue = []; connected = false }

  -- Asking `n` times without waiting.
  pub try_recv_times : ℕ → Receiver → Channel R → Outcome (Receiver × Channel R)
  unfolding try_recv
  try_recv_times zero r ch = ret (r, ch)
  try_recv_times (suc n) r ch = try_recv r ch >>= λ got. try_recv_times n got.1 got.2

  waits_on : (n : ℕ) → try_recv_times n live waiting ≡ ret (live, waiting)
  unfolding try_recv_times try_recv
  waits_on zero = refl
  waits_on (suc n) = waits_on n

module _ {T R W : Type 0} (typed : TypedOp T R) where
  -- An operation that is sent over an initialised dummy backend with nothing pending, through a
  -- well-formed, young store with room: however often the receiver is asked before, it has nothing
  -- and stays as it is. The next round calls back, which puts the result into the channel, and each
  -- of the three ways to receive then returns it and leaves a receiver with which any of them panics.
  pub send-run_inner-recv :
      (lio : Lio W (T × ℕ) DummyBackend) (t t' : T) (op : Op) (out : R) (sender n : ℕ)
      → IsWf lio.store
      → IsYoungStore lio.store
      → occupied lio.store.slots < lio.store.capacity
      → lio.io.initialized ≡ true
      → lio.io.pending ≡ []
      → typed.into_op t ≡ ret (op, t')
      → typed.extract_result t' (pos 0) ≡ ret out
      → (l₁ l₂ : Lio W (T × ℕ) DummyBackend) × (send_with typed Dummy.backend t sender lio ≡ ret l₁)
        × (try_recv_times n live (waiting {R = R}) ≡ ret (live, waiting))
        × (run_inner Dummy.backend l₁ none ≡ ret (ok 1, l₂, called (t', sender) (pos 0) ∷ []))
        × (call_callback typed t' (pos 0) waiting ≡ ret (holding out))
        × (try_recv live (holding out) ≡ ret (value out, spent, emptied))
        × (recv_timeout live waiting (holding out) ≡ ret (value out, spent, emptied))
        × (recv live (holding out) ≡ ret (value out, spent, emptied))
        × (try_recv spent (emptied {R = R}) ≡ panic)
        × (recv_timeout spent (emptied {R = R}) emptied ≡ panic)
        × (recv spent (emptied {R = R}) ≡ panic)
  unfolding send_with new_callback call_callback recv recv_timeout try_recv
  send-run_inner-recv lio t t' op out sender n v y room started idle made extracted =
      let (id, l₁, l₂, run, round, _, _) =
        schedule-run_inner lio op (callback (t', sender)) v y room started idle in
      (
        l₁,
        l₂,
        rw (made, send_with) (rw (run, send_with, new_callback) refl),
        waits_on n,
        round,
        rw (extracted, call_callback) refl,
        refl,
        refl,
        refl,
        refl,
        refl,
        refl,
      )
