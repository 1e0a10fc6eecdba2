-- ===== src/Driver/Delivery.antt =====
-- From `schedule` to the notification: the driver over `DummyBackend`.
use lio.Base.{
  ℕ, ◌<◌, ◌^◌, ◌≡◌, refl, ap, Option, true, none, some, [], ◌∷◌, arith, pos, ret, ok, ==_refl,
  append-nil, ◌∙◌,
}
use lio.Op.{Op}
use lio.Dummy
use lio.Dummy.{DummyBackend, succeeded}
use lio.Store
use lio.Store.Invariant.{IsWf, occupied}
use lio.Registration.{Notifier, Registration, waker, callback, pending, done}
use lio.Registration.Protocol.{told}
use lio.Driver.{Lio, schedule, run_inner}
use lio.Driver.Schedule.{IsYoungStore, accepted, undone, panicked, schedule-cases}
use lio.Driver.RunInner.{run_inner_all, final_at}

module _ {W C : Type 0} where
  -- What a notifier's key reads after its completion with the result 0.
  abbrev pub kept_for : Notifier W C → Option (Registration W C)
  kept_for (waker w) = some (done (some (pos 0)))
  kept_for (callback c) = none

  final_at_self :
      (id : ℕ) (n : Notifier W C) (o : Option (Registration W C))
      → final_at id (succeeded id ∷ []) (n ∷ []) o ≡ kept_for n
  final_at_self id (waker w) o = rw (==_refl id) refl
  final_at_self id (callback c) o = rw (==_refl id) refl

  -- The round, once the operation is the only one that the backend holds.
  run_inner-only :
      (s : Store.OpStore (Registration W C)) (b : DummyBackend) (id : ℕ) (n : Notifier W C)
      → IsWf s
      → id < 2 ^ 64
      → (Store.from_u64 id).generation < Store.u32_max
      → Store.get s id ≡ some (pending n)
      → b.pending ≡ id ∷ []
      → (l : Lio W C DummyBackend) × (run_inner Dummy.backend (record { store = s; io = b }) none
          ≡ ret (ok 1, l, told n (pos 0)))
        × IsWf l.store
        × (Store.get l.store id ≡ kept_for n)
  unfolding Dummy.backend Dummy.flush Dummy.wait_timeout
  run_inner-only s b id n v small young live only =
      let after : DummyBackend = record b { pending = []; completed = succeeded id ∷ [] } in
      let waited : Dummy.backend.wait_timeout none b ≡ ret (ok (succeeded id ∷ []), after) =
        rw only refl in
      let (s', run, v', reads) =
        run_inner_all Dummy.backend (record { store = s; io = b }) none b after 0
          (succeeded id ∷ []) (n ∷ []) refl waited v (small, live, tt, tt) (young, tt) in
      (
        record { store = s'; io = after },
        run
            ∙ ap (λ t. ret (ok 1, record { store = s'; io = after }, t))
                (append-nil (told n (pos 0))),
        v',
        reads id small ∙ final_at_self id n (Store.get s id),
      )

  -- An operation that is scheduled with the dummy backend, initialised and with nothing pending, in
  -- a well-formed and young store with room, is completed by the next round: the driver counts one completion, tells this operation's
  -- notifier and no other, and keeps the result for a waker, while a callback's entry is gone.
  pub schedule-run_inner :
      (lio : Lio W C DummyBackend) (op : Op) (n : Notifier W C)
      → IsWf lio.store
      → IsYoungStore lio.store
      → occupied lio.store.slots < lio.store.capacity
      → lio.io.initialized ≡ true
      → lio.io.pending ≡ []
      → (id : ℕ) × (l₁ l₂ : Lio W C DummyBackend) × (schedule Dummy.backend lio op (pending n)
          ≡ ret (ok id, l₁))
        × (run_inner Dummy.backend l₁ none ≡ ret (ok 1, l₂, told n (pos 0)))
        × IsWf l₂.store
        × (Store.get l₂.store id ≡ kept_for n)
  unfolding Dummy.backend Dummy.push
  schedule-run_inner lio op n v y room started nothing =
      let (id, small, fresh, young, how) =
        schedule-cases Dummy.backend lio op (pending n) v y room in
      elim how [
        | accepted s b pushed run v' reads ↦
            let only : b.pending ≡ id ∷ [] = ground (arith, started, nothing, pushed) in
            let live : Store.get s id ≡ some (pending n) = reads id small ∙ rw (==_refl id) refl in
            let (l, round, valid, kept) = run_inner-only s b id n v' small young live only in
            (id, record { store = s; io = b }, l, run, round, valid, kept)
        | undone s b e pushed run v' reads ↦ absurd (ground (arith, started, pushed))
        | panicked pushed run ↦ absurd (ground (arith, started, pushed))
      ]
