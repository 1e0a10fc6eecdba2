-- ===== src/Ffi/Ticking.antt =====
-- From a function of the C interface to the call of its callback by `lio_tick`.
use lio.Base.{
  ℕ, ◌<◌, ◌≡◌, refl, ap, ◌∙◌, append-nil, Option, some, none, List, [], ◌∷◌, arith, ℤ, pos, ret, ok,
  ==_refl,
}
use lio.Op.{Op, OpCompleted, IoBackend, Pointer, Duration}
use lio.Syscall.{Syscall}
use lio.Store
use lio.Store.Invariant.{IsWf, occupied}
use lio.Registration.{callback, pending, new_callback}
use lio.Resource.{Resource, Heap}
use lio.Driver.{Lio, try_run}
use lio.Driver.Schedule.{IsYoungStore, accepted, undone, panicked, schedule-cases}
use lio.Driver.RunInner.{run_inner_all}
use lio.Io.{TypedOp, when_done}
use lio.Ffi.{Task, Closure, Call, Outside, Handle, complete}
use lio.Ffi.Calling.{start, lio_tick, complete_all}

abbrev pub at_once : Duration
at_once = record { secs = 0; nanos = 0 }

abbrev pub completion : ℕ → ℤ → OpCompleted
completion id res = record { op_id = id; result = res }

module _ {T R W B : Type 0} (backend : IoBackend B) (typed : TypedOp T R) where
  -- An operation that the C interface starts through a well-formed, young store with room, and that
  -- the backend takes under whatever key it is given and completes in the next round: `lio_tick`
  -- counts one completion and makes one call, that of the operation's callback, and the store has
  -- the key no more.
  pub start-lio_tick :
      (out : Outside) (inner : Lio W Closure B) (t t' : T) (op : Op) (task : T → Task)
      (cb : Pointer) (resource : Option Resource) (h h' : Heap) (res : ℤ) (call : Call)
      (closed : List Syscall) (pushed flushed waited : ℕ → B) (submitted : ℕ)
      → IsWf inner.store
      → IsYoungStore inner.store
      → occupied inner.store.slots < inner.store.capacity
      → typed.into_op t ≡ ret (op, t')
      → ((id : ℕ) → backend.push id op inner.io ≡ ret (ok tt, pushed id))
      → ((id : ℕ) → backend.flush (pushed id) ≡ ret (ok submitted, flushed id))
      → ((id : ℕ)
          → backend.wait_timeout (some at_once) (flushed id)
            ≡ ret (ok (completion id res ∷ []), waited id))
      → complete out (record { task = task t'; callback = cb; resource = resource }) res h
        ≡ ret (call, closed, h')
      → (id : ℕ) × (l₁ l₂ : Handle W B) × (start backend typed t task cb resource h inner ≡ ret l₁)
        × (lio_tick backend out l₁ ≡ ret (pos 1, call ∷ [], closed, l₂))
        × (l₂.heap ≡ h')
        × (Store.get l₁.inner.store id
            ≡ some (
                pending (callback (record { task = task t'; callback = cb; resource = resource }))))
        × (Store.get l₂.inner.store id ≡ none)
  unfolding start when_done new_callback lio_tick try_run complete_all
  start-lio_tick out inner t t' op task cb resource h h' res call closed pushed flushed waited
        submitted v y room made pushes flushes waits completed =
      let c : Closure = record { task = task t'; callback = cb; resource = resource } in
      let (id, small, fresh, young, how) =
        schedule-cases backend inner op (pending (callback c)) v y room in
      elim how [
        | accepted s b takes run v' reads ↦
            let live : Store.get s id ≡ some (pending (callback c)) =
              reads id small ∙ rw (==_refl id) refl in
            let same : b ≡ pushed id = ground (arith, takes, pushes id) in
            let (s', round, _, after) =
              run_inner_all backend (record { store = s; io = b }) (some at_once) (flushed id)
                (waited id) submitted (completion id res ∷ []) (callback c ∷ [])
                (ap backend.flush same ∙ flushes id) (waits id) v' (small, live, tt, tt)
                (young, tt) in
            (
              id,
              record { inner = record { store = s; io = b }; heap = h },
              record { inner = record { store = s'; io = waited id }; heap = h' },
              rw (made, run) refl,
              rw (round, lio_tick, try_run)
                  (rw (completed, complete_all)
                    (ap
                      (λ l. ret (
                        pos 1,
                        call ∷ [],
                        l,
                        record { inner = record { store = s'; io = waited id }; heap = h' },
                      ))
                      (append-nil closed))),
              refl,
              live,
              after id small ∙ rw (==_refl id) refl,
            )
        | undone s b e takes run v' reads ↦ absurd (ground (arith, takes, pushes id))
        | panicked takes run ↦ absurd (ground (arith, takes, pushes id))
      ]
