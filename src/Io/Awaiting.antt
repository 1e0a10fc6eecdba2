-- ===== src/Io/Awaiting.antt =====
-- `IoFuture::poll` against the protocol of a future: it is pending until its operation is
-- completed, the waker of its last poll is woken then, and it is ready once.
use lio.Base.{
  ℕ, ◌<◌, ◌^◌, ◌≡◌, refl, sym, ap, ◌∙◌, inl, inr, Option, none, some, [], ◌∷◌, arith, ◌==◌,
  if◌then◌else◌, ==_refl, ==→≡, Bool-cases, ℤ, ret, panic, ok,
}
use lio.Op.{IoBackend, Duration}
use lio.Store
use lio.Store.{OpStore, from_u64, u32_max}
use lio.Store.Invariant.{IsWf}
use lio.Registration.{Registration, waker, woke}
use lio.Driver.{Lio, run_inner}
use lio.Driver.RunInner.{run_inner_all}
use lio.Driver.CheckDone.{check_done_finished, check_done_idle, set_entry_waker-live}
use lio.Io.{TypedOp, inflight, done, ready, not_ready, poll}

module _ {T R W C B : Type 0} (typed : TypedOp T R) (backend : IoBackend B) where
  -- Polling while the operation is pending: the future stays as it is, and its entry waits with the
  -- new waker.
  pub poll_waiting :
      (lio : Lio W C B) (id : ℕ) (t : T) (old : Option W) (w : W)
      → IsWf lio.store
      → id < 2 ^ 64
      → Store.get lio.store id ≡ some (Registration.pending (waker old))
      → (s : OpStore (Registration W C)) × (poll typed backend (inflight id t) w lio
          ≡ ret (not_ready, inflight id t, record lio { store = s }, []))
        × IsWf s
        × ((j : ℕ)
            → j < 2 ^ 64
            → Store.get s j ≡ (
                if id == j
                then some (Registration.pending (waker (some w)))
                else Store.get lio.store j))
  unfolding poll
  poll_waiting lio id t old w v small e =
      let (s₁, run₁, v₁, same) = check_done_idle lio id v small (some (waker old)) e in
      let still : Store.get s₁ id ≡ some (Registration.pending (waker old)) = same id small ∙ e in
      let (s₂, told, run₂, v₂, reads, who) =
        set_entry_waker-live (record lio { store = s₁ }) id v₁ small w
          (λ q. ground (arith, q, still)) in
      let quiet : told ≡ [] = ground (arith, who, still) in
      (
        s₂,
        rw (run₁, poll) (rw (run₂, quiet) refl),
        v₂,
        λ j fits. elim (Bool-cases (id == j)) [
          | inl y ↦
              let here : Store.get lio.store j ≡ some (Registration.pending (waker old)) =
                ap (Store.get lio.store) (sym (==→≡ id j y)) ∙ e in
              ground (arith, y, reads j fits, same j fits, here)
          | inr n ↦ ground (arith, n, reads j fits, same j fits)
        ],
      )

  -- Polling once the result is there.
  pub poll_finished :
      (lio : Lio W C B) (id : ℕ) (t : T) (r : ℤ) (out : R) (w : W)
      → IsWf lio.store
      → id < 2 ^ 64
      → (from_u64 id).generation < u32_max
      → Store.get lio.store id ≡ some (Registration.done (some r))
      → typed.extract_result t r ≡ ret out
      → (s : OpStore (Registration W C)) × (poll typed backend (inflight id t) w lio
          ≡ ret (ready out, done, record lio { store = s }, []))
        × IsWf s
        × ((j : ℕ) → j < 2 ^ 64 → Store.get s j ≡ (if id == j then none else Store.get lio.store j))
  unfolding poll
  poll_finished lio id t r out w v small young e extracted =
      let (s, run, valid, again, reads) = check_done_finished lio id v small young e in
      (s, rw (run, poll) (rw (extracted, poll) refl), valid, reads)

  -- On a driver with a well-formed store, a future whose operation is pending, under a key that is not
  -- of the last generation, is polled with a waker: it is not ready. A round in which the backend
  -- flushes and reports the result of this operation, and nothing else, wakes that waker, not an earlier
  -- one. If the operation can make something of that result, the next poll is ready with it and clears
  -- its entry, and a poll after that panics.
  pub poll-run_inner-poll :
      (lio : Lio W C B) (timeout : Option Duration) (b b' : B) (submitted id : ℕ) (t : T) (r : ℤ)
      (out : R) (old : Option W) (w w' : W)
      → IsWf lio.store
      → id < 2 ^ 64
      → (from_u64 id).generation < u32_max
      → Store.get lio.store id ≡ some (Registration.pending (waker old))
      → backend.flush lio.io ≡ ret (ok submitted, b)
      → backend.wait_timeout timeout b ≡ ret (ok ((record { op_id = id; result = r }) ∷ []), b')
      → typed.extract_result t r ≡ ret out
      → (l₁ l₂ l₃ : Lio W C B) × (poll typed backend (inflight id t) w lio
          ≡ ret (not_ready, inflight id t, l₁, []))
        × (run_inner backend l₁ timeout ≡ ret (ok 1, l₂, woke w ∷ []))
        × (poll typed backend (inflight id t) w' l₂ ≡ ret (ready out, done, l₃, []))
        × (Store.get l₃.store id ≡ none)
        × (poll typed backend done w' l₃ ≡ panic)
  unfolding poll
  poll-run_inner-poll lio timeout b b' submitted id t r out old w w' v small young e flushed waited
        extracted =
      let (s₁, run₁, v₁, reads₁) = poll_waiting lio id t old w v small e in
      let now : Store.get s₁ id ≡ some (Registration.pending (waker (some w))) =
        reads₁ id small ∙ rw (==_refl id) refl in
      let (s₂, run₂, v₂, reads₂) =
        run_inner_all backend (record lio { store = s₁ }) timeout b b' submitted
          ((record { op_id = id; result = r }) ∷ []) (waker (some w) ∷ []) flushed waited v₁
          (small, now, tt, tt) (young, tt) in
      let told : Store.get s₂ id ≡ some (Registration.done (some r)) =
        ground (arith, reads₂ id small, ==_refl id) in
      let (s₃, run₃, v₃, reads₃) =
        poll_finished (record { store = s₂; io = b' }) id t r out w' v₂ small young told
          extracted in
      (
        record lio { store = s₁ },
        record { store = s₂; io = b' },
        record { store = s₃; io = b' },
        run₁,
        run₂,
        run₃,
        reads₃ id small ∙ rw (==_refl id) refl,
        refl,
      )
