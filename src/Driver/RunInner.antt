-- ===== src/Driver/RunInner.antt =====
-- `Lio::run_inner` as a whole: flushing, waiting, telling and removing.
use lio.Base.{
  ℕ, ◌<◌, ◌^◌, ◌≡◌, ◌≢◌, refl, ap, subst, ◌∙◌, ◌⊎◌, inl, inr, Option, none, some, List, [], ◌∷◌,
  arith, All, if◌then◌else◌, ◌==◌, ==→≡, Bool-cases, length, ret, panic, ok, err, IoError,
}
use lio.Op.{OpCompleted, IoBackend, Duration}
use lio.Store.{OpStore, u32_max, from_u64}
use lio.Store
use lio.Store.Invariant.{IsWf}
use lio.Registration.{Notifier, waker, callback, Registration, pending, done}
use lio.Registration.Protocol.{settled}
use lio.Driver.{Lio, notify_all, deliver, run_inner}
use lio.Driver.Notify.{
  Ready, consumed, notes, told_at, notify_all-Told, Removable, removed_at, remove_all-Emptied,
}

-- The key of the completion does not have the last generation.
abbrev pub IsYoung : OpCompleted → Type 0
IsYoung c = (from_u64 c.op_id).generation < u32_max

module _ {W C : Type 0} where
  -- What a key reads after a batch of completions: the result for a waker, nothing for a callback.
  abbrev pub final_at :
      ℕ
      → List OpCompleted
      → List (Notifier W C)
      → Option (Registration W C)
      → Option (Registration W C)
  final_at j (c ∷ cs) (waker _ ∷ ns) o =
      if c.op_id == j then some (done (some c.result)) else final_at j cs ns o
  final_at j (c ∷ cs) (callback _ ∷ ns) o = if c.op_id == j then none else final_at j cs ns o
  final_at j _ _ o = o

  told_at-some :
      (j : ℕ) (cs : List OpCompleted) (ns : List (Notifier W C)) (b : Registration W C)
      → (a : Registration W C) × (told_at j cs ns (some b) ≡ some a)
  told_at-some j [] ns b = (b, refl)
  told_at-some j (c ∷ cs) [] b = (b, refl)
  told_at-some j (c ∷ cs) (n ∷ ns) b = elim (Bool-cases (c.op_id == j)) [
    | inl e ↦ (settled n c.result, rw e)
    | inr e ↦ let (a, p) = told_at-some j cs ns b in (a, rw e p)
  ]

  consumed-ne :
      (id : ℕ) (cs : List OpCompleted) (ns : List (Notifier W C))
      → All (λ d. id ≢ d.op_id) cs
      → All (λ k. id ≢ k) (consumed cs ns)
  consumed-ne id [] ns h = tt
  consumed-ne id (c ∷ cs) [] h = tt
  consumed-ne id (c ∷ cs) (waker w ∷ ns) h = consumed-ne id cs ns h.1
  consumed-ne id (c ∷ cs) (callback f ∷ ns) h = (h.0, consumed-ne id cs ns h.1)

  removed_at-other :
      (j : ℕ) (ids : List ℕ) (o : Option (Registration W C))
      → All (λ k. j ≢ k) ids
      → removed_at j ids o ≡ o
  removed_at-other j [] o h = refl
  removed_at-other j (id ∷ ids) o h = ground (arith, h.0, removed_at-other j ids o h.1)

  -- Telling and then removing gives the final reading.
  removed_at-told_at :
      (s : OpStore (Registration W C)) (j : ℕ) (cs : List OpCompleted) (ns : List (Notifier W C))
      (o : Option (Registration W C))
      → Ready s cs ns
      → removed_at j (consumed cs ns) (told_at j cs ns o) ≡ final_at j cs ns o
  removed_at-told_at s j [] [] o h = refl
  removed_at-told_at s j [] (n ∷ ns) o h = absurd h
  removed_at-told_at s j (c ∷ cs) [] o h = absurd h
  removed_at-told_at s j (c ∷ cs) (waker w ∷ ns) o h = elim (Bool-cases (c.op_id == j)) [
    | inl e ↦ rw e (
        removed_at-other j (consumed cs ns) _ (
          subst (λ k. All (λ i. k ≢ i) (consumed cs ns)) (==→≡ c.op_id j e)
            (consumed-ne c.op_id cs ns h.2)))
    | inr e ↦ rw e (removed_at-told_at s j cs ns o h.3)
  ]
  removed_at-told_at s j (c ∷ cs) (callback f ∷ ns) o h = elim (Bool-cases (c.op_id == j)) [
    | inl e ↦ rw e
    | inr e ↦ rw e (removed_at-told_at s j cs ns o h.3)
  ]

  -- The keys that the first loop collects can be removed by the second.
  consumed-Removable :
      (s after : OpStore (Registration W C)) (cs₀ : List OpCompleted) (ns₀ : List (Notifier W C))
      → ((j : ℕ) → j < 2 ^ 64 → Store.get after j ≡ told_at j cs₀ ns₀ (Store.get s j))
      → (cs : List OpCompleted) (ns : List (Notifier W C)) → Ready s cs ns
      → All IsYoung cs
      → Removable after (consumed cs ns)
  consumed-Removable s after cs₀ ns₀ reads [] ns h y = tt
  consumed-Removable s after cs₀ ns₀ reads (c ∷ cs) [] h y = tt
  consumed-Removable s after cs₀ ns₀ reads (c ∷ cs) (waker w ∷ ns) h y =
      consumed-Removable s after cs₀ ns₀ reads cs ns h.3 y.1
  consumed-Removable s after cs₀ ns₀ reads (c ∷ cs) (callback f ∷ ns) h y =
      let (a, p) = told_at-some c.op_id cs₀ ns₀ (pending (callback f)) in
      (
        h.0,
        y.0,
        (a, reads c.op_id h.0 ∙ ap (told_at c.op_id cs₀ ns₀) h.1 ∙ p),
        consumed-ne c.op_id cs ns h.2,
        consumed-Removable s after cs₀ ns₀ reads cs ns h.3 y.1,
      )

module _ {W C B : Type 0} where
  deliver_lem :
      (lio : Lio W C B) (cs : List OpCompleted) (ns : List (Notifier W C))
      → IsWf lio.store
      → Ready lio.store cs ns
      → All IsYoung cs
      → (s : OpStore (Registration W C)) × (deliver lio cs
          ≡ ret (ok (length cs), record lio { store = s }, notes cs ns))
        × IsWf s
        × ((j : ℕ) → j < 2 ^ 64 → Store.get s j ≡ final_at j cs ns (Store.get lio.store j))
  unfolding deliver
  deliver_lem lio cs ns v h y =
      let first = notify_all-Told cs ns lio.store v h in
      let second =
        remove_all-Emptied (consumed cs ns) first.after first.valid
          (consumed-Removable lio.store first.after cs ns first.reads cs ns h y) in
      (
        second.after,
        rw (first.run, deliver) (rw (second.run, deliver)),
        second.valid,
        λ j fits.
            second.reads j fits
            ∙ ap (removed_at j (consumed cs ns)) (first.reads j fits)
            ∙ removed_at-told_at lio.store j cs ns _ h,
      )

  pub run_inner_all :
      (backend : IoBackend B) (lio : Lio W C B) (timeout : Option Duration) (b b' : B)
      (submitted : ℕ) (cs : List OpCompleted) (ns : List (Notifier W C))
      → backend.flush lio.io ≡ ret (ok submitted, b)
      → backend.wait_timeout timeout b ≡ ret (ok cs, b')
      → IsWf lio.store
      → Ready lio.store cs ns
      → All IsYoung cs
      → (s : OpStore (Registration W C)) × (run_inner backend lio timeout
          ≡ ret (ok (length cs), record { store = s; io = b' }, notes cs ns))
        × IsWf s
        × ((j : ℕ) → j < 2 ^ 64 → Store.get s j ≡ final_at j cs ns (Store.get lio.store j))
  unfolding run_inner
  run_inner_all backend lio timeout b b' submitted cs ns flushed waited v h y =
      let (s, run, valid, reads) = deliver_lem (record lio { io = b' }) cs ns v h y in
      (s, rw (flushed, run_inner) (rw (waited, run_inner) run), valid, reads)

  -- A round of the event loop in which the backend flushes and hands over completions whose keys
  -- are apart, pending and not of the last generation: it counts them, tells every one of them
  -- its own result in order and nobody else, keeps the store well formed, and leaves every key `j`
  -- with the result to fetch (a waker), with nothing (a callback), or as it was.
  pub run_inner_lem :
      (backend : IoBackend B) (lio : Lio W C B) (timeout : Option Duration) (b b' : B)
      (submitted : ℕ) (cs : List OpCompleted) (ns : List (Notifier W C)) (j : ℕ)
      → backend.flush lio.io ≡ ret (ok submitted, b)
      → backend.wait_timeout timeout b ≡ ret (ok cs, b')
      → IsWf lio.store
      → Ready lio.store cs ns
      → All IsYoung cs
      → j < 2 ^ 64
      → (s : OpStore (Registration W C)) × (run_inner backend lio timeout
          ≡ ret (ok (length cs), record { store = s; io = b' }, notes cs ns))
        × IsWf s
        × (Store.get s j ≡ final_at j cs ns (Store.get lio.store j))
  run_inner_lem backend lio timeout b b' submitted cs ns j flushed waited v h y fits =
      let (s, run, valid, reads) =
        run_inner_all backend lio timeout b b' submitted cs ns flushed waited v h y in
      (s, run, valid, reads j fits)

  -- A backend that fails to flush or to wait: its error is returned, the store is left alone and
  -- nobody is told. One that reports a key which is not live makes the driver panic.
  pub run_inner_failures :
      (backend : IoBackend B) (lio : Lio W C B) (timeout : Option Duration) (b b' : B)
      (submitted : ℕ) (c : OpCompleted) (cs : List OpCompleted) (e : IoError)
      → (how : ((backend.flush lio.io ≡ ret (err e, b))
            ⊎ ((backend.flush lio.io ≡ ret (ok submitted, b))
                × (backend.wait_timeout timeout b ≡ ret (err e, b'))))
          ⊎ ((backend.flush lio.io ≡ ret (ok submitted, b))
              × (backend.wait_timeout timeout b ≡ ret (ok (c ∷ cs), b'))
              × (Store.get lio.store c.op_id ≡ none)))
      → run_inner backend lio timeout ≡ elim how [
        | inl (inl _) ↦ ret (err e, record lio { io = b }, [])
        | inl (inr _) ↦ ret (err e, record lio { io = b' }, [])
        | inr _ ↦ panic
      ]
  unfolding run_inner notify_all
  run_inner_failures backend lio timeout b b' submitted c cs e (inl (inl f)) =
      rw (f, run_inner) refl
  run_inner_failures backend lio timeout b b' submitted c cs e (inl (inr (f, w))) =
      rw (f, run_inner) (rw (w, run_inner) refl)
  run_inner_failures backend lio timeout b b' submitted c cs e (inr (f, w, dead)) =
      rw (f, run_inner) (rw (w, run_inner) (rw (dead, deliver, notify_all) refl))
