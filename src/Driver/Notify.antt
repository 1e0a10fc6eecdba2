-- ===== src/Driver/Notify.antt =====
-- The two loops of `run_inner`: telling the registrations, and removing the consumed ones.
use lio.Base.{
  ℕ, ◌<◌, ◌^◌, ◌≡◌, ◌≢◌, refl, subst, ◌∙◌, Option, none, some, List, [], ◌∷◌, ◌++◌, arith, All,
  Bool-cases, inl, inr, ==→≡, if◌then◌else◌, ◌==◌, ≢→==, ret,
}
use lio.Op.{OpCompleted}
use lio.Store.{OpStore, u32_max, from_u64}
use lio.Store
use lio.Store.Invariant.{IsWf}
use lio.Store.Removal.{removed, remove-IsWf, put-IsWf}
use lio.Store.Handles.{get-put, get-removed}
use lio.Registration.{Notifier, waker, callback, Registration, pending, Effect}
use lio.Registration.Protocol.{told, settled, set_done-pending, result_consumed-settled}
use lio.Driver.{notify_all, remove_all}

module _ {W C : Type 0} where
  -- The completions name different keys, and the entry of each is pending with its notifier.
  abbrev pub Ready : OpStore (Registration W C) → List OpCompleted → List (Notifier W C) → Type 0
  Ready s [] [] = Unit
  Ready s (c ∷ cs) (n ∷ ns) =
      (c.op_id < 2 ^ 64)
      × (Store.get s c.op_id ≡ some (pending n))
      × All (λ d. c.op_id ≢ d.op_id) cs
      × Ready s cs ns
  Ready s _ _ = ⊥

  -- The keys with a callback, the notifications in order, and what a key reads after each loop.
  abbrev pub consumed : List OpCompleted → List (Notifier W C) → List ℕ
  consumed (c ∷ cs) (callback _ ∷ ns) = c.op_id ∷ consumed cs ns
  consumed (c ∷ cs) (waker _ ∷ ns) = consumed cs ns
  consumed _ _ = []

  abbrev pub notes : List OpCompleted → List (Notifier W C) → List (Effect W C)
  notes (c ∷ cs) (n ∷ ns) = told n c.result ++ notes cs ns
  notes _ _ = []

  abbrev pub told_at :
      ℕ
      → List OpCompleted
      → List (Notifier W C)
      → Option (Registration W C)
      → Option (Registration W C)
  told_at j (c ∷ cs) (n ∷ ns) o =
      if c.op_id == j then some (settled n c.result) else told_at j cs ns o
  told_at j _ _ o = o

  put-Ready :
      (s : OpStore (Registration W C)) (id : ℕ) (b a : Registration W C) (cs : List OpCompleted)
      (ns : List (Notifier W C))
      → id < 2 ^ 64
      → Store.get s id ≡ some a
      → All (λ d. id ≢ d.op_id) cs
      → Ready s cs ns
      → Ready (Store.put s id b) cs ns
  put-Ready s id b a [] [] fits e ne h = tt
  put-Ready s id b a [] (n ∷ ns) fits e ne h = h
  put-Ready s id b a (c ∷ cs) [] fits e ne h = h
  put-Ready s id b a (c ∷ cs) (n ∷ ns) fits e ne h = (
    h.0,
    ground (arith, get-put s id c.op_id b fits h.0 e, ne.0, h.1),
    h.2,
    put-Ready s id b a cs ns fits e ne.1 h.3,
  )

  pub record Told (s : OpStore (Registration W C)) (cs : List OpCompleted)
      (ns : List (Notifier W C)) : Type 0 where
    pub after : OpStore (Registration W C)
    pub run : notify_all s cs ≡ ret (after, consumed cs ns, notes cs ns)
    pub valid : IsWf after
    pub reads : (j : ℕ) → j < 2 ^ 64 → Store.get after j ≡ told_at j cs ns (Store.get s j)

  told_at_other :
      (j : ℕ) (cs : List OpCompleted) (ns : List (Notifier W C)) (o : Option (Registration W C))
      → All (λ d. j ≢ d.op_id) cs
      → told_at j cs ns o ≡ o
  told_at_other j [] ns o ne = refl
  told_at_other j (c ∷ cs) [] o ne = refl
  told_at_other j (c ∷ cs) (n ∷ ns) o ne = ground (arith, ne.0, told_at_other j cs ns o ne.1)

  Told-cons :
      (c : OpCompleted) (cs : List OpCompleted) (n : Notifier W C) (ns : List (Notifier W C))
      (s : OpStore (Registration W C))
      → Ready s (c ∷ cs) (n ∷ ns)
      → Told (Store.put s c.op_id (settled n c.result)) cs ns
      → Told s (c ∷ cs) (n ∷ ns)
  unfolding notify_all
  Told-cons c cs n ns s h rest = record {
    after = rest.after;
    run =
        ground
          (arith, h.1, set_done-pending n c.result, result_consumed-settled n c.result, rest.run);
    valid = rest.valid;
    reads = λ j fits. rest.reads j fits ∙ here j fits;
  }
    where
      here :
          (j : ℕ)
          → j < 2 ^ 64
          → told_at j cs ns (Store.get (Store.put s c.op_id (settled n c.result)) j)
            ≡ told_at j (c ∷ cs) (n ∷ ns) (Store.get s j)
      here j fits = elim (Bool-cases (c.op_id == j)) [
        | inl e ↦
            rw (get-put s c.op_id j (settled n c.result) h.0 fits h.1, e)
              (told_at_other j cs ns _
                (subst (λ k. All (λ d. k ≢ d.op_id) cs) (==→≡ c.op_id j e) h.2))
        | inr e ↦ rw (get-put s c.op_id j (settled n c.result) h.0 fits h.1, e)
      ]

  -- The loop never panics on completions that are ready, and tells each registration its result.
  pub notify_all-Told :
      (cs : List OpCompleted) (ns : List (Notifier W C)) (s : OpStore (Registration W C))
      → IsWf s
      → Ready s cs ns
      → Told s cs ns
  unfolding notify_all
  notify_all-Told [] [] s v h = record { after = s; run = refl; valid = v; reads = λ j fits. refl }
  notify_all-Told [] (n ∷ ns) s v h = absurd h
  notify_all-Told (c ∷ cs) [] s v h = absurd h
  notify_all-Told (c ∷ cs) (n ∷ ns) s v h = Told-cons c cs n ns s h (
      notify_all-Told cs ns (Store.put s c.op_id (settled n c.result)) (put-IsWf s c.op_id _ v h.1)
        (put-Ready s c.op_id _ (pending n) cs ns h.0 h.1 h.2 h.3))

  -- The keys are live and apart, and none has the last generation.
  abbrev pub Removable : OpStore (Registration W C) → List ℕ → Type 0
  Removable s [] = Unit
  Removable s (id ∷ ids) =
      (id < 2 ^ 64)
      × ((from_u64 id).generation < u32_max)
      × ((a : Registration W C) × (Store.get s id ≡ some a))
      × All (λ k. id ≢ k) ids
      × Removable s ids

  abbrev pub removed_at : ℕ → List ℕ → Option (Registration W C) → Option (Registration W C)
  removed_at j [] o = o
  removed_at j (id ∷ ids) o = if id == j then none else removed_at j ids o

  pub removed_at-none : (j : ℕ) (ids : List ℕ) → removed_at j ids none ≡ none
  removed_at-none j [] = refl
  removed_at-none j (id ∷ ids) = ground (arith, removed_at-none j ids)

  pub record Emptied (s : OpStore (Registration W C)) (ids : List ℕ) : Type 0 where
    pub after : OpStore (Registration W C)
    pub run : remove_all s ids ≡ ret after
    pub valid : IsWf after
    pub reads : (j : ℕ) → j < 2 ^ 64 → Store.get after j ≡ removed_at j ids (Store.get s j)

  Removable-remove :
      (s s' : OpStore (Registration W C)) (id : ℕ) (ids : List ℕ)
      → ((j : ℕ) → j < 2 ^ 64 → Store.get s' j ≡ (if id == j then none else Store.get s j))
      → All (λ k. id ≢ k) ids
      → Removable s ids
      → Removable s' ids
  Removable-remove s s' id [] e ne h = tt
  Removable-remove s s' id (k ∷ ids) e ne h = (
    h.0,
    h.1,
    (h.2.0, e k h.0 ∙ rw (≢→== id k ne.0) h.2.1),
    h.3,
    Removable-remove s s' id ids e ne.1 h.4,
  )

  pub remove_all-Emptied :
      (ids : List ℕ) (s : OpStore (Registration W C)) → IsWf s → Removable s ids → Emptied s ids
  unfolding remove_all
  remove_all-Emptied [] s v h = record { after = s; run = refl; valid = v; reads = λ j fits. refl }
  remove_all-Emptied (id ∷ ids) s v h =
      let gone = removed s (from_u64 id) in
      let (removes, valid) = remove-IsWf s id v h.2.1 h.1 in
      let reads = λ (j : ℕ) (fits : j < 2 ^ 64). get-removed s id j h.0 fits h.2.1 in
      let rest = remove_all-Emptied ids gone valid (Removable-remove s gone id ids reads h.3 h.4) in
      record {
        after = rest.after;
        run = ground (arith, removes, rest.run);
        valid = rest.valid;
        reads = λ j fits. rest.reads j fits ∙ ground (arith, reads j fits, removed_at-none j ids);
      }
