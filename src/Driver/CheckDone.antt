-- ===== src/Driver/CheckDone.antt =====
-- `Lio::check_done` and `Lio::set_waker`: how the future of an operation reads its result.
use lio.Base.{
  ℕ, ◌<◌, ◌^◌, ◌≡◌, ◌≢◌, refl, sym, ap, ◌∙◌, inl, inr, Option, none, some, List, [], ◌∷◌, arith,
  if◌then◌else◌, ◌==◌, ==_refl, ==→≡, Bool-cases, Option-cases, ℤ, ret,
}
use lio.Store.{OpStore, u32_max, from_u64}
use lio.Store
use lio.Store.Invariant.{IsWf}
use lio.Store.Removal.{removed, remove-IsWf, put-IsWf}
use lio.Store.Handles.{get-put, get-removed}
use lio.Registration.{
  Notifier, waker, callback, Registration, Effect, woke, pending, done, try_take_result, set_waker,
  replace_waker,
}
use lio.Driver.{Lio, check_done, set_entry_waker, result, entry_not_found, entry_not_completed}

module _ {W C : Type 0} where
  -- What an entry reads once it has a new waker.
  abbrev pub rewoken : W → Option (Registration W C) → Option (Registration W C)
  rewoken w none = none
  rewoken w (some (pending (waker old))) = some (pending (waker (some w)))
  rewoken w (some (pending (callback c))) = some (pending (callback c))
  rewoken w (some (done r)) = some (done r)

  -- Whom a new waker wakes at once.
  abbrev pub woken_now : W → Option (Registration W C) → List (Effect W C)
  woken_now w (some (done (some r))) = woke w ∷ []
  woken_now w _ = []

  pub rewoken-pending :
      (w : W) (n : Notifier W C)
      → (m : Notifier W C) × (rewoken w (some (pending n)) ≡ some (pending m))
  rewoken-pending w (waker old) = (waker (some w), refl)
  rewoken-pending w (callback c) = (callback c, refl)

  pub rewoken_unread :
      (w : W) (o : Option (Registration W C))
      → o ≢ some (done none)
      → rewoken w o ≢ some (done none)
  rewoken_unread w none h = h
  rewoken_unread w (some (pending (waker old))) h = λ q. cc
  rewoken_unread w (some (pending (callback c))) h = λ q. cc
  rewoken_unread w (some (done r)) h = h

  put-rewoken :
      (s : OpStore (Registration W C)) (w : W) (key j : ℕ) (a b : Registration W C)
      → key < 2 ^ 64
      → j < 2 ^ 64
      → Store.get s key ≡ some a
      → rewoken w (some a) ≡ some b
      → Store.get (Store.put s key b) j
        ≡ (if key == j then rewoken w (Store.get s j) else Store.get s j)
  put-rewoken s w key j a b kfits fits e e' = elim (Bool-cases (key == j)) [
    | inl y ↦
        get-put s key j b kfits fits e
        ∙ rw y (sym e' ∙ ap (rewoken w) (sym e ∙ ap (Store.get s) (==→≡ key j y)))
    | inr n ↦ get-put s key j b kfits fits e ∙ rw n refl
  ]

  put_same :
      (s : OpStore (Registration W C)) (key j : ℕ) (a : Registration W C)
      → key < 2 ^ 64
      → j < 2 ^ 64
      → Store.get s key ≡ some a
      → Store.get (Store.put s key a) j ≡ Store.get s j
  put_same s key j a kfits fits e = elim (Bool-cases (key == j)) [
    | inl y ↦ get-put s key j a kfits fits e ∙ rw y (sym e ∙ ap (Store.get s) (==→≡ key j y))
    | inr n ↦ get-put s key j a kfits fits e ∙ rw n refl
  ]

module _ {W C B : Type 0} (lio : Lio W C B) (key : ℕ) (v : IsWf lio.store)
    (kfits : key < 2 ^ 64) where
  pub check_done_finished :
      {r : ℤ}
      → (from_u64 key).generation < u32_max
      → Store.get lio.store key ≡ some (done (some r))
      → (s : OpStore (Registration W C)) × (check_done lio key
          ≡ ret (result r, record lio { store = s }))
        × IsWf s
        × (check_done (record lio { store = s }) key
            ≡ ret (entry_not_found, record lio { store = s }))
        × ((j : ℕ)
            → j < 2 ^ 64
            → Store.get s j ≡ (if key == j then none else Store.get lio.store j))
  unfolding check_done try_take_result
  check_done_finished {r} young e =
      let taken = Store.put lio.store key (done none) in
      let now : Store.get taken key ≡ some (done none) =
        ground (arith, get-put lio.store key key (done none) kfits kfits e, ==_refl key) in
      let wf = put-IsWf lio.store key (done none) v e in
      let (removes, valid) = remove-IsWf taken key wf now young in
      (
        removed taken (from_u64 key),
        ground (arith, e, removes),
        valid,
        ground (arith, get-removed taken key key kfits kfits now, ==_refl key),
        λ j fits. ground (
          arith,
          get-removed taken key j kfits fits now,
          get-put lio.store key j (done none) kfits fits e,
        ),
      )

  pub check_done_idle :
      (entry : Option (Notifier W C))
      → Store.get lio.store key ≡ elim entry [ none ↦ none | some n ↦ some (pending n) ]
      → (s : OpStore (Registration W C)) × (check_done lio key
          ≡ ret (
            elim entry [ none ↦ entry_not_found | some _ ↦ entry_not_completed ],
            record lio { store = s },
          ))
        × IsWf s
        × ((j : ℕ) → j < 2 ^ 64 → Store.get s j ≡ Store.get lio.store j)
  unfolding check_done try_take_result
  check_done_idle none e = (lio.store, ground (arith, e), v, λ j fits. refl)
  check_done_idle (some n) e = (
    Store.put lio.store key (pending n),
    ground (arith, e),
    put-IsWf lio.store key (pending n) v e,
    λ j fits. put_same lio.store key j (pending n) kfits fits e,
  )

  -- `set_waker` on an entry that still has its result, or is pending, or on a key that is not
  -- live: every other key reads as before, and a pending entry keeps waiting.
  pub set_entry_waker-live :
      (w : W)
      → Store.get lio.store key ≢ some (done none)
      → (s : OpStore (Registration W C)) × (told : List (Effect W C)) × (set_entry_waker lio key w
          ≡ ret (record lio { store = s }, told))
        × IsWf s
        × ((j : ℕ)
            → j < 2 ^ 64
            → Store.get s j
              ≡ (if key == j then rewoken w (Store.get lio.store j) else Store.get lio.store j))
        × (told ≡ woken_now w (Store.get lio.store key))
  unfolding set_entry_waker set_waker replace_waker
  set_entry_waker-live w h = elim (Option-cases (Store.get lio.store key)) [
    | inl e ↦
        (lio.store, [], rw (e, set_entry_waker) refl, v, λ j fits. ground (arith, e), rw e refl)
    | inr (pending (waker old), e) ↦ (
      Store.put lio.store key (pending (waker (some w))),
      [],
      rw (e, set_entry_waker) refl,
      put-IsWf lio.store key _ v e,
      λ j fits. put-rewoken lio.store w key j (pending (waker old)) _ kfits fits e refl,
      rw e refl,
    )
    | inr (pending (callback c), e) ↦ (
      Store.put lio.store key (pending (callback c)),
      [],
      rw (e, set_entry_waker) refl,
      put-IsWf lio.store key _ v e,
      λ j fits. put-rewoken lio.store w key j (pending (callback c)) _ kfits fits e refl,
      rw e refl,
    )
    | inr (done (some r), e) ↦ (
      Store.put lio.store key (done (some r)),
      woke w ∷ [],
      rw (e, set_entry_waker) refl,
      put-IsWf lio.store key _ v e,
      λ j fits. put-rewoken lio.store w key j (done (some r)) _ kfits fits e refl,
      rw e refl,
    )
    | inr (done none, e) ↦ absurd (h e)
  ]

module _ {W C B : Type 0} (lio : Lio W C B) (key j : ℕ) (v : IsWf lio.store) (kfits : key < 2 ^ 64)
    (jfits : j < 2 ^ 64) where
  -- In a well-formed store, a finished entry whose key is not of the last generation hands over its
  -- result once: the entry is gone afterwards, a second call does not find it, no other key is
  -- disturbed, and the store is well formed.
  pub check_done-result :
      {r : ℤ}
      → (from_u64 key).generation < u32_max
      → Store.get lio.store key ≡ some (done (some r))
      → (s : OpStore (Registration W C)) × (check_done lio key
          ≡ ret (result r, record lio { store = s }))
        × IsWf s
        × (check_done (record lio { store = s }) key
            ≡ ret (entry_not_found, record lio { store = s }))
        × (Store.get s j ≡ (if key == j then none else Store.get lio.store j))
  check_done-result young e =
      let (s, run, valid, again, reads) = check_done_finished lio key v kfits young e in
      (s, run, valid, again, reads j jfits)

  -- An entry that is not finished, or a key that is not live, is reported as such and every key
  -- reads as before.
  pub check_done-waiting :
      (entry : Option (Notifier W C))
      → Store.get lio.store key ≡ elim entry [ none ↦ none | some n ↦ some (pending n) ]
      → (s : OpStore (Registration W C)) × (check_done lio key
          ≡ ret (
            elim entry [ none ↦ entry_not_found | some _ ↦ entry_not_completed ],
            record lio { store = s },
          ))
        × IsWf s
        × (Store.get s j ≡ Store.get lio.store j)
  check_done-waiting entry e =
      let (s, run, valid, same) = check_done_idle lio key v kfits entry e in
      (s, run, valid, same j jfits)
