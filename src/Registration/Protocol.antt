-- ===== src/Registration/Protocol.antt =====
-- The life of one registration: pending, then told once, then read at most once.
use lio.Base.{◌≡◌, refl, true, false, Option, none, some, List, [], ◌∷◌, ℤ, ret, panic}
use lio.Registration.{
  Notifier, waker, callback, Registration, pending, done, Effect, woke, called, try_take_result,
  set_waker, set_done, result_consumed, replace_waker,
}

module _ {W C : Type 0} where
  abbrev pub finished : Option ℤ → Registration W C
  finished r = done r

  -- Whom a completion tells.
  abbrev pub told : Notifier W C → ℤ → List (Effect W C)
  told (waker none) res = []
  told (waker (some w)) res = woke w ∷ []
  told (callback c) res = called c res ∷ []

  -- What it leaves behind: a result to fetch, or a consumed entry.
  abbrev pub settled : Notifier W C → ℤ → Registration W C
  settled (waker w) res = done (some res)
  settled (callback c) res = done none

  pub set_done-pending :
      (n : Notifier W C) (res : ℤ) → set_done (pending n) res ≡ ret (settled n res, told n res)
  unfolding set_done try_take_result
  set_done-pending (waker none) res = refl
  set_done-pending (waker (some w)) res = refl
  set_done-pending (callback c) res = refl

  pub result_consumed-settled :
      (n : Notifier W C) (res : ℤ)
      → result_consumed (settled n res) ≡ elim n [ waker _ ↦ false | callback _ ↦ true ]
  unfolding result_consumed
  result_consumed-settled (waker w) res = refl
  result_consumed-settled (callback c) res = refl

  -- A pending registration is told of its completion exactly once: the second `set_done` panics,
  -- and so does `set_done` on any registration that is done.
  pub set_done_once :
      (n : Notifier W C) (res later : ℤ) (r : Option ℤ)
      → (set_done (pending n) res ≡ ret (settled n res, told n res))
        × (set_done (settled n res) later ≡ panic)
        × (set_done (finished r) later ≡ panic)
  unfolding set_done
  set_done_once (waker w) res later r = (set_done-pending (waker w) res, refl, refl)
  set_done_once (callback c) res later r = (set_done-pending (callback c) res, refl, refl)

  -- A registration with a waker, old or set while it waits, wakes the last one set, keeps the
  -- result for one `try_take_result`, and panics at a second. One with a callback ignores wakers.
  pub set_waker-set_done :
      (n : Notifier W C) (w : W) (res : ℤ)
      → (set_waker (pending n) w ≡ ret (pending (replace_waker n w).1, []))
        × (set_done (pending (replace_waker n w).1) res
            ≡ ret
                (settled n res, elim n [ waker _ ↦ woke w ∷ [] | callback c ↦ called c res ∷ [] ]))
        × (try_take_result (settled n res)
            ≡ elim n [ waker _ ↦ ret (some res, done none) | callback _ ↦ panic ])
        × (try_take_result (finished none) ≡ panic)
  unfolding set_waker set_done try_take_result
  set_waker-set_done (waker old) w res = (refl, refl, refl, refl)
  set_waker-set_done (callback c) w res = (refl, refl, refl, refl)
