-- ===== src/Registration.antt =====
-- lio/src/registration/registration.rs and notifier.rs: who is told when an operation completes.
-- `W` is the type of wakers, `C` that of a callback with its typed operation; what waking and
-- calling do is outside, so they are recorded as `Effect`s in the order in which they happen.
pub mod Protocol
use lio.Base.{
  Bool, true, false, Option, none, some, List, [], ◌∷◌, ℤ, Outcome, ret, panic, ◌>>=◌, expect,
}

pub data Notifier (W C : Type 0) : Type 0 where
  waker : Option W → Notifier W C
  callback : C → Notifier W C

pub data Registration (W C : Type 0) : Type 0 where
  pending : Notifier W C → Registration W C
  done : Option ℤ → Registration W C

pub data Effect (W C : Type 0) : Type 0 where
  woke : W → Effect W C
  called : C → ℤ → Effect W C

module _ {W C : Type 0} where
  unfoldable pub new_waker : W → Registration W C
  new_waker w = pending (waker (some w))

  unfoldable pub new_callback : C → Registration W C
  new_callback c = pending (callback c)

  -- `Notifier::set_waker`, which reports whether there was a waker to replace.
  unfoldable pub replace_waker : Notifier W C → W → Bool × Notifier W C
  replace_waker (waker old) w = (true, waker (some w))
  replace_waker (callback c) w = (false, callback c)

  unfoldable pub try_take_result : Registration W C → Outcome (Option ℤ × Registration W C)
  try_take_result (done (some r)) = ret (some r, done none)
  try_take_result (done none) = panic
  try_take_result (pending n) = ret (none, pending n)

  -- `OpCallback::call`: the callback takes the result out of the registration.
  call_back : C → Registration W C → Outcome (Registration W C × List (Effect W C))
  unfolding try_take_result
  call_back c reg =
      try_take_result reg >>= λ taken. expect taken.0 >>= λ res. ret (taken.1, called c res ∷ [])

  -- `Notifier::call`.
  call : Notifier W C → Registration W C → Outcome (Registration W C × List (Effect W C))
  unfolding call_back
  call (waker (some w)) reg = ret (reg, woke w ∷ [])
  call (waker none) reg = ret (reg, [])
  call (callback c) reg = call_back c reg

  unfoldable pub set_waker : Registration W C → W → Outcome (Registration W C × List (Effect W C))
  unfolding replace_waker
  set_waker (done (some r)) w = ret (done (some r), woke w ∷ [])
  set_waker (done none) w = panic
  set_waker (pending n) w = ret (pending (replace_waker n w).1, [])

  -- The registration is `Done` before the notifier runs.
  unfoldable pub set_done : Registration W C → ℤ → Outcome (Registration W C × List (Effect W C))
  unfolding call
  set_done (pending n) res = call n (done (some res))
  set_done (done r) res = panic

  unfoldable pub result_consumed : Registration W C → Bool
  result_consumed (done none) = true
  result_consumed (done (some r)) = false
  result_consumed (pending n) = false
