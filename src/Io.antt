-- ===== src/Io.antt =====
-- lio/src/api/io.rs: how an operation is started and awaited; lio/src/typed_op.rs: what it is made of.
-- A driver handle (`Rc`) is a name `H`; the driver that it refers to is passed along. A callback of
-- `when_done` is the name of a channel with the typed operation, which is how `send` uses it.
pub mod Awaiting
pub mod Receiving
use lio.Base.{
  if◌then◌else◌, ℕ, Bool, true, false, Option, none, some, List, [], ◌∷◌, ◌++◌, ℤ, Outcome, ret,
  panic, ◌>>=◌, expect, IoResult, ok, err,
}
use lio.Op.{Op, IoBackend}
use lio.Registration.{Registration, Effect, woke, called, new_waker, new_callback}
use lio.Driver.{
  Lio, schedule, check_done, set_entry_waker, result, entry_not_found, entry_not_completed,
}

-- The trait `TypedOp`; both methods can panic.
pub record TypedOp (T R : Type 0) : Type 0 where
  pub into_op : T → Outcome (Op × T)
  pub extract_result : T → ℤ → Outcome R

pub data LioHandle (H : Type 0) : Type 0 where
  globally_installed : LioHandle H
  custom : H → LioHandle H

pub record Io (H T : Type 0) : Type 0 where
  pub op : T
  pub handle : LioHandle H

module _ {H : Type 0} where
  -- The thread's `GLOBAL_LIO`.
  unfoldable pub install_global : H → Option H → Outcome (Option H)
  install_global lio none = ret (some lio)
  install_global lio (some old) = panic

  unfoldable pub uninstall_global : Option H → Option H × Option H
  uninstall_global global = (global, none)

module _ {H T : Type 0} where
  unfoldable pub from_op : T → Io H T
  from_op op = record { op = op; handle = globally_installed }

  unfoldable pub with_lio : Io H T → H → Io H T
  with_lio io lio = record { op = io.op; handle = custom lio }

  unfoldable pub into_lio : Option H → Io H T → Outcome (H × T)
  into_lio global io = elim io.handle [
    | globally_installed ↦ expect global >>= λ lio. ret (lio, io.op)
    | custom lio ↦ ret (lio, io.op)
  ]

pub data IoFutureState (T : Type 0) : Type 0 where
  pending : T → IoFutureState T
  inflight : ℕ → T → IoFutureState T
  done : IoFutureState T

pub record IoFuture (H T : Type 0) : Type 0 where
  pub state : IoFutureState T
  pub lio : H

unfoldable pub into_future : {H T : Type 0} → Option H → Io H T → Outcome (IoFuture H T)
unfolding into_lio
into_future global io =
    into_lio global io >>= λ parts. ret (record { state = pending parts.1; lio = parts.0 })

pub data Poll (R : Type 0) : Type 0 where
  ready : R → Poll R
  not_ready : Poll R

module _ {T R W C B : Type 0} (typed : TypedOp T R) (backend : IoBackend B) where
  -- `IoFuture::poll` on the driver of the future. The waker is that of the context.
  unfoldable pub poll :
      IoFutureState T
      → W
      → Lio W C B
      → Outcome (Poll R × IoFutureState T × Lio W C B × List (Effect W C))
  poll (pending t) w lio = typed.into_op t >>= λ made.
      schedule backend lio made.0 (new_waker w) >>= λ scheduled. elim scheduled.0 [
        | err e ↦ panic
        | ok id ↦ ret (not_ready, inflight id made.1, scheduled.1, [])
      ]
  poll (inflight id t) w lio = check_done lio id >>= λ checked. elim checked.0 [
    | result r ↦ typed.extract_result t r >>= λ out. ret (ready out, done, checked.1, [])
    | entry_not_completed ↦
        set_entry_waker checked.1 id w >>= λ woken. ret (not_ready, inflight id t, woken.0, woken.1)
    | entry_not_found ↦ panic
  ]
  poll done w lio = panic

-- A `std::sync::mpsc` channel: what was sent and not received, and whether a sender is left.
pub record Channel (R : Type 0) : Type 0 where
  pub queue : List R
  pub connected : Bool

module _ {T R W B : Type 0} (typed : TypedOp T R) (backend : IoBackend B) where
  -- `Io::when_done` with the callback `c`, on the driver of the operation.
  unfoldable pub when_done : {C : Type 0} → T → (T → C) → Lio W C B → Outcome (Lio W C B)
  when_done t c lio = typed.into_op t >>= λ made.
      schedule backend lio made.0 (new_callback (c made.1)) >>= λ scheduled. elim scheduled.0 [
        | err e ↦ panic
        | ok id ↦ ret scheduled.1
      ]

  -- `Io::send_with`: the callback sends the result and drops the sender of the channel.
  unfoldable pub send_with : T → ℕ → Lio W (T × ℕ) B → Outcome (Lio W (T × ℕ) B)
  unfolding when_done
  send_with t sender lio = when_done t (λ boxed. (boxed, sender)) lio

module _ {T R : Type 0} (typed : TypedOp T R) where
  -- `OpCallback::call_callback` with the callback of `send_with`.
  unfoldable pub call_callback : T → ℤ → Channel R → Outcome (Channel R)
  call_callback t res ch = typed.extract_result t res >>= λ out.
      ret (record { queue = ch.queue ++ out ∷ []; connected = false })

-- What a call on a `Receiver` returns: a value, nothing, or no return, as long as a blocking call
-- finds the channel empty and connected.
pub data Received (R : Type 0) : Type 0 where
  value : R → Received R
  nothing : Received R
  blocks : Received R

-- A `Receiver`: whether it still has the receiving end of its channel.
pub record Receiver : Type 0 where
  pub recv : Bool

unfoldable pub get_inner : Receiver → Bool × Receiver
get_inner r = (r.recv, record { recv = false })

unfoldable pub set_inner : Receiver → Outcome Receiver
set_inner r = if r.recv then panic else ret (record { recv = true })

module _ {R : Type 0} where
  -- `Receiver::recv`.
  unfoldable pub recv : Receiver → Channel R → Outcome (Received R × Receiver × Channel R)
  unfolding get_inner
  recv r ch =
      let (had, left) = get_inner r in
      if had
      then (elim ch.queue [
        | v ∷ later ↦ ret (value v, left, record ch { queue = later })
        | [] ↦ if ch.connected then ret (blocks, left, ch) else panic
      ])
      else panic

  -- `Receiver::recv_timeout`: `later` is the channel when the time is over.
  unfoldable pub recv_timeout :
      Receiver → Channel R → Channel R → Outcome (Received R × Receiver × Channel R)
  unfolding get_inner set_inner
  recv_timeout r ch later =
      let (had, left) = get_inner r in
      let seen : Channel R = elim ch.queue [ v ∷ q ↦ ch | [] ↦ later ] in
      if had
      then (elim seen.queue [
        | v ∷ q ↦ ret (value v, left, record seen { queue = q })
        | [] ↦
            if seen.connected then (set_inner left >>= λ kept. ret (nothing, kept, seen)) else panic
      ])
      else panic

  unfoldable pub try_recv : Receiver → Channel R → Outcome (Received R × Receiver × Channel R)
  unfolding get_inner set_inner
  try_recv r ch =
      let (had, left) = get_inner r in
      if had
      then (elim ch.queue [
        | v ∷ q ↦ ret (value v, left, record ch { queue = q })
        | [] ↦ if ch.connected then (set_inner left >>= λ kept. ret (nothing, kept, ch)) else panic
      ])
      else panic

module _ {T R W C B : Type 0} (typed : TypedOp T R) (backend : IoBackend B) where
  -- `Io::send`, with the callback that sends the result: the receiver of a new channel.
  unfoldable pub send : T → (T → C) → Lio W C B → Outcome (Receiver × Channel R × Lio W C B)
  unfolding when_done
  send t c lio = when_done typed backend t c lio >>= λ after.
      ret (record { recv = true }, record { queue = []; connected = true }, after)

  -- `Io::wait`.
  unfoldable pub wait : T → (T → C) → Lio W C B → Outcome (Received R × Lio W C B)
  unfolding send recv
  wait t c lio = send t c lio >>= λ sent. recv sent.0 sent.1 >>= λ got. ret (got.0, sent.2)
