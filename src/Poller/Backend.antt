-- ===== src/Poller/Backend.antt =====
-- `impl IoBackend for Poller` of lio/src/backends/impls/pollingv2/mod.rs.
use lio.Base.{
  ℕ, min, true, ◌&&◌, Option, some, List, [], ◌∷◌, ◌++◌, map, ltb, ◌==◌, if◌then◌else◌, length, ℤ,
  neg, is_neg, neg_part, Outcome, ret, panic, ◌>>=◌, expect, IoError, os, would_block,
  invalid_input, invalid_data, IoResult, ok, err,
}
use lio.Base.Assoc.{lookup, insert, remove}
use lio.Op.{Op, RawFd, Duration, OpCompleted, IoBackend}
use lio.Interest.{Interest}
use lio.Interest
use lio.Syscall.{Kernel, einprogress, eio}
use lio.Store.{notify_key}
use lio.Poller.{
  Event, ReadinessPoll, Poller, iter, as_i32, as_millis, run_op_on_event, run_op_blocking,
}
use lio.Poller

-- How `push` treats an operation: run it at once, register it, or look at it more closely.
pub data Route : Type 0 where
  at_once : Route
  watch : RawFd → Interest → Route
  special : Route

-- `fd_and_interest`.
unfoldable pub route : Op → Route
route (Op.send fd flags buffer) = watch fd Interest.write
route (Op.recv fd flags buffer) = watch fd Interest.read
route (Op.accept fd addr len) = watch fd Interest.read
route (Op.tee fd_in fd_out size) = watch fd_in Interest.read_and_write
route (Op.connect fd addr len connect_called) = special
route (Op.timeout duration timer_fd timespec) = special
route (Op.socket domain ty proto) = special
route op = at_once

-- A new `ImmediateCompletion`.
abbrev pub complete_now : Poller → ℕ → ℤ → Poller
complete_now p id r = record p { immediate = p.immediate ++ (id, r) ∷ [] }

-- `e.raw_os_error().unwrap_or(libc::EIO)`.
abbrev pub errno_or_eio : IoError → ℕ
errno_or_eio (os n) = n
errno_or_eio would_block = eio
errno_or_eio invalid_input = eio
errno_or_eio invalid_data = eio

-- The completions that did not need polling, and an empty queue of them.
abbrev pub drained : Poller → Poller
drained p = record p {
  completed = map (λ c. record { op_id = c.0; result = c.1 }) p.immediate;
  immediate = [];
}

-- `Poller::sys`, which panics before `init`.
abbrev pub sys_of : Poller → Outcome (Unit {0})
sys_of p = if p.sys then ret tt else panic

-- What a backend's method returns.
abbrev pub Answer : Type 0 → Type 0 → Type 0
Answer A K = Outcome (IoResult A × (Poller × K))

module _ {K : Type 0} (kernel : Kernel K) (poll : ReadinessPoll K) where
  unfoldable pub init : ℕ → Poller × K → Answer (Unit {0}) K
  init entries (p, k) =
      let (opened, k') = poll.new k in
      elim opened [
        | err e ↦ ret (err e, (p, k'))
        | ok _ ↦ ret (
          ok tt,
          (
            record {
              sys = true;
              fd_map = some [];
              op_map = [];
              events = min entries 4096;
              immediate = [];
              completed = [];
            },
            k',
          ),
        )
      ]

  -- Registration with the operating system; if it fails, the operation is run after all and its
  -- error, or that of the registration, completes it.
  push_watched : ℕ → Op → RawFd → Interest → Poller → K → Answer (Unit {0}) K
  push_watched id op fd interest p k = expect p.fd_map >>= λ fds. sys_of p >>= λ _.
      let (added, k') = poll.add fd id interest k in
      elim added [
        | ok _ ↦ ret (
          ok tt,
          (record p { op_map = insert id op p.op_map; fd_map = some (insert id fd fds) }, k'),
        )
        | err e ↦
            let (r, k'') = run_op_blocking kernel op k' in
            ret (
              ok tt,
              (
                record p {
                  op_map = remove id (insert id op p.op_map);
                  fd_map = some (remove id (insert id fd fds));
                  immediate =
                      p.immediate ++ (id, (if is_neg r then r else neg (errno_or_eio e))) ∷ [];
                },
                k'',
              ),
            )
      ]

  -- The operation is taken out of the map to be run. If the connection is in progress its
  -- descriptor is registered.
  push_connect : ℕ → Op → RawFd → Poller → K → Answer (Unit {0}) K
  push_connect id op fd p k =
      let (r, k') = run_op_blocking kernel op k in
      let taken = record p { op_map = remove id (insert id op p.op_map) } in
      if is_neg r && neg_part r == einprogress
      then (expect p.fd_map >>= λ fds. sys_of p >>= λ _.
          let (added, k'') = poll.add fd id Interest.write k' in
          ret (added, (record taken { fd_map = some (insert id fd fds) }, k'')))
      else ret (ok tt, (complete_now taken id r, k'))

  -- The duration in milliseconds is registered where a descriptor is expected.
  push_timeout : ℕ → Op → Duration → Poller → K → Answer (Unit {0}) K
  push_timeout id op duration p k = expect p.fd_map >>= λ fds. sys_of p >>= λ _.
      let ms = as_i32 (as_millis duration) in
      let (added, k') = poll.add ms id Interest.timer k in
      ret
        (added, (record p { op_map = insert id op p.op_map; fd_map = some (insert id ms fds) }, k'))

  push_special : ℕ → Op → Poller → K → Answer (Unit {0}) K
  unfolding push_connect push_timeout
  push_special id (Op.connect fd addr len called) p k =
      push_connect id (Op.connect fd addr len called) fd p k
  push_special id (Op.timeout duration timer_fd timespec) p k =
      push_timeout id (Op.timeout duration timer_fd timespec) duration p k
  push_special id (Op.socket domain ty proto) p k =
      let (r, k') = run_op_blocking kernel (Op.socket domain ty proto) k in
      ret (
        ok tt,
        (
          complete_now
              (record p { op_map = remove id (insert id (Op.socket domain ty proto) p.op_map) }) id
              r,
          k',
        ),
      )
  push_special id op p k = ret (ok tt, (record p { op_map = insert id op p.op_map }, k))

  unfoldable pub push : ℕ → Op → Poller × K → Answer (Unit {0}) K
  unfolding route push_watched push_special
  push id op (p, k) = elim (route op) [
    | at_once ↦ let (r, k') = run_op_blocking kernel op k in ret (ok tt, (complete_now p id r, k'))
    | watch fd interest ↦ push_watched id op fd interest p k
    | special ↦ push_special id op p k
  ]

  unfoldable pub flush : Poller × K → Answer ℕ K
  flush (p, k) = ret (ok 0, (p, k))

  -- An operation that would block goes back into the map and is armed again.
  rearm : Event → RawFd → Op → Poller → K → Answer (Unit {0}) K
  rearm e fd op p k =
      let (armed, k') = poll.modify fd e.key e.interest k in
      ret (armed, (record p { op_map = insert e.key op (remove e.key p.op_map) }, k'))

  -- An operation that is over is deregistered and completed.
  finish : Event → RawFd → List (ℕ × RawFd) → ℤ → Poller → K → Answer (Unit {0}) K
  finish e fd fds r p k =
      let (deleted, k') =
        if Interest.is_timer e.interest then poll.delete_timer e.key k else poll.delete fd k in
      elim deleted [
        | err x ↦ ret (err x, (record p { op_map = remove e.key p.op_map }, k'))
        | ok _ ↦ ret (
          ok tt,
          (
            record p {
              op_map = remove e.key p.op_map;
              fd_map = some (remove e.key fds);
              completed = p.completed ++ (record { op_id = e.key; result = r }) ∷ [];
            },
            k',
          ),
        )
      ]

  -- One round of the loop over the events.
  unfoldable pub process : Event → Poller × K → Answer (Unit {0}) K
  unfolding rearm finish
  process e (p, k) =
      if e.key == notify_key
      then ret (ok tt, (p, k))
      else (expect p.fd_map >>= λ fds. expect (lookup e.key fds) >>= λ fd.
          expect (lookup e.key p.op_map) >>= λ op. run_op_on_event kernel op k >>= λ ran.
          if Poller.would_block ran.0 then rearm e fd op p ran.1 else finish e fd fds ran.0 p ran.1)

  unfoldable pub process_all : List Event → Poller × K → Answer (Unit {0}) K
  process_all [] s = ret (ok tt, s)
  process_all (e ∷ es) s = elim (process e s) [
    | panic ↦ panic
    | ret (err x, s') ↦ ret (err x, s')
    | ret (ok _, s') ↦ process_all es s'
  ]

  unfoldable pub wait_timeout : Option Duration → Poller × K → Answer (List OpCompleted) K
  unfolding process_all
  wait_timeout timeout (p, k) = sys_of p >>= λ _.
      let (waited, k') = poll.wait p.events timeout k in
      elim waited [
        | err e ↦ elim (drained p).completed [
          | [] ↦ ret (err e, (drained p, k'))
          | c ∷ cs ↦ ret (ok (c ∷ cs), (drained p, k'))
        ]
        | ok found ↦
            if ltb p.events (length found)
            then panic
            else (process_all (iter found) (drained p, k') >>= λ done. elim done.0 [
              | err e ↦ ret (err e, done.1)
              | ok _ ↦ ret (ok done.1.0.completed, done.1)
            ])
      ]

  unfoldable pub backend : IoBackend (Poller × K)
  unfolding init push flush wait_timeout
  backend = record { init = init; push = push; flush = flush; wait_timeout = wait_timeout }
