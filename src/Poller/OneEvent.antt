-- ===== src/Poller/OneEvent.antt =====
-- `Poller::wait_timeout`: what the round of the loop for one event does.
use lio.Base.{
  ℕ, Bool, true, false, ◌≡◌, ◌≢◌, refl, sym, ap, ◌∙◌, inl, inr, Option, none, some, [], ◌∷◌, ◌++◌,
  ℤ, pos, ret, arith, ◌==◌, ≢→==, if◌then◌else◌, IoError, IoResult, ok, err, Bool-cases,
}
use lio.Base.Assoc.{lookup, insert, remove, lookup-insert, lookup-remove}
use lio.Op.{Op, RawFd}
use lio.Interest
use lio.Store.{notify_key}
use lio.Syscall.{Kernel}
use lio.Poller.{Poller, Event, ReadinessPoll, run_op_on_event, run_op_blocking, would_block}
use lio.Poller.Backend.{process}
use lio.Poller.RunOp.{
  EventKind, runs, elapses, unforeseen, event_kind, run_op_on_event-run_op_blocking,
}
use lio.Poller.Consistency.{IsConsistent, is_some}

-- The event is for an operation that the backend holds and that an event can run.
abbrev pub IsExpected : Poller → Event → Type 0
IsExpected p e =
    (e.key ≢ notify_key)
    × (op : Op) × (lookup e.key p.op_map ≡ some op)
    × (event_kind op ≢ unforeseen)

pub is_some-some : {A : Type 0} (o : Option A) → is_some o ≡ true → (a : A) × (o ≡ some a)
is_some-some none e = cc
is_some-some (some a) e = (a, refl)

-- Some call of the operating system's poller returned the error `x`.
pub data Refuses {K : Type 0} (poll : ReadinessPoll K) (x : IoError) : Type 0 where
  modifying :
      (fd : RawFd) (key : ℕ) (interest : Interest.Interest) (k k' : K)
      → poll.modify fd key interest k ≡ (err x, k')
      → Refuses poll x
  deleting : (fd : RawFd) (k k' : K) → poll.delete fd k ≡ (err x, k') → Refuses poll x
  deleting_timer : (key : ℕ) (k k' : K) → poll.delete_timer key k ≡ (err x, k') → Refuses poll x

module _ {K : Type 0} (poll : ReadinessPoll K) where
  refused_deletion :
      (timed : Bool) (fd : RawFd) (key : ℕ) (k k' : K) (x : IoError)
      → (if timed then poll.delete_timer key k else poll.delete fd k) ≡ (err x, k')
      → Refuses poll x
  refused_deletion true fd key k k' x e = deleting_timer key k k' e
  refused_deletion false fd key k k' x e = deleting fd k k' e

module _ {K : Type 0} (kernel : Kernel K) (poll : ReadinessPoll K) where
  -- One event: the poller failed, the operation waits on, or it is completed and forgotten.
  pub data Processed (e : Event) (p : Poller) (k : K) : Type 0 where
    failed :
        (x : IoError) (p' : Poller) (k' : K)
        → process kernel poll e (p, k) ≡ ret (err x, (p', k'))
        → Refuses poll x
        → Processed e p k
    waits :
        (p' : Poller) (k' : K)
        → process kernel poll e (p, k) ≡ ret (ok tt, (p', k'))
        → IsConsistent p'
        → ((j : ℕ) → lookup j p'.op_map ≡ lookup j p.op_map)
        → p'.completed ≡ p.completed
        → p'.immediate ≡ p.immediate
        → Processed e p k
    finished :
        (r : ℤ) (p' : Poller) (k' : K)
        → process kernel poll e (p, k) ≡ ret (ok tt, (p', k'))
        → IsConsistent p'
        → ((j : ℕ) → lookup j p'.op_map ≡ (if e.key == j then none else lookup j p.op_map))
        → p'.completed ≡ p.completed ++ (record { op_id = e.key; result = r }) ∷ []
        → p'.immediate ≡ p.immediate
        → Processed e p k

  run_expected :
      (op : Op) (k : K)
      → event_kind op ≢ unforeseen
      → (ran : ℤ × K) × (run_op_on_event kernel op k ≡ ret ran)
  run_expected op k ne = by_kind (event_kind op) refl
    where
      by_kind :
          (kind : EventKind)
          → event_kind op ≡ kind
          → (ran : ℤ × K) × (run_op_on_event kernel op k ≡ ret ran)
      by_kind runs e =
          (run_op_blocking kernel op k, run_op_on_event-run_op_blocking kernel op k ∙ rw e)
      by_kind elapses e = ((pos 0, k), run_op_on_event-run_op_blocking kernel op k ∙ rw e)
      by_kind unforeseen e = absurd (ne e)

  module _ (e : Event) (p : Poller) (k : K) (v : IsConsistent p) (op : Op)
      (found : lookup e.key p.op_map ≡ some op) where
    process_blocked :
        (fd : RawFd) (r : ℤ) (k₁ : K)
        → (e.key == notify_key) ≡ false
        → lookup e.key v.fds ≡ some fd
        → run_op_on_event kernel op k ≡ ret (r, k₁)
        → would_block r ≡ true
        → (answer : IoResult (Unit {0}) × K) → poll.modify fd e.key e.interest k₁ ≡ answer
        → Processed e p k
    unfolding process
    process_blocked fd r k₁ new has ran blocked (err x, k') a =
        failed x (record p { op_map = insert e.key op (remove e.key p.op_map) }) k'
          (ground (arith, new, v.has, has, found, ran, blocked, a))
          (modifying fd e.key e.interest k₁ k' a)
    process_blocked fd r k₁ new has ran blocked (ok u, k') a =
        waits p' k' (ground (arith, new, v.has, has, found, ran, blocked, a))
          (record {
            started = v.started;
            fds = v.fds;
            has = v.has;
            agree = λ j. v.agree j ∙ ap is_some (sym (same j));
          })
          same refl refl
      where
        p' : Poller
        p' = record p { op_map = insert e.key op (remove e.key p.op_map) }

        same : (j : ℕ) → lookup j p'.op_map ≡ lookup j p.op_map
        same j = ground (
          arith,
          found,
          lookup-insert e.key j op (remove e.key p.op_map),
          lookup-remove e.key j p.op_map,
        )

    process_over :
        (fd : RawFd) (r : ℤ) (k₁ : K)
        → (e.key == notify_key) ≡ false
        → lookup e.key v.fds ≡ some fd
        → run_op_on_event kernel op k ≡ ret (r, k₁)
        → would_block r ≡ false
        → (answer : IoResult (Unit {0}) × K)
        → (if Interest.is_timer e.interest then poll.delete_timer e.key k₁ else poll.delete fd k₁)
          ≡ answer
        → Processed e p k
    unfolding process
    process_over fd r k₁ new has ran over (err x, k') a =
        failed x (record p { op_map = remove e.key p.op_map }) k'
          (ground (arith, new, v.has, has, found, ran, over, a))
          (refused_deletion poll (Interest.is_timer e.interest) fd e.key k₁ k' x a)
    process_over fd r k₁ new has ran over (ok u, k') a =
        finished r p' k' (ground (arith, new, v.has, has, found, ran, over, a))
          (record {
            started = v.started;
            fds = remove e.key v.fds;
            has = refl;
            agree = λ j.
                ground
                  (arith, v.agree j, lookup-remove e.key j v.fds, lookup-remove e.key j p.op_map);
          })
          (λ j. lookup-remove e.key j p.op_map) refl refl
      where
        p' : Poller
        p' = record p {
          op_map = remove e.key p.op_map;
          fd_map = some (remove e.key v.fds);
          completed = p.completed ++ (record { op_id = e.key; result = r }) ∷ [];
        }

  pub process_expected :
      (e : Event) (p : Poller) (k : K) → IsConsistent p → IsExpected p e → Processed e p k
  process_expected e p k v h =
      let (fd, has) = is_some-some (lookup e.key v.fds) (v.agree e.key ∙ ap is_some h.2) in
      let (ran, runs_to) = run_expected h.1 k h.3 in
      elim (Bool-cases (would_block ran.0)) [
        | inl b ↦ process_blocked e p k v h.1 h.2 fd ran.0 ran.1 (≢→== _ _ h.0) has runs_to b _ refl
        | inr o ↦ process_over e p k v h.1 h.2 fd ran.0 ran.1 (≢→== _ _ h.0) has runs_to o _ refl
      ]
