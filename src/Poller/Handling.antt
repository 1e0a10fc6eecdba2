-- ===== src/Poller/Handling.antt =====
-- `Poller::wait_timeout` over an operating system that keeps its contract: the round of the loop for
-- one event.
use lio.Base.{
  ℕ, ◌≡◌, refl, sym, ap, ◌∙◌, inl, inr, Bool, true, false, Option, none, some, [], ◌∷◌, ◌++◌, ℤ,
  ret, arith, ◌==◌, if◌then◌else◌, IoResult, ok, Bool-cases,
}
use lio.Base.Assoc.{lookup, insert, remove, lookup-insert, lookup-remove}
use lio.Op.{Op, RawFd}
use lio.Interest
use lio.Store.{notify_key}
use lio.Syscall.{Kernel}
use lio.Poller.{Poller, Event, ReadinessPoll, run_op_on_event, run_op_blocking, would_block}
use lio.Poller.Backend.{process}
use lio.Poller.RunOp.{runs, event_kind, run_op_on_event-run_op_blocking}
use lio.Poller.Consistency.{is_some}
use lio.Poller.OneEvent.{is_some-some}
use lio.Poller.Selector.{IsSelector}
use lio.Poller.Soundness.{IsSound, IsSound-shrunk, run_op_blocking-keeps}

module _ {K : Type 0} (kernel : Kernel K) (poll : ReadinessPoll K)
    (watches : K → ℕ → Option (RawFd × Bool)) (os : IsSelector kernel poll watches) where
  -- What the round for one event leaves behind: the operation is still there, or it is over.
  pub data Handled (e : Event) (p : Poller) (k : K) : Type 0 where
    stays :
        (r : IoResult (Unit {0})) (p' : Poller) (k' : K)
        → process kernel poll e (p, k) ≡ ret (r, (p', k'))
        → IsSound watches p' k'
        → ((j : ℕ) → lookup j p'.op_map ≡ lookup j p.op_map)
        → ((j : ℕ) → watches k' j ≡ watches k j)
        → p'.completed ≡ p.completed
        → p'.immediate ≡ p.immediate
        → Handled e p k
    ends :
        (result : ℤ) (p' : Poller) (k' : K)
        → process kernel poll e (p, k) ≡ ret (ok tt, (p', k'))
        → IsSound watches p' k'
        → is_some (lookup e.key p.op_map) ≡ true
        → ((j : ℕ) → lookup j p'.op_map ≡ (if e.key == j then none else lookup j p.op_map))
        → ((j : ℕ) → watches k' j ≡ (if e.key == j then none else watches k j))
        → p'.completed ≡ p.completed ++ (record { op_id = e.key; result = result }) ∷ []
        → p'.immediate ≡ p.immediate
        → Handled e p k

  module _ (e : Event) (p : Poller) (k : K) (v : IsSound watches p k) (fd : RawFd)
      (seen : watches k e.key ≡ some (fd, Interest.is_timer e.interest)) where
    timeless : Interest.is_timer e.interest ≡ false
    timeless = (v.known e.key _ seen).0

    has : lookup e.key v.valid.fds ≡ some fd
    has = (v.known e.key _ seen).1

    -- The state of the system once the operation has run.
    ran-watches :
        (op : Op)
        → event_kind op ≡ runs
        → (j : ℕ) → watches (run_op_blocking kernel op k).1 j ≡ watches k j
    ran-watches op can j = run_op_blocking-keeps kernel poll watches os op k j can

    on_event :
        (op : Op)
        → event_kind op ≡ runs
        → run_op_on_event kernel op k ≡ ret (run_op_blocking kernel op k)
    on_event op can = run_op_on_event-run_op_blocking kernel op k ∙ rw can

    handle_blocked :
        (op : Op)
        → lookup e.key p.op_map ≡ some op
        → event_kind op ≡ runs
        → (e.key == notify_key) ≡ false
        → would_block (run_op_blocking kernel op k).0 ≡ true
        → Handled e p k
    unfolding process
    handle_blocked op found can new blocked =
        let (r, k₁) = run_op_blocking kernel op k in
        let (answer, k') = poll.modify fd e.key e.interest k₁ in
        let p' : Poller = record p { op_map = insert e.key op (remove e.key p.op_map) } in
        let same : (j : ℕ) → lookup j p'.op_map ≡ lookup j p.op_map = λ j. ground (
          arith,
          found,
          lookup-insert e.key j op (remove e.key p.op_map),
          lookup-remove e.key j p.op_map,
        ) in
        let kept : (j : ℕ) → watches k' j ≡ watches k j = λ j.
          os.rearms fd e.key e.interest k₁ timeless (ran-watches op can e.key ∙ seen ∙ rw timeless)
            j
          ∙ ran-watches op can j in
        stays answer p' k' (ground (arith, new, v.valid.has, has, found, on_event op can, blocked))
          (IsSound-shrunk watches p p' k k' v
            (record {
              started = v.valid.started;
              fds = v.valid.fds;
              has = v.valid.has;
              agree = λ j. v.valid.agree j ∙ ap is_some (sym (same j));
            })
            (λ j. refl) same (λ j. inl (kept j)))
          same kept refl refl

    handle_over :
        (op : Op)
        → lookup e.key p.op_map ≡ some op
        → event_kind op ≡ runs
        → (e.key == notify_key) ≡ false
        → would_block (run_op_blocking kernel op k).0 ≡ false
        → Handled e p k
    unfolding process
    handle_over op found can new over =
        let (r, k₁) = run_op_blocking kernel op k in
        let (k', gone, left) =
          os.deletes fd e.key k₁ (ran-watches op can e.key ∙ seen ∙ rw timeless) in
        let p' : Poller = record p {
          op_map = remove e.key p.op_map;
          fd_map = some (remove e.key v.valid.fds);
          completed = p.completed ++ (record { op_id = e.key; result = r }) ∷ [];
        } in
        let ops : (j : ℕ) → lookup j p'.op_map ≡ (if e.key == j then none else lookup j p.op_map) =
          λ j. lookup-remove e.key j p.op_map in
        let less : (j : ℕ) → watches k' j ≡ (if e.key == j then none else watches k j) =
          λ j. ground (arith, left j, ran-watches op can j) in
        ends r p' k'
          (ground (arith, new, v.valid.has, has, found, on_event op can, over, timeless, gone))
          (record {
            valid = record {
              started = v.valid.started;
              fds = remove e.key v.valid.fds;
              has = refl;
              agree =
                  λ j. ground (arith, v.valid.agree j, lookup-remove e.key j v.valid.fds, ops j);
            };
            known = λ j w is.
                ground (arith, is, less j, v.known j w, lookup-remove e.key j v.valid.fds);
            runnable = λ j o at. ground (arith, at, ops j, v.runnable j o);
          })
          (ap is_some found) ops less refl refl

    pub handle : Handled e p k
    unfolding process
    handle = elim (Bool-cases (e.key == notify_key)) [
      | inl own ↦ stays (ok tt) p k (rw (own, process) refl) v (λ j. refl) (λ j. refl) refl refl
      | inr new ↦
          let (op, found) =
            is_some-some (lookup e.key p.op_map) (sym (v.valid.agree e.key) ∙ ap is_some has) in
          let can = v.runnable e.key op found in
          elim (Bool-cases (would_block (run_op_blocking kernel op k).0)) [
            | inl blocked ↦ handle_blocked op found can new blocked
            | inr over ↦ handle_over op found can new over
          ]
    ]
