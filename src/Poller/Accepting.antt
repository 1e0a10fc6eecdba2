-- ===== src/Poller/Accepting.antt =====
-- `Poller::push` over an operating system that keeps its contract: the state stays sound, and one
-- more completion is owed at most.
use lio.Base.{
  ℕ, ◌+◌, ◌≡◌, refl, sym, ap, ◌∙◌, inl, inr, Bool, true, false, Option, none, some, List, [], ◌∷◌,
  ◌++◌, ℤ, arith, ◌==◌, if◌then◌else◌, IoResult, ok, err, is_neg, neg, Option-cases,
}
use lio.Base.Assoc.{lookup, insert, remove, lookup-insert, lookup-remove}
use lio.Op.{Op, RawFd}
use lio.Interest.{Interest, is_timer}
use lio.Interest
use lio.Contract.{count, TakesOn, takes}
use lio.Syscall.{Kernel}
use lio.Poller.{Poller, ReadinessPoll, run_op_blocking}
use lio.Poller.RunOp.{runs, event_kind}
use lio.Poller.Backend.{backend, push, route, at_once, watch, complete_now, errno_or_eio}
use lio.Poller.Consistency.{IsConsistent-insert, IsConsistent-undo, is_some}
use lio.Poller.Selector.{IsSelector}
use lio.Poller.Soundness.{IsSound, IsSound-shrunk, owed, queued, run_op_blocking-shrinks}

-- The operations that the backend can take on without a fault.
abbrev pub supported : Op → Bool
supported (Op.connect fd addr len called) = false
supported (Op.timeout duration timer_fd timespec) = false
supported (Op.tee fd_in fd_out size) = false
supported op = true

-- How `push` treats them.
data Plan (op : Op) : Type 0 where
  immediately : route op ≡ at_once → Plan op
  watching :
      (fd : RawFd) (i : Interest)
      → route op ≡ watch fd i
      → event_kind op ≡ runs
      → is_timer i ≡ false
      → Plan op
  opening : (domain ty proto : ℤ) → op ≡ Op.socket domain ty proto → Plan op

supported-Plan : (op : Op) → supported op ≡ true → Plan op
unfolding route is_timer
supported-Plan (Op.socket domain ty proto) h = opening domain ty proto refl
supported-Plan (Op.send fd flags b) h = watching fd Interest.write refl refl refl
supported-Plan (Op.recv fd flags b) h = watching fd Interest.read refl refl refl
supported-Plan (Op.accept fd addr len) h = watching fd Interest.read refl refl refl
supported-Plan (Op.connect fd addr len called) h = cc
supported-Plan (Op.timeout duration timer_fd timespec) h = cc
supported-Plan (Op.tee fd_in fd_out size) h = cc
supported-Plan op h = immediately refl

pub count-queue :
    (j id : ℕ) (r : ℤ) (l : List (ℕ × ℤ))
    → count j (queued (l ++ (id, r) ∷ [])) ≡ count j (queued l) + (if id == j then 1 else 0)
count-queue j id r [] = ground arith
count-queue j id r (c ∷ l) = ground (arith, count-queue j id r l)

module _ {K : Type 0} (kernel : Kernel K) (poll : ReadinessPoll K)
    (watches : K → ℕ → Option (RawFd × Bool)) (os : IsSelector kernel poll watches) where
  abbrev Good : Poller × K → Type 0
  Good s = IsSound watches s.0 s.1

  module _ (id : ℕ) (p : Poller) (k : K) (v : IsSound watches p k)
      (new : lookup id p.op_map ≡ none) where
    unwatched : watches k id ≡ none
    unwatched = elim (Option-cases (watches k id)) [
      | inl e ↦ e
      | inr (w, e) ↦ ground (arith, v.known id w e, v.valid.agree id, new)
    ]

    push_now : (op : Op) → route op ≡ at_once → TakesOn (backend kernel poll) Good owed id op (p, k)
    unfolding backend push
    push_now op e =
        let (r, k') = run_op_blocking kernel op k in
        takes (complete_now p id r, k') (rw (e, push))
          (IsSound-shrunk watches p _ k k' v
            (record {
              started = v.valid.started;
              fds = v.valid.fds;
              has = v.valid.has;
              agree = v.valid.agree;
            })
            (λ j. refl) (λ j. refl) (run_op_blocking-shrinks kernel poll watches os op k))
          (λ j. omega (arith, count-queue j id r p.immediate))

    push_socket :
        (domain ty proto : ℤ)
        → TakesOn (backend kernel poll) Good owed id (Op.socket domain ty proto) (p, k)
    unfolding backend push route
    push_socket domain ty proto =
        let op = Op.socket domain ty proto in
        let (r, k') = run_op_blocking kernel op k in
        let p' : Poller = record p {
          op_map = remove id (insert id op p.op_map);
          immediate = p.immediate ++ (id, r) ∷ [];
        } in
        let same : (j : ℕ) → lookup j p'.op_map ≡ lookup j p.op_map = λ j. ground (
          arith,
          lookup-remove id j (insert id op p.op_map),
          lookup-insert id j op p.op_map,
          new,
        ) in
        takes (p', k') refl
          (IsSound-shrunk watches p p' k k' v
            (record {
              started = v.valid.started;
              fds = v.valid.fds;
              has = v.valid.has;
              agree = λ j. v.valid.agree j ∙ ap is_some (sym (same j));
            })
            (λ j. refl) same (run_op_blocking-shrinks kernel poll watches os op k))
          (λ j. ground (arith, count-queue j id r p.immediate, same j))

    push_watch :
        (op : Op) (fd : RawFd) (i : Interest)
        → route op ≡ watch fd i
        → event_kind op ≡ runs
        → is_timer i ≡ false
        → (answer : IoResult (Unit {0}) × K) → poll.add fd id i k ≡ answer
        → TakesOn (backend kernel poll) Good owed id op (p, k)
    unfolding backend push
    push_watch op fd i e run timeless (ok u, k') a =
        let p' : Poller = record p {
          op_map = insert id op p.op_map;
          fd_map = some (insert id fd v.valid.fds);
        } in
        let ops : (j : ℕ) → lookup j p'.op_map ≡ (if id == j then some op else lookup j p.op_map) =
          λ j. lookup-insert id j op p.op_map in
        takes (p', k') (ground (arith, e, a, v.valid.has, v.valid.started))
          (record {
            valid = IsConsistent-insert p p' id fd op v.valid v.valid.started refl refl;
            known = λ j w seen. ground (
              arith,
              os.adds fd id i k k' a timeless unwatched j,
              seen,
              timeless,
              lookup-insert id j fd v.valid.fds,
              v.known j w,
            );
            runnable = λ j o at. ground (arith, ops j, v.runnable j o);
          })
          (λ j. ground (arith, ops j))
    push_watch op fd i e run timeless (err x, k') a =
        let (r, k'') = run_op_blocking kernel op k' in
        let r' : ℤ = if is_neg r then r else neg (errno_or_eio x) in
        let p' : Poller = record p {
          op_map = remove id (insert id op p.op_map);
          fd_map = some (remove id (insert id fd v.valid.fds));
          immediate = p.immediate ++ (id, r') ∷ [];
        } in
        let ops : (j : ℕ) → lookup j p'.op_map ≡ lookup j p.op_map = λ j. ground (
          arith,
          lookup-remove id j (insert id op p.op_map),
          lookup-insert id j op p.op_map,
          new,
        ) in
        takes (p', k'') (ground (arith, e, a, v.valid.has, v.valid.started))
          (IsSound-shrunk watches p p' k k'' v
            (IsConsistent-undo p p' id fd op v.valid v.valid.started refl refl)
            (λ j. ground (
              arith,
              lookup-remove id j (insert id fd v.valid.fds),
              lookup-insert id j fd v.valid.fds,
              new,
              v.valid.agree id,
            ))
            ops
            (λ j. ground (
              arith,
              run_op_blocking-shrinks kernel poll watches os op k' j,
              os.rejects fd id i k k' x a j,
            )))
          (λ j. ground (arith, count-queue j id r' p.immediate, ops j))

    push_supported :
        (op : Op) → supported op ≡ true → TakesOn (backend kernel poll) Good owed id op (p, k)
    push_supported op h = elim (supported-Plan op h) [
      | immediately e ↦ push_now op e
      | watching fd i e run timeless ↦ push_watch op fd i e run timeless _ refl
      | opening domain ty proto e ↦ rw e (push_socket domain ty proto)
    ]

  -- An operation that the backend supports, under a key for which it owes nothing, is taken on.
  pub push-TakesOn :
      (id : ℕ) (op : Op) (s : Poller × K)
      → Good s
      → supported op ≡ true
      → owed s id ≡ 0
      → TakesOn (backend kernel poll) Good owed id op s
  push-TakesOn id op (p, k) v h free = push_supported id p k v (ground (arith, free)) op h
