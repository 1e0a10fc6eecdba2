-- ===== src/Poller/Soundness.antt =====
-- The states of the readiness backend and of the operating system that fit together, and the
-- system calls that keep them so.
use lio.Base.{
  ℕ, ◌+◌, ◌≡◌, refl, sym, ◌∙◌, inr, ap, ◌⊎◌, inl, Bool, false, Option, none, some, List, [], ◌∷◌,
  ◌++◌, map, ℤ, arith, if◌then◌else◌,
}
use lio.Base.Assoc.{lookup}
use lio.Op.{Op, OpCompleted, RawFd}
use lio.Contract.{count}
use lio.Syscall.{Kernel, Syscall}
use lio.Poller.{Poller, ReadinessPoll, run_op_blocking}
use lio.Poller.RunOp.{runs, event_kind}
use lio.Poller.Consistency.{IsConsistent, is_some}
use lio.Poller.Selector.{IsSelector, closes}

abbrev pub queued : List (ℕ × ℤ) → List OpCompleted
queued l = map (λ c. record { op_id = c.0; result = c.1 }) l

-- The completions that the backend owes for a key: those in the queue, and that of the operation
-- that waits for an event.
abbrev pub owed : {K : Type 0} → Poller × K → ℕ → ℕ
owed s j = count j (queued s.0.immediate) + (if is_some (lookup j s.0.op_map) then 1 else 0)

pub count-append : (j : ℕ) (a b : List OpCompleted) → count j (a ++ b) ≡ count j a + count j b
count-append j [] b = omega arith
count-append j (c ∷ a) b = ground (arith, count-append j a b)

-- The maps agree, whatever the system watches is in them and no timer, and every operation in them
-- can be run on an event.
pub record IsSound {K : Type 0} (watches : K → ℕ → Option (RawFd × Bool)) (p : Poller) (k : K)
    : Type 0 where
  pub valid : IsConsistent p
  pub known :
      (j : ℕ) (w : RawFd × Bool)
      → watches k j ≡ some w
      → (w.1 ≡ false) × (lookup j valid.fds ≡ some w.0)
  pub runnable : (j : ℕ) (op : Op) → lookup j p.op_map ≡ some op → event_kind op ≡ runs

-- The maps read as before, and the system watches no more than before.
pub IsSound-shrunk :
    {K : Type 0} (watches : K → ℕ → Option (RawFd × Bool)) (p p' : Poller) (k k' : K)
    (v : IsSound watches p k) (v' : IsConsistent p')
    → ((j : ℕ) → lookup j v'.fds ≡ lookup j v.valid.fds)
    → ((j : ℕ) → lookup j p'.op_map ≡ lookup j p.op_map)
    → ((j : ℕ) → (watches k' j ≡ watches k j) ⊎ (watches k' j ≡ none))
    → IsSound watches p' k'
IsSound-shrunk watches p p' k k' v v' fds ops less = record {
  valid = v';
  known = λ j w e. elim (less j) [
    | inl same ↦ let (fits, has) = v.known j w (sym same ∙ e) in (fits, fds j ∙ has)
    | inr gone ↦ cc
  ];
  runnable = λ j op e. v.runnable j op (sym (ops j) ∙ e);
}

-- What running an operation at once does to the world: nothing, or one system call, which closes no
-- descriptor if an event can run the operation.
data Calls {K : Type 0} (kernel : Kernel K) (op : Op) (k : K) : Type 0 where
  idles : (run_op_blocking kernel op k).1 ≡ k → Calls kernel op k
  makes :
      (call : Syscall)
      → (run_op_blocking kernel op k).1 ≡ (kernel call k).2
      → (event_kind op ≡ runs → closes call ≡ false)
      → Calls kernel op k

run_op_blocking-Calls : {K : Type 0} (kernel : Kernel K) (op : Op) (k : K) → Calls kernel op k
unfolding run_op_blocking
run_op_blocking-Calls kernel Op.nop k = idles refl
run_op_blocking-Calls kernel (Op.close fd) k = makes (Syscall.close fd) refl (λ e. cc)
run_op_blocking-Calls kernel (Op.connect fd addr len called) k =
    makes (Syscall.connect fd addr len) (ground arith) (λ e. refl)
run_op_blocking-Calls kernel op k = makes _ refl (λ e. refl)

module _ {K : Type 0} (kernel : Kernel K) (poll : ReadinessPoll K)
    (watches : K → ℕ → Option (RawFd × Bool)) (os : IsSelector kernel poll watches) where
  -- An operation that is run makes no registration, and ends none unless it closes a descriptor.
  pub run_op_blocking-shrinks :
      (op : Op) (k : K) (j : ℕ)
      → (watches (run_op_blocking kernel op k).1 j ≡ watches k j)
        ⊎ (watches (run_op_blocking kernel op k).1 j ≡ none)
  run_op_blocking-shrinks op k j = elim (run_op_blocking-Calls kernel op k) [
    | idles e ↦ inl (ap (λ w. watches w j) e)
    | makes call e safe ↦ rw e (os.shrinks call k j)
  ]

  pub run_op_blocking-keeps :
      (op : Op) (k : K) (j : ℕ)
      → event_kind op ≡ runs
      → watches (run_op_blocking kernel op k).1 j ≡ watches k j
  run_op_blocking-keeps op k j e = elim (run_op_blocking-Calls kernel op k) [
    | idles same ↦ ap (λ w. watches w j) same
    | makes call same safe ↦ rw same (os.keeps call k (safe e) j)
  ]
