-- ===== src/Poller/Kqueue/Registered.antt =====
-- Which descriptors are registered: `registered_fds` follows what the kernel was told, as epoll's
-- own table does.
use lio.Base.{
  if◌then◌else◌, neg, ℕ, ◌≡◌, refl, sym, ap, ◌∙◌, true, false, not, ◌&&◌, ◌||◌, Bool-cases, inl,
  inr, some, List, [], ◌∷◌, ◌++◌, arith, ==→≡, ==_refl, is_neg, ℤ, pos, negsuc, ret, IoError, os,
  IoResult, ok, err, Option,
}
use lio.Base.Assoc.{remove, insert}
use lio.Op.{Op, RawFd, same_fd}
use lio.Interest
use lio.Interest.{Interest, is_timer}
use lio.Syscall.{Kernel, enoent}
use lio.Poller.{Poller, run_op_blocking}
use lio.Poller.Backend.{push, route, Route, watch}
use lio.Poller.Consistency.{IsConsistent}
use lio.Poller.Kqueue.{
  OsPoller, KqueueKernel, Kevent, eexist, contains, add, delete, changes, change_interests_batched,
  first_error, submit_changes, kqueue, delete_ident, both_deleted, evfilt_read, evfilt_write,
}
use lio.Poller.Kqueue

same_fd→≡ : (a b : RawFd) → same_fd a b ≡ true → a ≡ b
same_fd→≡ (pos m) (pos n) e = ap pos (==→≡ m n e)
same_fd→≡ (negsuc m) (negsuc n) e = ap negsuc (==→≡ m n e)
same_fd→≡ (pos m) (negsuc n) e = cc
same_fd→≡ (negsuc m) (pos n) e = cc

same_fd_refl : (a : RawFd) → same_fd a a ≡ true
same_fd_refl (pos m) = ==_refl m
same_fd_refl (negsuc m) = ==_refl m

contains-remove :
    (fd j : RawFd) (s : List RawFd)
    → contains same_fd j (Kqueue.remove same_fd fd s) ≡ (not (same_fd fd j) && contains same_fd j s)
contains-remove fd j [] = ground arith
contains-remove fd j (x ∷ s) = elim (Bool-cases (same_fd x fd)) [
  | inl e ↦ let same = same_fd→≡ x fd e in ground (arith, e, same, contains-remove fd j s)
  | inr e ↦ elim (Bool-cases (same_fd x j)) [
    | inl y ↦
        let at = same_fd→≡ x j y in
        let apart : same_fd fd j ≡ false = elim (Bool-cases (same_fd fd j)) [
          | inl t ↦ absurd (ground (arith, e, at ∙ sym (same_fd→≡ fd j t), same_fd_refl fd))
          | inr f ↦ f
        ] in
        ground (arith, e, y, apart, contains-remove fd j s)
    | inr n ↦ ground (arith, e, n, contains-remove fd j s)
  ]
]

-- Taking a descriptor out again that was not there before.
contains-undone :
    (fd j : RawFd) (s : List RawFd)
    → contains same_fd fd s ≡ false
    → contains same_fd j (Kqueue.remove same_fd fd (fd ∷ s)) ≡ contains same_fd j s
contains-undone fd j s absent = elim (Bool-cases (same_fd fd j)) [
  | inl t ↦
      let at = same_fd→≡ fd j t in
      contains-remove fd j (fd ∷ s) ∙ rw t (sym (ap (λ x. contains same_fd x s) (sym at) ∙ absent))
  | inr f ↦ contains-remove fd j (fd ∷ s) ∙ rw f refl
]

module _ {K : Type 0} (kernel : KqueueKernel K) where
  -- A descriptor that is not registered and that the kernel accepts is registered by `add`; adding
  -- it again is refused with EEXIST without asking the kernel; `delete` unregisters it, whatever
  -- the kernel says, and deleting it again is refused with ENOENT. If the kernel refuses it, its error
  -- is returned and `add` leaves no trace. Every other descriptor `j` stays as it is throughout.
  pub delete-add :
      (fd j : RawFd) (key : ℕ) (i : Interest) (p : OsPoller) (k k' k₁ k₁' : K) (e : IoError)
      → is_timer i ≡ false
      → contains same_fd fd p.fds ≡ false
      → change_interests_batched kernel fd key i k ≡ (ok tt, k₁)
      → change_interests_batched kernel fd key i k' ≡ (err e, k₁')
      → (p₁ p₂ p₃ : OsPoller) × (r : IoResult (Unit {0})) × (k₂ : K) × (add kernel fd key i (p, k)
          ≡ (ok tt, (p₁, k₁)))
        × (contains same_fd j p₁.fds ≡ (same_fd fd j || contains same_fd j p.fds))
        × (add kernel fd key i (p₁, k₁) ≡ (err (os eexist), (p₁, k₁)))
        × (delete kernel fd (p₁, k₁) ≡ (r, (p₂, k₂)))
        × (contains same_fd j p₂.fds ≡ contains same_fd j p.fds)
        × (delete kernel fd (p₂, k₂) ≡ (err (os enoent), (p₂, k₂)))
        × (add kernel fd key i (p, k') ≡ (err e, (p₃, k₁')))
        × (contains same_fd j p₃.fds ≡ contains same_fd j p.fds)
  unfolding add delete
  delete-add fd j key i p k k' k₁ k₁' e plain absent accepted refused =
      let (read_result, k₂) = delete_ident kernel fd evfilt_read k₁ in
      let (write_result, k₃) = delete_ident kernel fd evfilt_write k₂ in
      let undone : OsPoller = record p { fds = Kqueue.remove same_fd fd (fd ∷ p.fds) } in
      (
        record p { fds = fd ∷ p.fds },
        undone,
        undone,
        both_deleted read_result write_result,
        k₃,
        ground (arith, plain, absent, accepted),
        refl,
        rw plain (rw (same_fd_refl fd) refl),
        rw (same_fd_refl fd) refl,
        contains-undone fd j p.fds absent,
        rw (contains-undone fd fd p.fds absent, absent) refl,
        ground (arith, plain, absent, refused),
        contains-undone fd j p.fds absent,
      )

abbrev watched_for : Route → Interest
watched_for (watch fd interest) = interest
watched_for other = Interest.read

watched_timeless : (op : Op) → is_timer (watched_for (route op)) ≡ false
unfolding route is_timer
watched_timeless (Op.send fd flags buffer) = refl
watched_timeless (Op.tee fd_in fd_out size) = refl
watched_timeless op = refl

watch_timeless :
    (op : Op) (fd : RawFd) (interest : Interest)
    → route op ≡ watch fd interest
    → is_timer interest ≡ false
watch_timeless op fd interest e = ap (λ r. is_timer (watched_for r)) (sym e) ∙ watched_timeless op

-- A second `send`, `recv`, `accept` or `tee` (what `push` watches for) on a descriptor that is registered
-- for another operation is not registered. It is run at once, and completed with its error if it fails
-- then, for want of data (EAGAIN) too; if it succeeds, it is completed with the error EEXIST all the
-- same.
pub second_operation_fails :
    {K : Type 0} (kernel : Kernel (OsPoller × K)) (events : KqueueKernel K) (p : Poller)
    (s : OsPoller) (k : K) (w : OsPoller × K) (id : ℕ) (op : Op) (fd : RawFd) (interest : Interest)
    (r : ℤ)
    → IsConsistent p
    → route op ≡ watch fd interest
    → contains same_fd fd s.fds ≡ true
    → run_op_blocking kernel op (s, k) ≡ (r, w)
    → (p' : Poller) × (push kernel (kqueue events) id op (p, (s, k)) ≡ ret (ok tt, (p', w)))
      × (p'.immediate ≡ p.immediate ++ (id, (if is_neg r then r else neg eexist)) ∷ [])
      × (p'.op_map ≡ remove id (insert id op p.op_map))
unfolding push kqueue add
second_operation_fails kernel events p s k w id op fd interest r v watched busy ran =
    let timeless : is_timer interest ≡ false = watch_timeless op fd interest watched in
    let p' : Poller = record p {
      op_map = remove id (insert id op p.op_map);
      fd_map = some (remove id (insert id fd v.fds));
      immediate = p.immediate ++ (id, (if is_neg r then r else neg eexist)) ∷ [];
    } in
    (p', ground (arith, watched, timeless, busy, v.has, v.started, ran), refl, refl)

-- Errors that the kernel writes into the event list of `submit_changes` are never seen.
pub submit_changes_ignores_errors :
    {K : Type 0} (kernel : KqueueKernel K) (cs : List Kevent) (k k' : K) (written : List (Option ℕ))
    (e : IoError)
    → kernel.change_with_room cs k ≡ (ok written, k')
    → first_error written ≡ err e
    → submit_changes kernel cs k ≡ (ok tt, k')
unfolding submit_changes first_error
submit_changes_ignores_errors kernel cs k k' written e done bad = ground (arith, done)
