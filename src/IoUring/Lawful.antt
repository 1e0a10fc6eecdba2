-- ===== src/IoUring/Lawful.antt =====
-- The io_uring backend keeps the contract of a backend, over a ring that answers each one-shot entry
-- once.
use lio.Base.{
  ℕ, zero, suc, ◌+◌, ◌≤◌, ◌%◌, ◌^◌, ◌≡◌, refl, Bool, true, false, Option, none, some, [], ◌∷◌, ℤ,
  pos, negsuc, arith, ◌==◌, if◌then◌else◌, IoError, os, IoResult, ok, err, would_block, Bool-cases,
  inl, inr, ret,
}
use lio.Op.{Op, Duration, is_zero}
use lio.Contract.{
  count, IsBackend, Starts, starts, stops, TakesOn, takes, declines, TakesOn-Pushes, IsExactBackend,
  flushed, Waits, reports, fails,
}
use lio.Uring.{
  Liburing, etime, Completion, Params, submit, submit_sqpoll, is_sqpoll, try_wait, wait,
}
use lio.Uring
use lio.Uring.Setup
use lio.Uring.Entries.{Sqe}
use lio.IoUring.{IoUring, completed_of, drain, first, backend, init, flush, wait_timeout}
use lio.Syscall.{eagain}
use lio.IoUring.OneShot.{IsOneShot, push-IsOneShot}

-- What the kernel owes for a key: the completions of the entries that were written and have not been
-- seen. A call of the library leaves it or takes away; a one-shot entry adds one for its key; a
-- completion is owed until it is seen.
pub record IsRing {K : Type 0} (lib : Liburing K) (owes : K → ℕ → ℕ) : Type 0 where
  pub opens :
      (params : Params) (k k' : K) (n : ℕ)
      → lib.queue_init_params params k ≡ (pos n, k')
      → (j : ℕ) → owes k' j ≡ 0
  pub slots : (k : K) (j : ℕ) → owes (lib.get_sqe k).1 j ≡ owes k j
  pub writes :
      (key : ℕ) (entry : Sqe) (k : K)
      → IsOneShot key entry
      → (j : ℕ) → owes (lib.write_sqe entry k) j ≡ owes k j + (if key == j then 1 else 0)
  pub publishes : (tail : ℕ) (k : K) (j : ℕ) → owes (lib.publish tail k) j ≤ owes k j
  pub heads : (k : K) (j : ℕ) → owes (lib.khead k).1 j ≤ owes k j
  pub flags : (k : K) (j : ℕ) → owes (lib.kflags k).1 j ≤ owes k j
  pub enters : (k : K) (j : ℕ) → owes (lib.submit k).1 j ≤ owes k j
  pub submits : (k : K) (j : ℕ) → owes (lib.submit_and_wait k).1 j ≤ owes k j
  pub waits :
      (k k' : K) (r : ℕ) (c : Completion)
      → lib.wait_cqe k ≡ (pos r, c, k')
      → (j : ℕ) → owes (lib.cqe_seen k') j + (if c.user_data == j then 1 else 0) ≤ owes k j
  pub waits_in_vain : (k : K) (j : ℕ) → owes (lib.wait_cqe k).2 j ≤ owes k j
  pub times :
      (d : Duration) (k k' : K) (r : ℕ) (c : Completion)
      → lib.wait_cqe_timeout d k ≡ (pos r, c, k')
      → (j : ℕ) → owes (lib.cqe_seen k') j + (if c.user_data == j then 1 else 0) ≤ owes k j
  pub times_out : (d : Duration) (k : K) (j : ℕ) → owes (lib.wait_cqe_timeout d k).2 j ≤ owes k j
  pub peeks :
      (k k' : K) (r : ℕ) (c : Completion)
      → lib.peek_cqe k ≡ (pos r, some c, k')
      → (j : ℕ) → owes (lib.cqe_seen k') j + (if c.user_data == j then 1 else 0) ≤ owes k j
  pub peeks_in_vain : (k : K) (j : ℕ) → owes (lib.peek_cqe k).2 j ≤ owes k j

abbrev pub HasRing : {K : Type 0} → IoUring × K → Type 0
HasRing s = s.0.ring ≡ true

module _ {K : Type 0} (lib : Liburing K) (owes : K → ℕ → ℕ) (ring : IsRing lib owes) where
  submit-le : (k : K) (j : ℕ) → owes (submit lib k).1 j ≤ owes k j
  unfolding submit submit_sqpoll
  submit-le k j = ground (
    arith,
    ring.submits k j,
    ring.publishes (lib.sqe_tail k) k j,
    ring.heads k j,
    ring.heads (lib.publish (lib.sqe_tail k) k) j,
    ring.flags (lib.khead k).1 j,
    ring.flags (lib.khead (lib.publish (lib.sqe_tail k) k)).1 j,
    ring.enters (lib.kflags (lib.khead k).1).1 j,
    ring.enters (lib.kflags (lib.khead (lib.publish (lib.sqe_tail k) k)).1).1 j,
  )

  -- What a call took from the queue, and what is left.
  data Takes (k : K) (answer : IoResult (Option Completion) × K) : Type 0 where
    took :
        (c : Completion) (k' : K)
        → answer ≡ (ok (some c), k')
        → ((j : ℕ) → owes k' j + (if c.user_data == j then 1 else 0) ≤ owes k j)
        → Takes k answer
    missed : (k' : K) → answer ≡ (ok none, k') → ((j : ℕ) → owes k' j ≤ owes k j) → Takes k answer
    broke :
        (e : IoError) (k' : K)
        → answer ≡ (err e, k')
        → ((j : ℕ) → owes k' j ≤ owes k j)
        → Takes k answer

  peeked-Takes :
      (k : K) (found : ℤ × Option Completion × K)
      → lib.peek_cqe k ≡ found
      → Takes k (try_wait lib k)
  unfolding try_wait
  peeked-Takes k (pos r, some c, k') e =
      took c (lib.cqe_seen k') (ground (arith, e)) (ring.peeks k k' r c e)
  peeked-Takes k (pos r, none, k') e =
      missed k' (ground (arith, e)) (λ j. ground (arith, e, ring.peeks_in_vain k j))
  peeked-Takes k (negsuc n, o, k') e = elim (Bool-cases (suc n == eagain)) [
    | inl again ↦
        missed k' (ground (arith, e, again)) (λ j. ground (arith, e, ring.peeks_in_vain k j))
    | inr other ↦
        broke (os (suc n)) k' (ground (arith, e, other))
          (λ j. ground (arith, e, ring.peeks_in_vain k j))
  ]

  timed-Takes :
      (d : Duration) (k : K) (found : ℤ × Completion × K)
      → lib.wait_cqe_timeout d k ≡ found
      → Takes k (Uring.wait_timeout lib d k)
  unfolding Uring.wait_timeout
  timed-Takes d k (pos r, c, k') e =
      took c (lib.cqe_seen k') (ground (arith, e)) (ring.times d k k' r c e)
  timed-Takes d k (negsuc n, c, k') e = elim (Bool-cases (suc n == etime)) [
    | inl over ↦ missed k' (ground (arith, e, over)) (λ j. ground (arith, e, ring.times_out d k j))
    | inr other ↦
        broke (os (suc n)) k' (ground (arith, e, other))
          (λ j. ground (arith, e, ring.times_out d k j))
  ]

  waited-Takes :
      (k : K) (found : ℤ × Completion × K) → lib.wait_cqe k ≡ found → Takes k (first lib none k)
  unfolding first wait
  waited-Takes k (pos r, c, k') e =
      took c (lib.cqe_seen k') (ground (arith, e)) (ring.waits k k' r c e)
  waited-Takes k (negsuc n, c, k') e =
      broke (os (suc n)) k' (ground (arith, e)) (λ j. ground (arith, e, ring.waits_in_vain k j))

  first-Takes : (timeout : Option Duration) (k : K) → Takes k (first lib timeout k)
  unfolding first
  first-Takes none k = waited-Takes k _ refl
  first-Takes (some d) k = elim (Bool-cases (is_zero d)) [
    | inl zero_now ↦ rw zero_now (peeked-Takes k _ refl)
    | inr limited ↦ rw limited (timed-Takes d k _ refl)
  ]

  drain-le :
      (fuel : ℕ) (k : K) (j : ℕ)
      → owes (drain lib fuel k).1 j + count j (drain lib fuel k).0 ≤ owes k j
  unfolding drain
  drain-le zero k j = omega arith
  drain-le (suc fuel) k j = elim (peeked-Takes k _ refl) [
    | took c k' e less ↦ ground (arith, e, less j, drain-le fuel k' j)
    | missed k' e less ↦ ground (arith, e, less j)
    | broke x k' e less ↦ ground (arith, e, less j)
  ]

  -- For any fuel of the loop.
  wait_timeout-Waits :
      (fuel : ℕ) (timeout : Option Duration) (s : IoUring × K)
      → HasRing s
      → Waits (backend lib fuel) HasRing (λ s. owes s.1) timeout s
  unfolding backend wait_timeout
  wait_timeout-Waits fuel timeout (b, k) on = elim (first-Takes timeout k) [
    | took c k' e less ↦
        let (rest, k'') = drain lib fuel k' in
        reports (completed_of c ∷ rest) (record b { completed = completed_of c ∷ rest }, k'')
          (ground (arith, on, e)) on (λ j. ground (arith, less j, drain-le fuel k' j))
    | missed k' e less ↦
        reports [] (record b { completed = [] }, k') (ground (arith, on, e)) on
          (λ j. ground (arith, less j))
    | broke x k' e less ↦ fails x (record b { completed = [] }, k') (ground (arith, on, e)) on less
  ]

  push-TakesOn :
      (fuel id : ℕ) (op : Op) (s : IoUring × K) (found : Bool × K)
      → HasRing s
      → lib.get_sqe s.1 ≡ found
      → TakesOn (backend lib fuel) HasRing (λ s. owes s.1) id op s
  unfolding backend
  push-TakesOn fuel id op (b, k) (true, k') on e =
      let (entry, once, run) = push-IsOneShot lib id op b k k' true on e in
      takes (b, lib.write_sqe entry k') run on
        (λ j. ground (arith, e, ring.slots k j, ring.writes id entry k' once j))
  push-TakesOn fuel id op (b, k) (false, k') on e =
      let (entry, once, run) = push-IsOneShot lib id op b k k' false on e in
      declines would_block (b, k') run on (λ j. ground (arith, e, ring.slots k j))

  init-Starts :
      (fuel cap : ℕ) (b : IoUring) (k : K) (made : ℤ × K)
      → b.ring ≡ false
      → lib.queue_init_params (record Setup.default { sq_entries = cap % 2 ^ 32 }) k ≡ made
      → Starts (backend lib fuel) HasRing (λ s. owes s.1) cap (b, k)
  unfolding backend init Setup.new Setup.with_params
  init-Starts fuel cap b k (pos n, k') off e =
      starts (record { ring = true; completed = [] }, k') (ground (arith, off, e)) refl
        (ring.opens _ k k' n e)
  init-Starts fuel cap b k (negsuc n, k') off e =
      stops (os (suc n)) (b, k') (ground (arith, off, e))

  uring-IsBackend :
      (fuel : ℕ)
      → IsBackend (backend lib fuel) HasRing (λ s. owes s.1) (λ s. s.0.ring ≡ false) (λ op. Unit)
  unfolding backend flush
  uring-IsBackend fuel = record {
    inits = λ cap s off. init-Starts fuel cap s.0 s.1 _ off refl;
    pushes = λ id op s on allowed free.
        TakesOn-Pushes (backend lib fuel) HasRing (λ s. owes s.1) id op s
          (push-TakesOn fuel id op s _ on refl);
    flushes = λ s on.
        let (r, k') = submit lib s.1 in flushed r (s.0, k') (ground (arith, on)) on (submit-le s.1);
    waits = λ timeout s on. wait_timeout-Waits fuel timeout s on;
  }

  push_answers :
      (fuel id : ℕ) (op : Op) (b : IoUring) (k : K) (found : Bool × K)
      → b.ring ≡ true
      → lib.get_sqe k ≡ found
      → (s : IoUring × K) × ((backend lib fuel).push id op (b, k)
          ≡ ret ((if found.0 then ok tt else err would_block), s))
  unfolding backend
  push_answers fuel id op b k (true, k') on e =
      let (entry, once, run) = push-IsOneShot lib id op b k k' true on e in
      ((b, lib.write_sqe entry k'), run)
  push_answers fuel id op b k (false, k') on e =
      let (entry, once, run) = push-IsOneShot lib id op b k k' false on e in ((b, k'), run)

  -- Over a ring that owes one completion for each one-shot entry written to it, the io_uring backend
  -- keeps the contract of a backend for every operation and whatever fuel its loop has. Once it has
  -- its ring, no call panics; an operation is accepted if the queue has a slot, and then adds exactly
  -- one completion, for its key, to what is owed; it is refused with `WouldBlock` if the queue is
  -- full, and adds none; and no completion is reported that is not owed.
  pub uring-IsExactBackend :
      (fuel id : ℕ) (op : Op) (s : IoUring × K)
      → HasRing s
      → IsExactBackend
          (backend lib fuel)
          HasRing
          (λ s. owes s.1)
          (λ s. s.0.ring ≡ false)
          (λ op. Unit)
        × (s' : IoUring × K) × ((backend lib fuel).push id op s
            ≡ ret ((if (lib.get_sqe s.1).0 then ok tt else err would_block), s'))
  uring-IsExactBackend fuel id op s on =
      let (s', run) = push_answers fuel id op s.0 s.1 _ on refl in
      (
        record {
          keeps = uring-IsBackend fuel;
          takes_on = λ id op s on allowed free. push-TakesOn fuel id op s _ on refl;
        },
        s',
        run,
      )
