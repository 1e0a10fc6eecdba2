-- ===== src/Poller/Reporting.antt =====
-- `Poller::wait_timeout` over an operating system that keeps its contract: it never panics, the state
-- stays sound, and every completion that it reports was owed.
use lio.Base.{
  ℕ, ◌+◌, ◌≤◌, ◌≡◌, ◌≢◌, refl, sym, ap, ◌∙◌, inl, Bool, true, Option, none, List, [], ◌∷◌, ◌++◌,
  append-nil, append_assoc, ℤ, ret, arith, All, length, ◌==◌, ≢→==, if◌then◌else◌, IoError,
  IoResult, ok, err,
}
use lio.Base.Assoc.{lookup}
use lio.Op.{RawFd, OpCompleted, Duration}
use lio.Contract.{count, Waits, reports, fails}
use lio.Syscall.{Kernel}
use lio.Poller.{Poller, Event, ReadinessPoll, iter}
use lio.Poller.Backend.{backend, process, process_all, wait_timeout, drained}
use lio.Poller.Consistency.{is_some}
use lio.Poller.Wait.{Settles, Settles-same, Settles-cons}
use lio.Poller.Handling.{stays, ends, handle}
use lio.Poller.Selector.{IsSelector, Reported}
use lio.Poller.Soundness.{IsSound, IsSound-shrunk, owed, queued, count-append}

Reported-same :
    (W V : ℕ → Option (RawFd × Bool)) (es : List Event)
    → ((j : ℕ) → V j ≡ W j)
    → Reported W es
    → Reported V es
Reported-same W V [] same h = tt
Reported-same W V (e ∷ es) same h =
    ((h.0.0, same e.key ∙ h.0.1), h.1, Reported-same W V es same h.2)

Reported-less :
    (W V : ℕ → Option (RawFd × Bool)) (key : ℕ) (es : List Event)
    → ((j : ℕ) → V j ≡ (if key == j then none else W j))
    → All (λ d. key ≢ d.key) es
    → Reported W es
    → Reported V es
Reported-less W V key [] less ne h = tt
Reported-less W V key (e ∷ es) less ne h = (
  (h.0.0, less e.key ∙ rw (≢→== key e.key ne.0) h.0.1),
  h.1,
  Reported-less W V key es less ne.1 h.2,
)

module _ {K : Type 0} (kernel : Kernel K) (poll : ReadinessPoll K)
    (watches : K → ℕ → Option (RawFd × Bool)) (os : IsSelector kernel poll watches) where
  -- What the loop over the events leaves behind.
  data Looped (es : List Event) (p : Poller) (k : K) : Type 0 where
    looped :
        (r : IoResult (Unit {0})) (p' : Poller) (k' : K) (done : List OpCompleted)
        → process_all kernel poll es (p, k) ≡ ret (r, (p', k'))
        → IsSound watches p' k'
        → p'.completed ≡ p.completed ++ done
        → p'.immediate ≡ p.immediate
        → ((j : ℕ) → Settles j p p' done)
        → Looped es p k

  loop_after_staying :
      (e : Event) (es : List Event) (p q : Poller) (k k₁ : K) (r : IoResult (Unit {0}))
      → process kernel poll e (p, k) ≡ ret (r, (q, k₁))
      → IsSound watches q k₁
      → ((j : ℕ) → lookup j q.op_map ≡ lookup j p.op_map)
      → q.completed ≡ p.completed
      → q.immediate ≡ p.immediate
      → Looped es q k₁
      → Looped (e ∷ es) p k
  unfolding process_all
  loop_after_staying e es p q k k₁ (err x) run v same c i rest =
      looped (err x) q k₁ [] (ground (arith, run)) v (c ∙ sym (append-nil p.completed)) i
        (λ j. inl (same j, refl))
  loop_after_staying e es p q k k₁ (ok u) run v same c i (looped r p' k' done rest v' c' i' view) =
      looped r p' k' done (ground (arith, run, rest)) v' (c' ∙ ap (λ l. l ++ done) c) (i' ∙ i)
        (λ j. Settles-same j p q p' done (same j) (view j))

  loop_after_ending :
      (e : Event) (es : List Event) (p q : Poller) (k k₁ : K) (r : ℤ)
      → process kernel poll e (p, k) ≡ ret (ok tt, (q, k₁))
      → is_some (lookup e.key p.op_map) ≡ true
      → ((j : ℕ) → lookup j q.op_map ≡ (if e.key == j then none else lookup j p.op_map))
      → q.completed ≡ p.completed ++ (record { op_id = e.key; result = r }) ∷ []
      → q.immediate ≡ p.immediate
      → Looped es q k₁
      → Looped (e ∷ es) p k
  unfolding process_all
  loop_after_ending e es p q k k₁ r run had less c i (looped r' p' k' done rest v' c' i' view) =
      let own : OpCompleted = record { op_id = e.key; result = r } in
      looped r' p' k' (own ∷ done) (ground (arith, run, rest)) v'
        (c' ∙ ap (λ l. l ++ done) c ∙ append_assoc p.completed _ done) (i' ∙ i)
        (λ j. Settles-cons j p q p' own done had (less j) (view j))

  process_all-Looped :
      (es : List Event) (p : Poller) (k : K)
      → IsSound watches p k
      → Reported (watches k) es
      → Looped es p k
  unfolding process_all
  process_all-Looped [] p k v h =
      looped (ok tt) p k [] refl v (sym (append-nil p.completed)) refl (λ j. inl (refl, refl))
  process_all-Looped (e ∷ es) p k v h = elim (handle kernel poll watches os e p k v h.0.0 h.0.1) [
    | stays r q k₁ run w same kept c i ↦
        loop_after_staying e es p q k k₁ r run w same c i
          (process_all-Looped es q k₁ w (Reported-same (watches k) (watches k₁) es kept h.2))
    | ends r q k₁ run w had less left c i ↦ loop_after_ending e es p q k k₁ r run had less c i (
        process_all-Looped es q k₁ w (Reported-less (watches k) (watches k₁) e.key es left h.1 h.2))
  ]

  drained-IsSound :
      (p : Poller) (k k' : K)
      → IsSound watches p k
      → ((j : ℕ) → watches k' j ≡ watches k j)
      → IsSound watches (drained p) k'
  drained-IsSound p k k' v kept =
      IsSound-shrunk watches p (drained p) k k' v
        (record {
          started = v.valid.started;
          fds = v.valid.fds;
          has = v.valid.has;
          agree = v.valid.agree;
        })
        (λ j. refl) (λ j. refl) (λ j. inl (kept j))

  -- What an operation that the loop settled is still owed, and what it was told.
  owed_settled :
      (j : ℕ) (p p' : Poller) (done : List OpCompleted)
      → Settles j (drained p) p' done
      → (if is_some (lookup j p'.op_map) then 1 else 0) + count j done
        ≤ (if is_some (lookup j p.op_map) then 1 else 0)
  owed_settled j p p' done h = ground (arith, h)

  module _ (timeout : Option Duration) (p : Poller) (k : K) (v : IsSound watches p k) where
    wait_missed :
        (x : IoError) (k' : K)
        → poll.wait p.events timeout k ≡ (err x, k')
        → (waiting : List (ℕ × ℤ)) → p.immediate ≡ waiting
        → Waits (backend kernel poll) (λ s. IsSound watches s.0 s.1) owed timeout (p, k)
    unfolding backend wait_timeout
    wait_missed x k' a [] e =
        fails x (drained p, k') (ground (arith, v.valid.started, a, e))
          (drained-IsSound p k k' v (os.misses p.events timeout k k' x a)) (λ j. ground (arith, e))
    wait_missed x k' a (c ∷ cs) e =
        reports (queued p.immediate) (drained p, k') (ground (arith, v.valid.started, a, e))
          (drained-IsSound p k k' v (os.misses p.events timeout k k' x a)) (λ j. omega arith)

    wait_after_loop :
        (found : List Event) (k₁ : K)
        → poll.wait p.events timeout k ≡ (ok found, k₁)
        → length found ≤ p.events
        → Looped (iter found) (drained p) k₁
        → Waits (backend kernel poll) (λ s. IsSound watches s.0 s.1) owed timeout (p, k)
    unfolding backend wait_timeout
    wait_after_loop found k₁ a fits (looped (err x) p' k' done run v' c i view) =
        fails x (p', k') (ground (arith, v.valid.started, a, run)) v'
          (λ j. ground (arith, owed_settled j p p' done (view j), i))
    wait_after_loop found k₁ a fits (looped (ok u) p' k' done run v' c i view) =
        reports p'.completed (p', k') (ground (arith, v.valid.started, a, run)) v'
          (λ j. ground (
            arith,
            owed_settled j p p' done (view j),
            i,
            ap (count j) c,
            count-append j (queued p.immediate) done,
          ))

    wait_answered :
        (answer : IoResult (List Event) × K)
        → poll.wait p.events timeout k ≡ answer
        → Waits (backend kernel poll) (λ s. IsSound watches s.0 s.1) owed timeout (p, k)
    wait_answered (err x, k') a = wait_missed x k' a p.immediate refl
    wait_answered (ok found, k₁) a =
        let (fits, reported, kept) = os.reports p.events timeout k k₁ found a in
        wait_after_loop found k₁ a fits
          (process_all-Looped (iter found) (drained p) k₁ (drained-IsSound p k k₁ v kept) reported)

  -- From a sound state a call returns; it leaves a sound state and takes nothing on, and what it
  -- reports it owed.
  pub wait_timeout-Waits :
      (timeout : Option Duration) (s : Poller × K)
      → IsSound watches s.0 s.1
      → Waits (backend kernel poll) (λ s. IsSound watches s.0 s.1) owed timeout s
  wait_timeout-Waits timeout (p, k) v = wait_answered timeout p k v _ refl
