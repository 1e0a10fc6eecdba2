-- ===== src/Poller/Lawful.antt =====
-- The readiness backend keeps the contract of a backend, over an operating system that keeps its own.
use lio.Base.{ℕ, ◌≡◌, refl, Bool, true, Option, some, [], arith, IoResult, ok, err, min}
use lio.Base.Assoc.{lookup-nil}
use lio.Op.{Op, RawFd}
use lio.Contract.{IsBackend, IsExactBackend, TakesOn-Pushes, Starts, starts, stops, flushed}
use lio.Syscall.{Kernel}
use lio.Poller.{Poller, ReadinessPoll}
use lio.Poller.Backend.{backend, init, flush}
use lio.Poller.Selector.{IsSelector}
use lio.Poller.Soundness.{IsSound, owed}
use lio.Poller.Accepting.{supported, push-TakesOn}
use lio.Poller.Reporting.{wait_timeout-Waits}

module _ {K : Type 0} (kernel : Kernel K) (poll : ReadinessPoll K)
    (watches : K → ℕ → Option (RawFd × Bool)) (os : IsSelector kernel poll watches) where
  init-Starts :
      (cap : ℕ) (p : Poller) (k : K)
      → (answer : IoResult (Unit {0}) × K) → poll.new k ≡ answer
      → Starts (backend kernel poll) (λ s. IsSound watches s.0 s.1) owed cap (p, k)
  unfolding backend init
  init-Starts cap p k (err x, k') a = stops x (p, k') (ground (arith, a))
  init-Starts cap p k (ok u, k') a =
      let p' : Poller = record {
        sys = true;
        fd_map = some [];
        op_map = [];
        events = min cap 4096;
        immediate = [];
        completed = [];
      } in
      starts (p', k') (ground (arith, a))
        (record {
          valid = record {
            started = refl;
            fds = [];
            has = refl;
            agree = λ j. ground (arith, lookup-nil {V = RawFd} j, lookup-nil {V = Op} j);
          };
          known = λ j w seen. absurd (ground (arith, seen, os.opens k k' a j));
          runnable = λ j op at. absurd (ground (arith, at, lookup-nil {V = Op} j));
        })
        (λ j. ground (arith, lookup-nil {V = Op} j))

  poller-IsBackend :
      IsBackend
        (backend kernel poll)
        (λ s. IsSound watches s.0 s.1)
        owed
        (λ s. Unit)
        (λ op. supported op ≡ true)
  unfolding backend flush
  poller-IsBackend = record {
    inits = λ cap s fresh. init-Starts cap s.0 s.1 _ refl;
    pushes = λ id op s v allowed free.
        TakesOn-Pushes (backend kernel poll) (λ s. IsSound watches s.0 s.1) owed id op s
          (push-TakesOn kernel poll watches os id op s v allowed free);
    flushes = λ s v. flushed (ok 0) s refl v (λ j. omega arith);
    waits = λ timeout s v. wait_timeout-Waits kernel poll watches os timeout s v;
  }

  -- Whatever the operating system watches, as long as it keeps its contract, the readiness backend
  -- keeps the contract of a backend for every operation but `connect`, `timeout` and `tee`: no call
  -- panics; an operation that is accepted adds exactly one completion, for its key, to what is owed;
  -- and none is reported that is not owed.
  pub poller-IsExactBackend :
      IsExactBackend
        (backend kernel poll)
        (λ s. IsSound watches s.0 s.1)
        owed
        (λ s. Unit)
        (λ op. supported op ≡ true)
  poller-IsExactBackend = record {
    keeps = poller-IsBackend;
    takes_on = λ id op s v allowed free. push-TakesOn kernel poll watches os id op s v allowed free;
  }
