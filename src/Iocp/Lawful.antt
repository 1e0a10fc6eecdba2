-- ===== src/Iocp/Lawful.antt =====
-- The backend on completion ports keeps the contract of a backend, whatever Windows does.
use lio.Base.{
  ℕ, os, ◌≡◌, refl, ◌∙◌, Bool, true, Option, some, [], arith, IoResult, ok, err, Bool-cases, inl,
  inr,
}
use lio.Base.Assoc.{lookup-nil}
use lio.Op.{Duration}
use lio.Contract.{IsBackend, Starts, starts, stops, flushed, Waits, reports, fails}
use lio.Iocp.{is_null, WinCall, Handle, Windows, Iocp}
use lio.Iocp.Accepting.{HasPort, portable, push-Pushes}
use lio.Iocp.Owing.{owes, total, Pays, collect-Pays, drain_port-Pays}
use lio.Iocp.Polling.{
  backend, init, flush, wait_timeout, collect, drain_port, drained, has_completed, ensure_wsa,
  status_timeout, is_blocking,
}

module _ {K : Type 0} (win : Windows K) where
  wait_timeout-Waits :
      (fuel : ℕ) (timeout : Option Duration) (b : Iocp) (k : K) (port : Handle)
      → b.port ≡ some port
      → (r : IoResult (Unit {0})) (b' : Iocp) (k' : K)
      → collect win fuel (status_timeout timeout) (is_blocking timeout) port (drained b, k)
        ≡ (r, (b', k'))
      → ((j : ℕ) → Pays b.port j (owes b j) b')
      → Waits (backend win fuel) HasPort (λ s. owes s.0) timeout (b, k)
  unfolding backend wait_timeout
  wait_timeout-Waits fuel timeout b k port on (err e) b' k' a pays =
      fails e (b', k') (ground (arith, on, a)) (port, (pays 0).0 ∙ on)
        (λ j. ground (arith, (pays j).1))
  wait_timeout-Waits fuel timeout b k port on (ok u) b' k' a pays =
      elim (Bool-cases (has_completed b')) [
        | inl more ↦
            let (b₂, k₂) = drain_port win fuel port (b', k') in
            let paid : (j : ℕ) → Pays b'.port j (total j b') b₂ =
              λ j. drain_port-Pays win fuel port b' k' j in
            reports b₂.completed (b₂, k₂) (ground (arith, on, a, more))
              (port, (paid 0).0 ∙ (pays 0).0 ∙ on) (λ j. ground (arith, (paid j).1, (pays j).1))
        | inr nothing ↦
            reports b'.completed (b', k') (ground (arith, on, a, nothing)) (port, (pays 0).0 ∙ on)
              (λ j. ground (arith, (pays j).1))
      ]

  drained-Pays :
      (fuel timeout : ℕ) (blocking : Bool) (port : Handle) (b : Iocp) (k : K) (j : ℕ)
      → Pays b.port j (owes b j) (collect win fuel timeout blocking port (drained b, k)).1.0
  drained-Pays fuel timeout blocking port b k j =
      let (same, less) = collect-Pays win fuel timeout blocking port (drained b) k j in
      (same, omega (arith, less))

  init-Starts :
      (fuel cap : ℕ) (b : Iocp) (k : K) (r : IoResult (Unit {0})) (s : Iocp × K)
      → ensure_wsa win b k ≡ (r, s)
      → Starts (backend win fuel) HasPort (λ s. owes s.0) cap (b, k)
  unfolding backend init
  init-Starts fuel cap b k (err e) s a = stops e s (ground (arith, a))
  init-Starts fuel cap b k (ok u) (b', k') a =
      let (port, k₁) = win.call WinCall.create_port k' in
      elim (Bool-cases (is_null port)) [
        | inl failed ↦ stops (os (win.last_error k₁)) (b', k₁) (ground (arith, a, failed))
        | inr made ↦
            starts
              (
                record {
                  port = some port;
                  associated_handles = [];
                  active_ops = [];
                  stored_ops = [];
                  active_timers = [];
                  immediate = [];
                  completed = [];
                  wsa_initialized = b'.wsa_initialized;
                },
                k₁,
              )
              (ground (arith, a, made)) (port, refl)
              (λ j. ground (arith, lookup-nil {V = Handle} j))
      ]

  -- Whatever Windows reports, the backend on completion ports keeps the contract of a backend for
  -- every operation that Windows has and whatever fuel its loops have: once it has its port no
  -- call panics, an accepted operation is owed one completion at most, and none is reported that
  -- is not owed.
  pub iocp-IsBackend :
      (fuel : ℕ)
      → IsBackend (backend win fuel) HasPort (λ s. owes s.0) (λ s. Unit) (λ op. portable op ≡ true)
  unfolding backend flush
  iocp-IsBackend fuel = record {
    inits = λ cap s fresh. init-Starts fuel cap s.0 s.1 _ _ refl;
    pushes = λ id op s on allowed free. push-Pushes win fuel id op s.0 s.1 on allowed;
    flushes = λ s on. flushed (ok 0) s refl on (λ j. omega arith);
    waits = λ timeout s on.
        wait_timeout-Waits fuel timeout s.0 s.1 on.0 on.1 _ _ _ refl
          (drained-Pays fuel (status_timeout timeout) (is_blocking timeout) on.0 s.0 s.1);
  }
