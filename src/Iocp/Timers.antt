-- ===== src/Iocp/Timers.antt =====
-- The completion of a timeout carries its key as a number of 32 bits.
use lio.Base.{
  ℕ, suc, ◌%◌, ◌^◌, ◌≤◌, ◌≡◌, refl, ◌∙◌, ==_refl, Bool, true, false, none, some, if◌then◌else◌, ℤ,
  ret, ok, arith,
}
use lio.Base.Assoc.{lookup, insert, lookup-insert}
use lio.Op.{Op, Duration, RawFd, Pointer}
use lio.Poller.{as_millis}
use lio.Iocp.{Handle, Windows, WinCall, Status, Iocp, is_null}
use lio.Iocp.Starting.{start_timer}
use lio.Iocp.Polling.{collect, drain_port, timer_callback, timer_completion, has_completed}

-- What the port hands out of a completion that `timer_callback` posted.
abbrev pub posted : ℕ → Status
posted op_id = record {
  success = true;
  bytes = op_id % 2 ^ 32;
  key = timer_completion;
  overlapped = 0;
}

-- A timeout is started under a key of more than 32 bits, which any key is whose slot was used
-- before, and no other timeout has the lower 32 bits of it for its key: nor has one then. The callback
-- of its timer posts these bits. When the port hands that out in whatever state `c` of the backend
-- that has no timeout under these bits, either loop over the port goes on with `c` as it is, as if
-- nothing had come: no completion is recorded for it.
pub timer_of_used_slot_lost :
    {K : Type 0} (win : Windows K) (fuel id timeout : ℕ) (blocking : Bool) (d : Duration)
    (timer_fd : RawFd) (timespec : Pointer) (port timer : Handle) (r : ℤ) (b c : Iocp)
    (k k₁ k₂ k₃ k₄ k₅ : K)
    → b.port ≡ some port
    → win.create_timer port id (as_millis d % 2 ^ 32) k ≡ (r, timer, k₁)
    → is_null r ≡ false
    → 2 ^ 32 ≤ id
    → lookup (id % 2 ^ 32) b.active_timers ≡ none
    → lookup (id % 2 ^ 32) c.active_timers ≡ none
    → win.get_status port (if has_completed c then 0 else timeout) k₂ ≡ (posted id, k₃)
    → win.get_status port 0 k₄ ≡ (posted id, k₅)
    → (b' : Iocp) × (start_timer win id (Op.timeout d timer_fd timespec) b k
        ≡ ret (ok tt, (b', k₁)))
      × (lookup id b'.active_timers ≡ some timer)
      × (lookup (id % 2 ^ 32) b'.active_timers ≡ none)
      × (timer_callback win port id k
          ≡ win.call (WinCall.post_status port (posted id).bytes (posted id).key) k)
      × (collect win (suc fuel) timeout blocking port (c, k₂)
          ≡ collect win fuel timeout blocking port (c, k₃))
      × (drain_port win (suc fuel) port (c, k₄) ≡ drain_port win fuel port (c, k₅))
unfolding start_timer timer_callback collect drain_port
timer_of_used_slot_lost win fuel id timeout blocking d timer_fd timespec port timer r b c k k₁ k₂ k₃
      k₄ k₅ on made works large free missing status again =
    (
      record b {
        active_timers = insert id timer b.active_timers;
        stored_ops = insert id (Op.timeout d timer_fd timespec) b.stored_ops;
      },
      ground (arith, on, made, works),
      lookup-insert id id timer b.active_timers ∙ rw (==_refl id) refl,
      ground (arith, lookup-insert id (id % 2 ^ 32) timer b.active_timers, free, large),
      refl,
      ground (arith, status, missing),
      ground (arith, again, missing),
    )
