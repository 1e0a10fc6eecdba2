-- ===== src/Poller/Epoll/Compaction.antt =====
-- The loop of `OsPoller::wait` that drops the poller's own events, and what `wait` returns.
use lio.Base.{
  ℕ, zero, suc, ◌+◌, ◌≤◌, ◌≡◌, ◌≢◌, refl, sym, ap, ◌∙◌, inl, inr, true, false, Option, some, List,
  [], ◌∷◌, ◌++◌, append-nil, append_assoc, arith, ◌==◌, if◌then◌else◌, get_elem?, set, take, drop,
  length, length-set, take-set, drop-set, drop-get, get_elem?-lt, drop_beyond, set-same,
  get_elem?_total, Bool-cases, ==→≡, ==→≢, All, IoResult, ok, err,
}
use lio.Op.{Duration}
use lio.Interest
use lio.Store.{notify_key}
use lio.Poller.Epoll.Notifying.{as_fd, clear}
use lio.Poller.Epoll.{
  EpollEvent, EpollKernel, OsPoller, compact, wait, modify, arm_timer, pwait_timeout,
}

-- The events that are not the poller's own, in order.
abbrev pub keep : List EpollEvent → List EpollEvent
keep [] = []
keep (e ∷ es) = let rest = keep es in if e.u64 == notify_key then rest else e ∷ rest

-- What the loop is to return.
abbrev kept : List EpollEvent × ℕ → List EpollEvent
kept out = take out.1 out.0

-- The test before the write saves only a write of what is there already.
overwritten :
    (events : List EpollEvent) (w r : ℕ) (x : EpollEvent)
    → get_elem? events r ≡ some x
    → (if w == r then events else set events w x) ≡ set events w x
overwritten events w r x at = elim (Bool-cases (w == r)) [
  | inl b ↦ rw b (sym (set-same events w (ap (get_elem? events) (==→≡ w r b) ∙ at)))
  | inr b ↦ rw b refl
]

-- One round of the loop, with what the rest of it does.
module _ (n : ℕ) (events : List EpollEvent) (r w : ℕ) (x : EpollEvent)
    (at : get_elem? events r ≡ some x) (h : w ≤ r) where
  abbrev moved : List EpollEvent
  moved = if w == r then events else set events w x

  moved-length : length moved ≡ length events
  moved-length = ap length (overwritten events w r x at) ∙ length-set events w x

  skip_own :
      (x.u64 == notify_key) ≡ true
      → kept (compact events n (r + 1) w) ≡ take w events ++ keep (drop (r + 1) events)
      → kept (compact events (suc n) r w) ≡ take w events ++ keep (drop r events)
  unfolding compact
  skip_own own later =
      let split = drop-get events r (r + 1) refl at in ground (arith, at, own, split, later)

  keep_other :
      (x.u64 == notify_key) ≡ false
      → kept (compact moved n (r + 1) (w + 1)) ≡ take (w + 1) moved ++ keep (drop (r + 1) moved)
      → kept (compact events (suc n) r w) ≡ take w events ++ keep (drop r events)
  unfolding compact
  keep_other other later =
      let same = overwritten events w r x at in
      let lt = get_elem?-lt events r at in
      let front : take (w + 1) moved ≡ take w events ++ x ∷ [] =
        ap (take (w + 1)) same ∙ take-set events w (w + 1) x refl (omega (arith, lt, h)) in
      let back : drop (r + 1) moved ≡ drop (r + 1) events =
        ap (drop (r + 1)) same ∙ drop-set events w (r + 1) x (omega (arith, h)) in
      let split = drop-get events r (r + 1) refl at in
      let kept_split : keep (drop r events) ≡ x ∷ keep (drop (r + 1) events) =
        ground (arith, split, other) in
      let run : compact events (suc n) r w ≡ compact moved n (r + 1) (w + 1) =
        ground (arith, at, other) in
      ap kept run
      ∙ later
      ∙ ap (λ l. l ++ keep (drop (r + 1) moved)) front
      ∙ ap (λ l. (take w events ++ x ∷ []) ++ keep l) back
      ∙ append_assoc (take w events) (x ∷ []) (keep (drop (r + 1) events))
      ∙ ap (λ l. take w events ++ l) (sym kept_split)

compact_from :
    (n : ℕ) (events : List EpollEvent) (r w : ℕ)
    → n + r ≡ length events
    → w ≤ r
    → kept (compact events n r w) ≡ take w events ++ keep (drop r events)
unfolding compact
compact_from zero events r w e h =
    let nothing = drop_beyond events r (omega (arith, e)) in
    rw nothing (sym (append-nil (take w events)))
compact_from (suc n) events r w e h =
    let (x, at) = get_elem?_total events r (omega (arith, e)) in
    elim (Bool-cases (x.u64 == notify_key)) [
      | inl own ↦
          skip_own n events r w x at h own
            (compact_from n events (r + 1) w (omega (arith, e)) (omega (arith, h)))
      | inr other ↦
          let size = moved-length n events r w x at h in
          keep_other n events r w x at h other (
            compact_from n (moved n events r w x at h) (r + 1) (w + 1) (omega (arith, e, size))
              (omega (arith, h)))
    ]

-- The loop leaves at the front of the buffer, as many as it says, the events that are not the
-- poller's own, in their order.
pub compact_lem :
    (found : List EpollEvent)
    → take (compact found (length found) 0 0).1 (compact found (length found) 0 0).0 ≡ keep found
compact_lem found = compact_from (length found) found 0 0 (omega arith) (omega arith)

length-keep : (es : List EpollEvent) → length (keep es) ≤ length es
length-keep [] = omega arith
length-keep (e ∷ es) = ground (arith, length-keep es)

keep-All : (es : List EpollEvent) → All (λ e. e.u64 ≢ notify_key) (keep es)
keep-All [] = tt
keep-All (e ∷ es) = elim (Bool-cases (e.u64 == notify_key)) [
  | inl own ↦ rw own (keep-All es)
  | inr other ↦ rw other (==→≢ e.u64 notify_key other, keep-All es)
]

-- If the timer is armed, the kernel reports events, at most as many as asked for, and the notifier
-- is watched again, then `wait` returns the events that are not the poller's own, in order; if the
-- last step fails, it returns that error.
pub wait_lem :
    {K : Type 0} (kernel : EpollKernel K) (p : OsPoller) (size : ℕ) (timeout : Option Duration)
    (k k₁ k₂ k₃ : K) (found : List EpollEvent) (again : IoResult (Unit {0}))
    → arm_timer kernel p timeout k ≡ (ok tt, k₁)
    → kernel.epoll_pwait p.epoll_fd size (pwait_timeout p.timer_fd timeout) k₁ ≡ (ok found, k₂)
    → length found ≤ size
    → modify kernel p
        (as_fd p.notifier)
        notify_key
        Interest.read
        (clear kernel.notifying p.notifier k₂)
      ≡ (again, k₃)
    → (wait kernel p size timeout k
        ≡ elim again [ err e ↦ (err e, k₃) | ok _ ↦ (ok (keep found), k₃) ])
      × (length (keep found) ≤ size)
      × All (λ e. e.u64 ≢ notify_key) (keep found)
unfolding wait
wait_lem kernel p size timeout k k₁ k₂ k₃ found (ok u) armed waited fits rearmed = (
  ground (arith, armed, waited, rearmed, compact_lem found),
  omega (arith, length-keep found, fits),
  keep-All found,
)
wait_lem kernel p size timeout k k₁ k₂ k₃ found (err e) armed waited fits rearmed =
    (ground (arith, armed, waited, rearmed), omega (arith, length-keep found, fits), keep-All found)
