-- ===== src/Poller/Epoll/Opening.antt =====
-- Which descriptors are open after a poller has been made, or could not be made.
use Prim.Native.Nat.{bit_or}
use lio.Base.{
  Bool-cases, inl, inr, ℕ, ◌≡◌, refl, sym, ap, ◌∙◌, Bool, true, false, not, ◌&&◌, ◌||◌, arith,
  IoError, IoResult, ok, err, pos, negsuc, ==→≡,
}
use lio.Op.{RawFd, same_fd}
use lio.Poller.Epoll.Notifying.{
  NotifierKernel, Notifier, event_fd, pipe_ends, set_cloexec, set_nonblock, or_drop, mark_write,
  mark_read, marked, unblocked, as_pipe, or_pipe, new_notifier, fd_cloexec, o_nonblock,
}

pub same_fd→≡ : (a b : RawFd) → same_fd a b ≡ true → a ≡ b
same_fd→≡ (pos m) (pos n) e = ap pos (==→≡ m n e)
same_fd→≡ (negsuc m) (negsuc n) e = ap negsuc (==→≡ m n e)
same_fd→≡ (pos m) (negsuc n) e = cc
same_fd→≡ (negsuc m) (pos n) e = cc

-- The descriptors of a notifier.
abbrev pub holds : Notifier → RawFd → Bool
holds (event_fd fd) j = same_fd fd j
holds (pipe_ends r w) j = same_fd r j || same_fd w j

-- What the kernel does to the set of open descriptors: a call that makes one answers with one that
-- was closed, and nothing else changes the set but `close`.
pub record IsOpener {K : Type 0} (calls : NotifierKernel K) (is_open : K → RawFd → Bool)
    : Type 0 where
  pub eventfd_opens :
      (k k' : K) (fd : RawFd)
      → calls.eventfd k ≡ (ok fd, k')
      → (is_open k fd ≡ false) × ((j : RawFd) → is_open k' j ≡ (same_fd fd j || is_open k j))
  pub eventfd_fails :
      (k k' : K) (e : IoError)
      → calls.eventfd k ≡ (err e, k')
      → (j : RawFd) → is_open k' j ≡ is_open k j
  pub pipe2_opens :
      (k k' : K) (r w : RawFd)
      → calls.pipe2 k ≡ (ok (r, w), k')
      → (is_open k r ≡ false)
        × (is_open k w ≡ false)
        × ((j : RawFd) → is_open k' j ≡ ((same_fd r j || same_fd w j) || is_open k j))
  pub pipe2_fails :
      (k k' : K) (e : IoError)
      → calls.pipe2 k ≡ (err e, k')
      → (j : RawFd) → is_open k' j ≡ is_open k j
  pub pipe_opens :
      (k k' : K) (r w : RawFd)
      → calls.pipe k ≡ (ok (r, w), k')
      → (is_open k r ≡ false)
        × (is_open k w ≡ false)
        × ((j : RawFd) → is_open k' j ≡ ((same_fd r j || same_fd w j) || is_open k j))
  pub pipe_fails :
      (k k' : K) (e : IoError)
      → calls.pipe k ≡ (err e, k')
      → (j : RawFd) → is_open k' j ≡ is_open k j
  pub get_fd_keeps :
      (fd : RawFd) (k : K) (j : RawFd) → is_open (calls.get_fd fd k).1 j ≡ is_open k j
  pub set_fd_keeps :
      (fd : RawFd) (f : ℕ) (k : K) (j : RawFd) → is_open (calls.set_fd fd f k).1 j ≡ is_open k j
  pub get_fl_keeps :
      (fd : RawFd) (k : K) (j : RawFd) → is_open (calls.get_fl fd k).1 j ≡ is_open k j
  pub set_fl_keeps :
      (fd : RawFd) (f : ℕ) (k : K) (j : RawFd) → is_open (calls.set_fl fd f k).1 j ≡ is_open k j
  pub closes :
      (fd : RawFd) (k : K) (j : RawFd)
      → is_open (calls.close fd k) j ≡ (not (same_fd fd j) && is_open k j)

module _ {K : Type 0} (calls : NotifierKernel K) (is_open : K → RawFd → Bool)
    (laws : IsOpener calls is_open) where
  -- A result with the two ends that it has opened since `k`, or that has left nothing open.
  abbrev Paired : K → IoResult (RawFd × RawFd) × K → Type 0
  Paired k (ok ends, k') =
      (is_open k ends.0 ≡ false)
      × (is_open k ends.1 ≡ false)
      × ((j : RawFd) → is_open k' j ≡ ((same_fd ends.0 j || same_fd ends.1 j) || is_open k j))
  Paired k (err e, k') = (j : RawFd) → is_open k' j ≡ is_open k j

  -- The same of a notifier.
  abbrev pub Accounted : K → IoResult Notifier × K → Type 0
  Accounted k (ok n, k') =
      ((j : RawFd) → holds n j ≡ true → is_open k j ≡ false)
      × ((j : RawFd) → is_open k' j ≡ (holds n j || is_open k j))
  Accounted k (err e, k') = (j : RawFd) → is_open k' j ≡ is_open k j

  -- `fcntl` twice, by the answer of the first.
  flags-keep :
      (answer : IoResult ℕ) (k : K) (set : ℕ → K → IoResult (Unit {0}) × K) (j : RawFd)
      → ((f : ℕ) → is_open (set f k).1 j ≡ is_open k j)
      → is_open
          (elim answer as (λ _. IoResult (Unit {0}) × K) [ err e ↦ (err e, k) | ok f ↦ set f k ]).1
          j
        ≡ is_open k j
  flags-keep (err e) k set j kept = refl
  flags-keep (ok f) k set j kept = kept f

  set_cloexec-keeps :
      (fd : RawFd) (k : K) (j : RawFd) → is_open (set_cloexec calls fd k).1 j ≡ is_open k j
  unfolding set_cloexec
  set_cloexec-keeps fd k j =
      flags-keep (calls.get_fd fd k).0 (calls.get_fd fd k).1
        (λ f. calls.set_fd fd (bit_or f fd_cloexec)) j (λ f. laws.set_fd_keeps fd _ _ j)
      ∙ laws.get_fd_keeps fd k j

  set_nonblock-keeps :
      (fd : RawFd) (k : K) (j : RawFd) → is_open (set_nonblock calls fd k).1 j ≡ is_open k j
  unfolding set_nonblock
  set_nonblock-keeps fd k j =
      flags-keep (calls.get_fl fd k).0 (calls.get_fl fd k).1
        (λ f. calls.set_fl fd (bit_or f o_nonblock)) j (λ f. laws.set_fl_keeps fd _ _ j)
      ∙ laws.get_fl_keeps fd k j

  -- Closing what was opened since `k` leaves what was open at `k`.
  pub was_closed :
      (k : K) (fd j : RawFd) → is_open k fd ≡ false → same_fd fd j ≡ true → is_open k j ≡ false
  was_closed k fd j e same = ap (is_open k) (sym (same_fd→≡ fd j same)) ∙ e

  closed_again :
      (k k₁ : K) (fd j : RawFd)
      → is_open k fd ≡ false
      → is_open k₁ j ≡ (same_fd fd j || is_open k j)
      → is_open (calls.close fd k₁) j ≡ is_open k j
  closed_again k k₁ fd j e opened = elim (Bool-cases (same_fd fd j)) [
    | inl y ↦ ground (arith, y, opened, laws.closes fd k₁ j, was_closed k fd j e y)
    | inr n ↦ ground (arith, n, opened, laws.closes fd k₁ j)
  ]

  both_closed_again :
      (k k₁ : K) (r w j : RawFd)
      → is_open k r ≡ false
      → is_open k w ≡ false
      → is_open k₁ j ≡ ((same_fd r j || same_fd w j) || is_open k j)
      → is_open (calls.close r (calls.close w k₁)) j ≡ is_open k j
  both_closed_again k k₁ r w j e f opened =
      let a = laws.closes r (calls.close w k₁) j in
      let b = laws.closes w k₁ j in
      elim (Bool-cases (same_fd r j)) [
        | inl y ↦ ground (arith, y, a, was_closed k r j e y)
        | inr n ↦ elim (Bool-cases (same_fd w j)) [
          | inl z ↦ ground (arith, n, z, a, b, was_closed k w j f z)
          | inr m ↦ ground (arith, n, m, a, b, opened)
        ]
      ]

  or_drop-Paired :
      (k k₁ : K) (ends : RawFd × RawFd) (done : IoResult (Unit {0}) × K)
      → Paired k (ok ends, k₁)
      → ((j : RawFd) → is_open done.1 j ≡ is_open k₁ j)
      → Paired k (or_drop calls ends done)
  unfolding or_drop
  or_drop-Paired k k₁ (r, w) (ok u, k₂) (a, b, opened) kept = (a, b, λ j. kept j ∙ opened j)
  or_drop-Paired k k₁ (r, w) (err e, k₂) (a, b, opened) kept =
      λ j. both_closed_again k k₂ r w j a b (kept j ∙ opened j)

  mark_write-Paired :
      (k : K) (made : IoResult (RawFd × RawFd) × K)
      → Paired k made
      → Paired k (mark_write calls made)
  unfolding mark_write
  mark_write-Paired k (err e, k₁) h = h
  mark_write-Paired k (ok (r, w), k₁) h =
      or_drop-Paired k k₁ (r, w) (set_cloexec calls w k₁) h (λ j. set_cloexec-keeps w k₁ j)

  mark_read-Paired :
      (k : K) (made : IoResult (RawFd × RawFd) × K)
      → Paired k made
      → Paired k (mark_read calls made)
  unfolding mark_read
  mark_read-Paired k (err e, k₁) h = h
  mark_read-Paired k (ok (r, w), k₁) h =
      or_drop-Paired k k₁ (r, w) (set_cloexec calls r k₁) h (λ j. set_cloexec-keeps r k₁ j)

  unblocked-Paired :
      (k : K) (made : IoResult (RawFd × RawFd) × K)
      → Paired k made
      → Paired k (unblocked calls made)
  unfolding unblocked
  unblocked-Paired k (err e, k₁) h = h
  unblocked-Paired k (ok (r, w), k₁) h =
      or_drop-Paired k k₁ (r, w) (set_nonblock calls r k₁) h (λ j. set_nonblock-keeps r k₁ j)

  -- A result seen from a world with the same descriptors open.
  seen_from :
      (k k₁ : K) (made : IoResult (RawFd × RawFd) × K)
      → ((j : RawFd) → is_open k₁ j ≡ is_open k j)
      → Paired k₁ made
      → Paired k made
  seen_from k k₁ (ok (r, w), k₂) same (a, b, opened) = (
    sym (same r) ∙ a,
    sym (same w) ∙ b,
    λ j. opened j ∙ ap (λ o. (same_fd r j || same_fd w j) || o) (same j),
  )
  seen_from k k₁ (err e, k₂) same h = λ j. h j ∙ same j

  pipe-Paired : (k : K) (made : IoResult (RawFd × RawFd) × K) → calls.pipe k ≡ made → Paired k made
  pipe-Paired k (ok (r, w), k₁) e = laws.pipe_opens k k₁ r w e
  pipe-Paired k (err x, k₁) e = laws.pipe_fails k k₁ x e

  marked-Paired :
      (k : K) (made : IoResult (RawFd × RawFd) × K)
      → calls.pipe2 k ≡ made
      → Paired k (marked calls made)
  unfolding marked
  marked-Paired k (ok (r, w), k₁) e = laws.pipe2_opens k k₁ r w e
  marked-Paired k (err x, k₁) e =
      seen_from k k₁ _ (laws.pipe2_fails k k₁ x e)
        (mark_write-Paired k₁ _ (mark_read-Paired k₁ _ (pipe-Paired k₁ _ refl)))

  either_closed :
      (k : K) (r w j : RawFd)
      → is_open k r ≡ false
      → is_open k w ≡ false
      → (same_fd r j || same_fd w j) ≡ true
      → is_open k j ≡ false
  either_closed k r w j e f held = elim (Bool-cases (same_fd r j)) [
    | inl y ↦ was_closed k r j e y
    | inr n ↦ was_closed k w j f (sym (ap (λ o. o || same_fd w j) n) ∙ held)
  ]

  as_pipe-Accounted :
      (k k₁ : K) (made : IoResult (RawFd × RawFd) × K)
      → ((j : RawFd) → is_open k₁ j ≡ is_open k j)
      → Paired k₁ made
      → Accounted k (as_pipe calls made)
  unfolding as_pipe
  as_pipe-Accounted k k₁ (ok (r, w), k₂) same (a, b, opened) = (
    λ j held. either_closed k r w j (sym (same r) ∙ a) (sym (same w) ∙ b) held,
    λ j. opened j ∙ ap (λ o. (same_fd r j || same_fd w j) || o) (same j),
  )
  as_pipe-Accounted k k₁ (err e, k₂) same h = λ j. h j ∙ same j

  or_pipe-Accounted :
      (k : K) (made : IoResult RawFd × K)
      → calls.eventfd k ≡ made
      → Accounted k (or_pipe calls made)
  unfolding or_pipe
  or_pipe-Accounted k (ok fd, k₁) e =
      let (was, opened) = laws.eventfd_opens k k₁ fd e in
      (λ j same. was_closed k fd j was same, opened)
  or_pipe-Accounted k (err x, k₁) e =
      as_pipe-Accounted k k₁ _ (laws.eventfd_fails k k₁ x e)
        (unblocked-Paired k₁ _ (marked-Paired k₁ _ refl))

  -- Making a notifier opens the descriptors that it holds, which were not open, and no other; when it fails, also after
  -- a pipe was made, what is open is what was open before.
  pub new_notifier-Accounted : (k : K) → Accounted k (new_notifier calls k)
  unfolding new_notifier
  new_notifier-Accounted k = or_pipe-Accounted k _ refl
