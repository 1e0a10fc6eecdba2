-- ===== src/Poller/Epoll/Waking.antt =====
-- The loop that empties the pipe of a notifier.
use lio.Base.{ℕ, zero, suc, ◌+◌, ◌≤◌, ◌<◌, ◌≡◌, refl, sym, ap, ◌∙◌, arith, IoResult, ok, err}
use lio.Op.{RawFd}
use lio.Poller.Epoll.Notifying.{NotifierKernel, pipe_ends, empty, clear}

module _ {K : Type 0} (calls : NotifierKernel K) (fd : RawFd) (left : K → ℕ) where
  -- How a pipe answers whose write end is open and that does not block: with at least one of the
  -- bytes that are left, or with an error if there are none.
  abbrev pub Answers : K → IoResult ℕ × K → Type 0
  Answers k (ok n, k') = (1 ≤ n) × (left k' + n ≡ left k)
  Answers k (err e, k') = (left k ≡ 0) × (left k' ≡ 0)

  -- One round, by its answer.
  empty_round :
      (fuel : ℕ) (k : K) (answer : IoResult ℕ × K)
      → calls.read fd 1024 k ≡ answer
      → empty calls (suc fuel) fd k
        ≡ elim answer.0 [ ok n ↦ empty calls fuel fd answer.1 | err e ↦ answer.1 ]
  unfolding empty
  empty_round fuel k answer e =
      ap (λ a. elim a.0 as (λ _. K) [ ok n ↦ empty calls fuel fd a.1 | err x ↦ a.1 ]) e

  empty_by_answer :
      (fuel more : ℕ) (k : K) (answer : IoResult ℕ × K)
      → calls.read fd 1024 k ≡ answer
      → Answers k answer
      → left k < suc fuel
      → left k < suc more
      → ((k' : K)
          → left k' < fuel
          → left k' < more
          → (left (empty calls fuel fd k') ≡ 0) × (empty calls more fd k' ≡ empty calls fuel fd k'))
      → (left (empty calls (suc fuel) fd k) ≡ 0)
        × (empty calls (suc more) fd k ≡ empty calls (suc fuel) fd k)
  empty_by_answer fuel more k (ok n, k') e (some_read, rest) enough room later =
      let (emptied, same) =
        later k' (omega (arith, some_read, rest, enough)) (omega (arith, some_read, rest, room)) in
      (
        ap left (empty_round fuel k _ e) ∙ emptied,
        empty_round more k _ e ∙ same ∙ sym (empty_round fuel k _ e),
      )
  empty_by_answer fuel more k (err x, k') e (none_left, still) enough room later = (
    ap left (empty_round fuel k _ e) ∙ still,
    empty_round more k _ e ∙ sym (empty_round fuel k _ e),
  )

  emptied_with :
      (fuel more : ℕ) (k : K)
      → ((w : K) → Answers w (calls.read fd 1024 w))
      → left k < fuel
      → left k < more
      → (left (empty calls fuel fd k) ≡ 0) × (empty calls more fd k ≡ empty calls fuel fd k)
  emptied_with zero more k answers enough room = absurd (omega (arith, enough))
  emptied_with (suc fuel) zero k answers enough room = absurd (omega (arith, room))
  emptied_with (suc fuel) (suc more) k answers enough room =
      empty_by_answer fuel more k _ refl (answers k) enough room
        (λ k' less fewer. emptied_with fuel more k' answers less fewer)

  -- A pipe that answers each reading with some of the bytes that are left, or with an error if there
  -- are none, is empty after `clear`, if there are fewer bytes than rounds; any other number of
  -- rounds that is enough gives the same, so that the loop has ended by itself.
  pub clear_ends :
      (write_pipe : RawFd) (more : ℕ) (k : K)
      → ((w : K) → Answers w (calls.read fd 1024 w))
      → left k < calls.rounds
      → left k < more
      → (left (clear calls (pipe_ends fd write_pipe) k) ≡ 0)
        × (empty calls more fd k ≡ clear calls (pipe_ends fd write_pipe) k)
  unfolding clear
  clear_ends write_pipe more k answers enough room =
      emptied_with calls.rounds more k answers enough room
