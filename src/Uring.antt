-- ===== src/Uring.antt =====
-- lio-uring/src/lib.rs: the submission and the completion side of a ring.
-- The C library liburing is the record `Liburing`: each function returns its number, with what it
-- writes through its pointers and the new world. `ring_flags` is the field `flags` of `LioUring`,
-- `sqe_head`, `sqe_tail`, `khead` and `kflags` read the ring, of which the kernel's thread may
-- change the last two, and `publish` writes the tail for it. Making a ring and
-- registering its buffers and files is in Uring/Setup.
pub mod Entries
pub mod Completions
pub mod Selection
pub mod Setup
use Prim.Native.Nat.{bit_and}
use lio.Base.{
  not, ◌+◌, ◌-◌, ◌%◌, ◌^◌, ℕ, suc, Bool, true, false, Option, none, some, List, [], ◌∷◌, ◌≡◌, ℤ,
  pos, negsuc, ◌==◌, if◌then◌else◌, IoError, os, would_block, IoResult, ok, err, ◌<◌, ◌++◌,
}
use lio.Op.{Duration, Pointer}
use lio.Syscall.{eagain}
use lio.Uring.Entries.{Sqe}

-- `Completion`, which has the fields of the kernel's entry.
pub record Completion : Type 0 where
  pub user_data : ℕ
  pub res : ℤ
  pub flags : ℕ

-- `Params`, of which the kernel is told all; the queue of completions has no size of its own.
pub record Params : Type 0 where
  pub sq_entries : ℕ
  pub flags : ℕ
  pub sq_thread_cpu : ℕ
  pub sq_thread_idle : ℕ

-- `get_sqe` says whether its pointer is not null, `write_sqe` writes through that pointer; `peek_cqe`
-- may leave its pointer null.
pub record Liburing (K : Type 0) : Type 0 where
  pub queue_init_params : Params → K → ℤ × K
  pub queue_exit : K → K
  pub register_buffers : List (Pointer × ℕ) → K → ℤ × K
  pub unregister_buffers : K → ℤ × K
  pub register_files : List ℤ → K → ℤ × K
  pub register_files_update : ℕ → List ℤ → K → ℤ × K
  pub unregister_files : K → ℤ × K
  pub sq_space_left : K → ℕ
  pub cq_ready : K → ℕ
  pub get_sqe : K → Bool × K
  pub write_sqe : Sqe → K → K
  pub ring_flags : K → ℕ
  pub sqe_head : K → ℕ
  pub sqe_tail : K → ℕ
  pub publish : ℕ → K → K
  pub khead : K → ℕ × K
  pub kflags : K → ℕ × K
  pub submit : K → ℤ × K
  pub submit_and_wait : K → ℤ × K
  pub wait_cqe : K → ℤ × Completion × K
  pub wait_cqe_timeout : Duration → K → ℤ × Completion × K
  pub peek_cqe : K → ℤ × Option Completion × K
  pub cqe_seen : K → K

-- `ETIME` of Linux.
abbrev pub etime : ℕ
etime = 62

module _ {K : Type 0} (lib : Liburing K) where
  unfoldable pub push_with_flags : Sqe → ℕ → ℕ → K → IoResult (Unit {0}) × K
  push_with_flags entry user_data flags k =
      let (found, k') = lib.get_sqe k in
      if found
      then (ok tt, lib.write_sqe (record entry { user_data = user_data; flags = flags }) k')
      else (err would_block, k')

  -- `SqeFlags::NONE` is 0.
  unfoldable pub push : Sqe → ℕ → K → IoResult (Unit {0}) × K
  unfolding push_with_flags
  push entry user_data k = push_with_flags entry user_data 0 k

  -- A result of the library below 0 is an errno.
  abbrev counted : ℤ × K → IoResult ℕ × K
  counted (pos n, k) = (ok n, k)
  counted (negsuc n, k) = (err (os (suc n)), k)

  -- `IORING_SETUP_SQPOLL` is 2.
  unfoldable pub is_sqpoll : K → Bool
  is_sqpoll k = not (bit_and (lib.ring_flags k) 2 == 0)

  -- The entries up to the tail are made visible to the kernel's thread.
  abbrev published : K → K
  published k = if lib.sqe_head k == lib.sqe_tail k then k else lib.publish (lib.sqe_tail k) k

  -- The path of the kernel's thread, which `IORING_SQ_NEED_WAKEUP`, 1, says is asleep.
  unfoldable pub submit_sqpoll : K → IoResult ℕ × K
  submit_sqpoll k =
      let (head, k') = lib.khead (published k) in
      let pending = (lib.sqe_tail k + (2 ^ 32 - head % 2 ^ 32)) % 2 ^ 32 in
      if pending == 0
      then (ok 0, k')
      else let (flags, k'') = lib.kflags k' in
        if bit_and flags 1 == 0 then (ok pending, k'') else counted (lib.submit k'')

  unfoldable pub submit : K → IoResult ℕ × K
  unfolding is_sqpoll submit_sqpoll
  submit k = if is_sqpoll k then submit_sqpoll k else counted (lib.submit_and_wait k)

  unfoldable pub wait : K → IoResult Completion × K
  wait k =
      let (r, cqe, k') = lib.wait_cqe k in
      elim r [ pos _ ↦ (ok cqe, lib.cqe_seen k') | negsuc n ↦ (err (os (suc n)), k') ]

  unfoldable pub wait_timeout : Duration → K → IoResult (Option Completion) × K
  wait_timeout timeout k =
      let (r, cqe, k') = lib.wait_cqe_timeout timeout k in
      elim r [
        | pos _ ↦ (ok (some cqe), lib.cqe_seen k')
        | negsuc n ↦ if suc n == etime then (ok none, k') else (err (os (suc n)), k')
      ]

  unfoldable pub peek : K → IoResult (Option Completion) × K
  peek k =
      let (r, cqe, k') = lib.peek_cqe k in
      elim r [
        | pos _ ↦ (ok cqe, k')
        | negsuc n ↦ if suc n == eagain then (ok none, k') else (err (os (suc n)), k')
      ]

  unfoldable pub try_wait : K → IoResult (Option Completion) × K
  try_wait k =
      let (r, cqe, k') = lib.peek_cqe k in
      elim r [
        | pos _ ↦ elim cqe [ none ↦ (ok none, k') | some c ↦ (ok (some c), lib.cqe_seen k') ]
        | negsuc n ↦ if suc n == eagain then (ok none, k') else (err (os (suc n)), k')
      ]

-- Between the worlds `k` and `k'` the kernel may have posted more completions, `posted` being all that
-- it ever did; of those that were or became ready, `taken` are gone and the others are ready still.
pub record IsBetween {K : Type 0} (posted ready : K → List Completion) (k : K)
    (taken : List Completion) (k' : K) : Type 0 where
  pub new : List Completion
  pub grows : posted k' ≡ posted k ++ new
  pub moves : ready k ++ new ≡ taken ++ ready k'

-- What liburing documents of the queue of completions, to which the kernel may add at any time: a peek
-- shows its head or is `-EAGAIN`, a completion that was seen is gone, and a wait that succeeds shows
-- the head.
pub record IsLiburing {K : Type 0} (lib : Liburing K) : Type 0 where
  pub posted : K → List Completion
  pub ready : K → List Completion
  pub seen :
      (k : K) (c : Completion) (cs : List Completion)
      → ready k ≡ c ∷ cs
      → IsBetween posted ready k (c ∷ []) (lib.cqe_seen k)
  pub peeks :
      (k : K) (c : Completion) (cs : List Completion)
      → ready k ≡ c ∷ cs
      → (k' : K) × (lib.peek_cqe k ≡ (pos 0, some c, k')) × IsBetween posted ready k [] k'
  pub nothing :
      (k : K)
      → ready k ≡ []
      → (k' : K) × (lib.peek_cqe k ≡ (negsuc 10, none, k')) × IsBetween posted ready k [] k'
  pub waits :
      (k k' : K) (r : ℕ) (c : Completion)
      → lib.wait_cqe k ≡ (pos r, c, k')
      → (cs : List Completion) × (ready k' ≡ c ∷ cs)
  pub times :
      (d : Duration) (k k' : K) (r : ℕ) (c : Completion)
      → lib.wait_cqe_timeout d k ≡ (pos r, c, k')
      → (cs : List Completion) × (ready k' ≡ c ∷ cs)
