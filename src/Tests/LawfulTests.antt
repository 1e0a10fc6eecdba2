-- ===== src/Tests/LawfulTests.antt =====
-- The backends over the smallest systems that keep their contracts: a poller that can watch one
-- descriptor, and a ring that answers every entry at once.
use lio.Base.{
  ℕ, zero, suc, ◌+◌, ◌≡◌, refl, ap, inl, inr, Bool, true, false, Option, none, some, List, [], ◌∷◌,
  ◌++◌, arith, ◌==◌, if◌then◌else◌, ℤ, pos, negsuc, os, IoError, length, ◌≤◌, Bool-cases, ==_refl,
  IoResult, ok, err, drop, ret,
}
use lio.Op.{Op, RawFd}
use lio.Contract.{IsExactBackend}
use lio.Interest.{Interest, is_timer}
use lio.Interest
use lio.Syscall.{Kernel}
use lio.Store.{notify_key}
use lio.Poller.{Event, ReadinessPoll, iter}
use lio.Poller.Backend
use lio.Poller.Selector.{IsSelector, Reported}
use lio.Poller.Soundness.{IsSound, owed}
use lio.Poller.Accepting.{supported}
use lio.Poller.Lawful.{poller-IsExactBackend}
use lio.Uring.{Liburing, Completion}
use lio.Uring.Entries.{Sqe}
use lio.IoUring
use lio.IoUring.Lawful.{IsRing, HasRing, uring-IsExactBackend}

-- The descriptor that is watched, with its key.
abbrev Slot : Type 0
Slot = Option (ℕ × RawFd)

abbrev in_slot : Slot → ℕ → Option (RawFd × Bool)
in_slot none j = none
in_slot (some (key, fd)) j = if key == j then some (fd, false) else none

abbrev add_slot : RawFd → ℕ → Slot → IoResult (Unit {0}) × Slot
add_slot fd key none = (ok tt, some (key, fd))
add_slot fd key (some w) = (err (os 28), some w)

abbrev wait_slot : ℕ → Slot → IoResult (List Event) × Slot
wait_slot zero k = (ok [], k)
wait_slot (suc n) none = (ok [], none)
wait_slot (suc n) (some (key, fd)) =
    (ok (record { key = key; interest = Interest.read } ∷ []), some (key, fd))

abbrev idle_kernel : Kernel Slot
idle_kernel call k = (pos 1, 0, k)

abbrev slot : ReadinessPoll Slot
slot = record {
  new = λ k. (ok tt, none);
  add = λ fd key interest k. add_slot fd key k;
  modify = λ fd key interest k. (ok tt, k);
  delete = λ fd k. (ok tt, none);
  delete_timer = λ key k. (err (os 2), k);
  wait = λ room timeout k. wait_slot room k;
}

slot_adds :
    (fd : RawFd) (key : ℕ) (k k' : Slot)
    → add_slot fd key k ≡ (ok tt, k')
    → (j : ℕ) → in_slot k' j ≡ (if key == j then some (fd, false) else in_slot k j)
slot_adds fd key none k' e j = ground (arith, e)
slot_adds fd key (some w) k' e j = cc

slot_rejects :
    (fd : RawFd) (key : ℕ) (k k' : Slot) (x : IoError)
    → add_slot fd key k ≡ (err x, k')
    → (j : ℕ) → in_slot k' j ≡ in_slot k j
slot_rejects fd key none k' x e j = cc
slot_rejects fd key (some w) k' x e j = ground (arith, e)

slot_deletes :
    (fd : RawFd) (key : ℕ) (k : Slot)
    → in_slot k key ≡ some (fd, false)
    → (j : ℕ) → none ≡ (if key == j then none else in_slot k j)
slot_deletes fd key none e j = cc
slot_deletes fd key (some (i, w)) e j = ground (arith, e)

slot_reports :
    (room : ℕ) (k k' : Slot) (found : List Event)
    → wait_slot room k ≡ (ok found, k')
    → (length found ≤ room)
      × Reported (in_slot k') (iter found)
      × ((j : ℕ) → in_slot k' j ≡ in_slot k j)
unfolding iter is_timer
slot_reports zero k k' found e =
    let nothing : found ≡ [] = ground (arith, e) in
    let same : k' ≡ k = ground (arith, e) in rw (nothing, same) (omega arith, tt, λ j. refl)
slot_reports (suc n) none k' found e =
    let nothing : found ≡ [] = ground (arith, e) in
    let same : k' ≡ none = ground (arith, e) in rw (nothing, same) (omega arith, tt, λ j. refl)
slot_reports (suc n) (some (key, fd)) k' found e =
    let one : found ≡ record { key = key; interest = Interest.read } ∷ [] = ground (arith, e) in
    let same : k' ≡ some (key, fd) = ground (arith, e) in
    rw (one, same)
      (
        omega arith,
        elim (Bool-cases (key == notify_key)) [
          | inl own ↦ rw own tt
          | inr other ↦ rw other ((fd, rw (==_refl key) refl), tt, tt)
        ],
        λ j. refl,
      )

slot_misses :
    (room : ℕ) (k k' : Slot) (x : IoError)
    → wait_slot room k ≡ (err x, k')
    → (j : ℕ) → in_slot k' j ≡ in_slot k j
slot_misses zero k k' x e j = cc
slot_misses (suc n) none k' x e j = cc
slot_misses (suc n) (some (key, fd)) k' x e j = cc

slot-IsSelector : IsSelector idle_kernel slot in_slot
slot-IsSelector = record {
  opens = λ k k' e j. ground (arith, e);
  adds = λ fd key i k k' e timeless free j. slot_adds fd key k k' e j;
  rejects = λ fd key i k k' x e j. slot_rejects fd key k k' x e j;
  rearms = λ fd key i k timeless has j. refl;
  deletes = λ fd key k has. (none, refl, slot_deletes fd key k has);
  reports = λ room timeout k k' found e. slot_reports room k k' found e;
  misses = λ room timeout k k' x e j. slot_misses room k k' x e j;
  keeps = λ call k safe j. refl;
  shrinks = λ call k j. inl refl;
}

-- A ring that holds the completions, and writes one for each entry that it is given.
abbrev answered : Sqe → Completion
answered sqe = record { user_data = sqe.user_data; res = pos 0; flags = 0 }

abbrev no_entry : Completion
no_entry = record { user_data = 0; res = pos 0; flags = 0 }

abbrev wait_head : List Completion → ℤ × Completion × List Completion
wait_head [] = (negsuc 3, no_entry, [])
wait_head (c ∷ cs) = (pos 0, c, c ∷ cs)

abbrev peek_head : List Completion → ℤ × Option Completion × List Completion
peek_head [] = (negsuc 10, none, [])
peek_head (c ∷ cs) = (pos 0, some c, c ∷ cs)

abbrev echo : Liburing (List Completion)
echo = record {
  queue_init_params = λ params k. (pos 0, []);
  queue_exit = λ k. [];
  register_buffers = λ buffers k. (pos 0, k);
  unregister_buffers = λ k. (pos 0, k);
  register_files = λ fds k. (pos 0, k);
  register_files_update = λ offset fds k. (pos 0, k);
  unregister_files = λ k. (pos 0, k);
  sq_space_left = λ k. 8;
  cq_ready = λ k. 0;
  get_sqe = λ k. (true, k);
  write_sqe = λ sqe k. k ++ answered sqe ∷ [];
  ring_flags = λ k. 0;
  sqe_head = λ k. 0;
  sqe_tail = λ k. 0;
  publish = λ tail k. k;
  khead = λ k. (0, k);
  kflags = λ k. (0, k);
  submit = λ k. (pos 0, k);
  submit_and_wait = λ k. (pos 0, k);
  wait_cqe = wait_head;
  wait_cqe_timeout = λ d k. wait_head k;
  peek_cqe = peek_head;
  cqe_seen = drop 1;
}

abbrev held_by : List Completion → ℕ → ℕ
held_by [] j = 0
held_by (c ∷ cs) j = (if c.user_data == j then 1 else 0) + held_by cs j

held_by-append :
    (k : List Completion) (c : Completion) (j : ℕ)
    → held_by (k ++ c ∷ []) j ≡ held_by k j + (if c.user_data == j then 1 else 0)
held_by-append [] c j = omega arith
held_by-append (d ∷ k) c j = omega (arith, held_by-append k c j)

head_owed :
    (k k' : List Completion) (r : ℕ) (c : Completion)
    → wait_head k ≡ (pos r, c, k')
    → (j : ℕ) → held_by (drop 1 k') j + (if c.user_data == j then 1 else 0) ≤ held_by k j
head_owed [] k' r c e j = cc
head_owed (d ∷ ds) k' r c e j = ground (arith, e)

peek_owed :
    (k k' : List Completion) (r : ℕ) (c : Completion)
    → peek_head k ≡ (pos r, some c, k')
    → (j : ℕ) → held_by (drop 1 k') j + (if c.user_data == j then 1 else 0) ≤ held_by k j
peek_owed [] k' r c e j = cc
peek_owed (d ∷ ds) k' r c e j = ground (arith, e)

waiting_kept : (k : List Completion) (j : ℕ) → held_by (wait_head k).2 j ≤ held_by k j
waiting_kept [] j = omega arith
waiting_kept (d ∷ ds) j = omega arith

peeking_kept : (k : List Completion) (j : ℕ) → held_by (peek_head k).2 j ≤ held_by k j
peeking_kept [] j = omega arith
peeking_kept (d ∷ ds) j = omega arith

echo-IsRing : IsRing echo held_by
echo-IsRing = record {
  opens = λ params k k' n e j. ground (arith, e);
  slots = λ k j. omega arith;
  writes = λ key entry k once j. omega (
    arith,
    held_by-append k (answered entry) j,
    ap {B = ℕ} (λ u. if u == j then 1 else 0) once.keyed,
  );
  publishes = λ tail k j. omega arith;
  heads = λ k j. omega arith;
  flags = λ k j. omega arith;
  enters = λ k j. omega arith;
  submits = λ k j. omega arith;
  waits = head_owed;
  waits_in_vain = waiting_kept;
  times = λ d. head_owed;
  times_out = λ d. waiting_kept;
  peeks = peek_owed;
  peeks_in_vain = peeking_kept;
}

poller-IsExactBackend_example :
    IsExactBackend
      (Backend.backend idle_kernel slot)
      (λ s. IsSound in_slot s.0 s.1)
      owed
      (λ s. Unit)
      (λ op. supported op ≡ true)
poller-IsExactBackend_example = poller-IsExactBackend idle_kernel slot in_slot slot-IsSelector

abbrev empty_ring : IoUring.IoUring × List Completion
empty_ring = (record { ring = true; completed = [] }, [])

uring-IsExactBackend_example :
    IsExactBackend
      (IoUring.backend echo 8)
      HasRing
      (λ s. held_by s.1)
      (λ s. s.0.ring ≡ false)
      (λ op. Unit)
    × (s' : IoUring.IoUring × List Completion) × ((IoUring.backend echo 8).push 7 Op.nop empty_ring
        ≡ ret (ok tt, s'))
uring-IsExactBackend_example =
    uring-IsExactBackend echo held_by echo-IsRing 8 7 Op.nop empty_ring refl
