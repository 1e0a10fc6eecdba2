-- ===== src/Tests/EpollTests.antt =====
-- A kernel that accepts every registration and reports the notifier's event before one of its own, a
-- pipe of five bytes, and a machine on which nothing can be watched.
use lio.Base.{
  subst, ◌==◌, Bool, true, false, ◌&&◌, ◌||◌, not, ltb, negsuc, sym, ap, err, os, IoResult, zero,
  suc, Bool-cases, inl, inr, ==→≡, ℕ, ◌≤◌, ◌≡◌, ◌≢◌, refl, none, some, [], ◌∷◌, arith, All, pos, ok,
}
use lio.Store.{notify_key}
use lio.Poller.Epoll.{EpollEvent, EpollKernel, OsPoller, wait, modify, arm_timer, pwait_timeout}
use lio.Poller.Epoll.Notifying.{NotifierKernel, event_fd, pipe_ends, as_fd, clear, empty}
use lio.Op.{RawFd, same_fd}
use lio.Poller.Epoll
use lio.Poller.Epoll.Opening.{IsOpener}
use lio.Poller.Epoll.Making.{IsPollerOpener, Made, new-Made}
use lio.Poller.Epoll.Waking.{Answers, clear_ends}
use lio.Poller.Epoll.Compaction.{wait_lem}

abbrev wakes : NotifierKernel ℕ
wakes = record {
  eventfd = λ k. (ok (pos 4), k);
  pipe2 = λ k. (ok (pos 6, pos 7), k);
  pipe = λ k. (ok (pos 6, pos 7), k);
  get_fd = λ fd k. (ok 0, k);
  set_fd = λ fd flags k. (ok tt, k);
  get_fl = λ fd k. (ok 0, k);
  set_fl = λ fd flags k. (ok tt, k);
  read = λ fd size k. (ok 8, k);
  write = λ fd size k. (ok 8, k);
  close = λ fd k. k;
  rounds = 4;
}

abbrev calls : EpollKernel ℕ
calls = record {
  epoll_create = λ k. (ok (pos 3), k);
  timerfd_create = λ k. (ok (pos 5), k);
  epoll_ctl = λ epoll_fd op fd event k. (ok tt, k);
  timerfd_settime = λ fd value k. (ok tt, k);
  epoll_pwait = λ epoll_fd size timeout k.
      (ok (record { events = 1; u64 = notify_key } ∷ record { events = 5; u64 = 2 } ∷ []), k);
  notifying = wakes;
}

abbrev made : OsPoller
made = record { epoll_fd = pos 3; notifier = event_fd (pos 4); timer_fd = some (pos 5) }

wait_lem_example :
    (wait calls made 8 none 0 ≡ (ok (record { events = 5; u64 = 2 } ∷ []), 0))
    × (1 ≤ 8)
    × All (λ (e : EpollEvent). e.u64 ≢ notify_key) (record { events = 5; u64 = 2 } ∷ [])
unfolding arm_timer modify pwait_timeout as_fd clear
wait_lem_example =
    wait_lem calls made 8 none 0 0 0 0
      (record { events = 1; u64 = notify_key } ∷ record { events = 5; u64 = 2 } ∷ []) (ok tt) refl
      refl (omega arith) refl

-- A machine whose world is the next descriptor, and which of those before it are open. It has no
-- room for what an epoll instance watches.
abbrev Machine : Type 0
Machine = ℕ × (RawFd → Bool)

abbrev below : ℕ → RawFd → Bool
below c (pos m) = ltb m c
below c (negsuc m) = false

abbrev is_open : Machine → RawFd → Bool
is_open (c, f) j = f j && below c j

abbrev opened : Machine → IoResult RawFd × Machine
opened (c, f) = (ok (pos c), (suc c, λ j. same_fd (pos c) j || f j))

abbrev closed : RawFd → Machine → Machine
closed fd (c, f) = (c, λ j. not (same_fd fd j) && f j)

-- A pipe of five bytes is read two at a time.
abbrev pipe_of_five : NotifierKernel ℕ
pipe_of_five = record wakes {
  read = λ fd size k. elim k [
    | zero ↦ (err (os 11), zero)
    | suc zero ↦ (ok 1, zero)
    | suc (suc n) ↦ (ok 2, n)
  ];
  rounds = 6;
}

two_at_a_time : (w : ℕ) → Answers pipe_of_five (pos 6) (λ k. k) w (pipe_of_five.read (pos 6) 1024 w)
two_at_a_time zero = (refl, refl)
two_at_a_time (suc zero) = (omega arith, refl)
two_at_a_time (suc (suc n)) = (omega arith, omega arith)

clear_ends_example :
    (clear pipe_of_five (pipe_ends (pos 6) (pos 7)) 5 ≡ 0)
    × (empty pipe_of_five 100 (pos 6) 5 ≡ clear pipe_of_five (pipe_ends (pos 6) (pos 7)) 5)
clear_ends_example =
    clear_ends pipe_of_five (pos 6) (λ k. k) (pos 7) 100 5 two_at_a_time (omega arith) (omega arith)

abbrev machine_calls : NotifierKernel Machine
machine_calls = record {
  eventfd = opened;
  pipe2 = λ k. (err (os 24), k);
  pipe = λ k. (err (os 24), k);
  get_fd = λ fd k. (ok 0, k);
  set_fd = λ fd flags k. (ok tt, k);
  get_fl = λ fd k. (ok 0, k);
  set_fl = λ fd flags k. (ok tt, k);
  read = λ fd size k. (err (os 11), k);
  write = λ fd size k. (ok 8, k);
  close = closed;
  rounds = 1;
}

abbrev machine : EpollKernel Machine
machine = record {
  epoll_create = opened;
  timerfd_create = opened;
  epoll_ctl = λ epoll_fd op fd event k. (err (os 28), k);
  timerfd_settime = λ fd value k. (ok tt, k);
  epoll_pwait = λ epoll_fd size timeout k. (ok [], k);
  notifying = machine_calls;
}

and_assoc : (a b c : Bool) → ((a && b) && c) ≡ (a && (b && c))
and_assoc true b c = refl
and_assoc false b c = refl

below_next :
    (c : ℕ) (f : RawFd → Bool) (j : RawFd)
    → ((same_fd (pos c) j || f j) && below (suc c) j) ≡ (same_fd (pos c) j || (f j && below c j))
below_next c f (pos m) = elim (Bool-cases (c == m)) [
  | inl y ↦ let same = ==→≡ c m y in ground (arith, y, same)
  | inr n ↦ ground (arith, n)
]
below_next c f (negsuc m) = refl

-- What `opened` does, seen from its answer.
abbrev Opens : Machine → IoResult RawFd × Machine → Type 0
Opens k (ok fd, k') =
    (is_open k fd ≡ false) × ((j : RawFd) → is_open k' j ≡ (same_fd fd j || is_open k j))
Opens k (err e, k') = Unit

not_yet : (c : ℕ) (f : RawFd → Bool) → (f (pos c) && ltb c c) ≡ false
not_yet c f = elim (Bool-cases (f (pos c))) [
  | inl y ↦ ground (arith, y)
  | inr n ↦ ground (arith, n)
]

opened_lem :
    (k k' : Machine) (fd : RawFd)
    → opened k ≡ (ok fd, k')
    → (is_open k fd ≡ false) × ((j : RawFd) → is_open k' j ≡ (same_fd fd j || is_open k j))
opened_lem (c, f) k' fd e =
    let made : Opens (c, f) (opened (c, f)) = (not_yet c f, below_next c f) in
    subst (Opens (c, f)) e made

machine_calls-IsOpener : IsOpener machine_calls is_open
machine_calls-IsOpener = record {
  eventfd_opens = opened_lem;
  eventfd_fails = λ k k' e eq. cc;
  pipe2_opens = λ k k' r w eq. cc;
  pipe2_fails = λ k k' e eq j. ap (λ m. is_open m j) (sym (ap (λ m. m.1) eq));
  pipe_opens = λ k k' r w eq. cc;
  pipe_fails = λ k k' e eq j. ap (λ m. is_open m j) (sym (ap (λ m. m.1) eq));
  get_fd_keeps = λ fd k j. refl;
  set_fd_keeps = λ fd f k j. refl;
  get_fl_keeps = λ fd k j. refl;
  set_fl_keeps = λ fd f k j. refl;
  closes = λ fd k j. and_assoc (not (same_fd fd j)) (k.1 j) (below k.0 j);
}

machine-IsPollerOpener : IsPollerOpener machine is_open
machine-IsPollerOpener = record {
  notifying = machine_calls-IsOpener;
  epoll_opens = opened_lem;
  epoll_fails = λ k k' e eq. cc;
  timer_opens = opened_lem;
  timer_fails = λ k k' e eq. cc;
  ctl_keeps = λ epoll_fd op fd event k j. refl;
}

abbrev three_used : Machine
three_used = (3, λ j. true)

new-Made_example :
    Made machine is_open machine-IsPollerOpener three_used (Epoll.new machine three_used)
new-Made_example = new-Made machine is_open machine-IsPollerOpener three_used
