-- ===== src/Poller/Epoll.antt =====
-- lio/src/backends/impls/pollingv2/os/epoll.rs: the operating system's poller on Linux.
-- The system calls are the record `EpollKernel`, each an `io::Result` as `syscall!` makes it.
-- An `OwnedFd` that is dropped is closed, in the reverse order of the locals, or in the order of the
-- fields of the poller.
pub mod Notifying
pub mod Opening
pub mod Making
pub mod Waking
pub mod Compaction
pub mod Events
use Prim.Native.Nat.{bit_and, bit_or}
use lio.Base.{
  ℕ, zero, suc, ◌+◌, ◌^◌, Bool, true, false, not, ◌&&◌, ◌||◌, Option, none, some, List, [], ◌∷◌,
  map, length, ◌==◌, if◌then◌else◌, get_elem?, set, take, IoError, os, IoResult, ok, err,
}
use lio.Op.{RawFd, Duration, is_zero}
use lio.Interest
use lio.Interest.{Interest, is_readable, is_writable}
use lio.Store.{notify_key}
use lio.Syscall.{ebadf, enoent}
use lio.Poller.{Event, ReadinessPoll}
use lio.Poller.Epoll.Notifying
use lio.Poller.Epoll.Notifying.{NotifierKernel, Notifier, as_fd, new_notifier, clear, drop_notifier}

-- `libc::epoll_event`.
pub record EpollEvent : Type 0 where
  pub events : ℕ
  pub u64 : ℕ

pub data EpollOp : Type 0 where
  ctl_add ctl_mod ctl_del : EpollOp

-- The calls made, with the world before and after. `epoll_pwait2` is given the length of the
-- buffer and returns the events that it wrote at its front.
pub record EpollKernel (K : Type 0) : Type 0 where
  pub epoll_create : K → IoResult RawFd × K
  pub timerfd_create : K → IoResult RawFd × K
  pub epoll_ctl : RawFd → EpollOp → RawFd → Option EpollEvent → K → IoResult (Unit {0}) × K
  pub timerfd_settime : RawFd → Duration → K → IoResult (Unit {0}) × K
  pub epoll_pwait : RawFd → ℕ → Option Duration → K → IoResult (List EpollEvent) × K
  pub notifying : NotifierKernel K

pub record OsPoller : Type 0 where
  pub epoll_fd : RawFd
  pub notifier : Notifier
  pub timer_fd : Option RawFd

-- `EPOLLIN`, `EPOLLOUT`, `EPOLLERR`, `EPOLLHUP`, `EPOLLRDHUP`, `EPOLLONESHOT` of Linux.
abbrev pub epollin : ℕ
epollin = 0x1

abbrev pub epollout : ℕ
epollout = 0x4

abbrev pub epollerr : ℕ
epollerr = 0x8

abbrev pub epollhup : ℕ
epollhup = 0x10

abbrev pub epollrdhup : ℕ
epollrdhup = 0x2000

abbrev pub epolloneshot : ℕ
epolloneshot = 0x40000000

-- The word that `add` and `modify` make of an interest.
abbrev pub word_of : Bool → Bool → ℕ
word_of readable writable =
    let in_set = if readable then bit_or 0 epollin else 0 in
    let out_set = if writable then bit_or in_set epollout else in_set in bit_or out_set epolloneshot

unfoldable pub event_word : Interest → ℕ
event_word interest = word_of (is_readable interest) (is_writable interest)

abbrev pub has_flag : ℕ → ℕ → Bool
has_flag events flag = not (bit_and events flag == 0)

-- The table at the end of `event_interest`.
abbrev pub interest_of : Bool → Bool → Interest
interest_of true true = Interest.read_and_write
interest_of true false = Interest.read
interest_of false true = Interest.write
interest_of false false = Interest.read

unfoldable pub event_interest : EpollEvent → Interest
event_interest e =
    let error_or_hup =
      (has_flag e.events epollhup || has_flag e.events epollerr) || has_flag e.events epollrdhup in
    interest_of (has_flag e.events epollin || error_or_hup) (has_flag e.events epollout)

-- `Events::get_event`.
abbrev pub get_event : EpollEvent → Event
get_event e = record { key = e.u64; interest = event_interest e }

-- The loop that leaves out the events of `NOTIFY_KEY`, in place: `n` more to read, from `read_idx`
-- on, into `write_idx`. The result is the buffer and the last `write_idx`.
unfoldable pub compact : List EpollEvent → ℕ → ℕ → ℕ → List EpollEvent × ℕ
compact events zero read_idx write_idx = (events, write_idx)
compact events (suc n) read_idx write_idx = elim (get_elem? events read_idx) [
  | none ↦ (events, write_idx)
  | some e ↦ elim (e.u64 == notify_key) [
    | true ↦ compact events n (read_idx + 1) write_idx
    | false ↦
        compact (if write_idx == read_idx then events else set events write_idx e) n (read_idx + 1)
          (write_idx + 1)
  ]
]

-- The timeout of `epoll_pwait2`: the timer keeps time, unless there is none.
unfoldable pub pwait_timeout : Option RawFd → Option Duration → Option Duration
pwait_timeout timer_fd none = none
pwait_timeout timer_fd (some t) =
    if is_zero t
    then some (record { secs = 0; nanos = 0 })
    else (elim timer_fd [ none ↦ some t | some _ ↦ none ])

-- The value for which the timer is set; zero disarms it.
abbrev pub timer_value : Option Duration → Duration
timer_value none = record { secs = 0; nanos = 0 }
timer_value (some t) = t

-- `delete` takes a descriptor that is not open for one that is not registered.
unfoldable pub not_found : IoResult (Unit {0}) → IoResult (Unit {0})
not_found (ok u) = ok u
not_found (err (os e)) = err (os (if e == ebadf then enoent else e))
not_found (err e) = err e

module _ {K : Type 0} (kernel : EpollKernel K) where
  unfoldable pub add : OsPoller → RawFd → ℕ → Interest → K → IoResult (Unit {0}) × K
  add p fd key interest k =
      kernel.epoll_ctl p.epoll_fd ctl_add fd
        (some (record { events = event_word interest; u64 = key })) k

  unfoldable pub modify : OsPoller → RawFd → ℕ → Interest → K → IoResult (Unit {0}) × K
  modify p fd key interest k =
      kernel.epoll_ctl p.epoll_fd ctl_mod fd
        (some (record { events = event_word interest; u64 = key })) k

  unfoldable pub delete : OsPoller → RawFd → K → IoResult (Unit {0}) × K
  unfolding not_found
  delete p fd k =
      let (deleted, k') = kernel.epoll_ctl p.epoll_fd ctl_del fd none k in (not_found deleted, k')

  unfoldable pub delete_timer : OsPoller → ℕ → K → IoResult (Unit {0}) × K
  delete_timer p key k = (err (os enoent), k)

  -- `Drop for OsPoller`, whose results are ignored. The timer is taken, and closed at once; the
  -- fields are closed after it.
  unfoldable pub drop_poller : OsPoller → K → K
  unfolding delete as_fd drop_notifier
  drop_poller p k =
      let k₁ : K = elim p.timer_fd [
        | none ↦ k
        | some fd ↦ kernel.notifying.close fd (delete p fd k).1
      ] in
      let k₂ : K = (delete p (as_fd p.notifier) k₁).1 in
      drop_notifier kernel.notifying p.notifier (kernel.notifying.close p.epoll_fd k₂)

  unfoldable pub or_drop_poller : OsPoller → IoResult (Unit {0}) × K → IoResult OsPoller × K
  unfolding drop_poller
  or_drop_poller p (ok u, k) = (ok p, k)
  or_drop_poller p (err e, k) = (err e, drop_poller p k)

  -- The end of `OsPoller::new`: the timer and the notifier are watched.
  unfoldable pub watch_notifier : OsPoller → IoResult (Unit {0}) × K → IoResult OsPoller × K
  unfolding add drop_poller or_drop_poller as_fd
  watch_notifier p (err e, k) = (err e, drop_poller p k)
  watch_notifier p (ok u, k) =
      or_drop_poller p (add p (as_fd p.notifier) notify_key Interest.read k)

  unfoldable pub watch_own : OsPoller → K → IoResult OsPoller × K
  unfolding add watch_notifier
  watch_own p k = elim p.timer_fd [
    | none ↦ watch_notifier p (ok tt, k)
    | some fd ↦ watch_notifier p (add p fd notify_key Interest.none_set k)
  ]

  -- `OsPoller::new`, by the answers of `timerfd_create`, `Notifier::new` and `epoll_create1`.
  unfoldable pub with_timer : RawFd → Notifier → IoResult RawFd × K → IoResult OsPoller × K
  unfolding watch_own drop_notifier
  with_timer epoll_fd notifier (err e, k) =
      (err e, kernel.notifying.close epoll_fd (drop_notifier kernel.notifying notifier k))
  with_timer epoll_fd notifier (ok timer_fd, k) =
      watch_own (record { epoll_fd = epoll_fd; notifier = notifier; timer_fd = some timer_fd }) k

  unfoldable pub with_notifier : RawFd → IoResult Notifier × K → IoResult OsPoller × K
  unfolding with_timer
  with_notifier epoll_fd (err e, k) = (err e, kernel.notifying.close epoll_fd k)
  with_notifier epoll_fd (ok notifier, k) = with_timer epoll_fd notifier (kernel.timerfd_create k)

  unfoldable pub with_epoll : IoResult RawFd × K → IoResult OsPoller × K
  unfolding with_notifier new_notifier
  with_epoll (err e, k) = (err e, k)
  with_epoll (ok epoll_fd, k) = with_notifier epoll_fd (new_notifier kernel.notifying k)

  unfoldable pub new : K → IoResult OsPoller × K
  unfolding with_epoll
  new k = with_epoll (kernel.epoll_create k)

  -- The timer is set, and watched.
  unfoldable pub arm_timer : OsPoller → Option Duration → K → IoResult (Unit {0}) × K
  unfolding modify
  arm_timer p timeout k = elim p.timer_fd [
    | none ↦ (ok tt, k)
    | some fd ↦
        let (armed, k') = kernel.timerfd_settime fd (timer_value timeout) k in
        elim armed [ err e ↦ (err e, k') | ok _ ↦ modify p fd notify_key Interest.read k' ]
  ]

  -- The first `write_idx` events of the buffer.
  unfoldable pub wait : OsPoller → ℕ → Option Duration → K → IoResult (List EpollEvent) × K
  unfolding arm_timer compact as_fd clear
  wait p size timeout k =
      let (armed, k₁) = arm_timer p timeout k in
      elim armed [
        | err e ↦ (err e, k₁)
        | ok _ ↦
            let (waited, k₂) =
              kernel.epoll_pwait p.epoll_fd size (pwait_timeout p.timer_fd timeout) k₁ in
            elim waited [
              | err e ↦ (err e, k₂)
              | ok found ↦
                  let (again, k₃) =
                    modify p (as_fd p.notifier) notify_key Interest.read
                      (clear kernel.notifying p.notifier k₂) in
                  let (events, n) = compact found (length found) 0 0 in
                  elim again [ err e ↦ (err e, k₃) | ok _ ↦ (ok (take n events), k₃) ]
            ]
      ]

  unfoldable pub notify : OsPoller → K → IoResult (Unit {0}) × K
  unfolding Notifying.notify
  notify p k = (ok tt, Notifying.notify kernel.notifying p.notifier k)

  -- The poller as the trait has it, where `p` is the value that `new` has made.
  unfoldable pub epoll : OsPoller → ReadinessPoll K
  unfolding new add modify delete delete_timer wait
  epoll p = record {
    new = λ k. let (made, k') = new k in elim made [ err e ↦ (err e, k') | ok _ ↦ (ok tt, k') ];
    add = add p;
    modify = modify p;
    delete = delete p;
    delete_timer = delete_timer p;
    wait = λ size timeout k.
        let (waited, k') = wait p size timeout k in
        elim waited [ err e ↦ (err e, k') | ok events ↦ (ok (map get_event events), k') ];
  }
