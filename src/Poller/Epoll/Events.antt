-- ===== src/Poller/Epoll/Events.antt =====
-- What an interest becomes on its way through the kernel's event words, and what that means for
-- timeouts.
use lio.Base.{ℕ, ◌≡◌, refl, Bool, true, false, not, ◌||◌, arith, ret, ok, some}
use lio.Base.Assoc.{insert}
use lio.Op.{Op, Duration, Resource, Pointer}
use lio.Interest
use lio.Interest.{Interest, is_readable, is_writable, is_timer, is_none}
use lio.Syscall.{Kernel}
use lio.Poller.{Poller, as_i32, as_millis}
use lio.Poller.Backend.{push}
use lio.Poller.Consistency.{IsConsistent}
use lio.Poller.Epoll.{
  EpollEvent, EpollKernel, OsPoller, ctl_add, word_of, interest_of, has_flag, epollin, epollout,
  epollerr, epollhup, epollrdhup, event_word, event_interest, epoll, epolloneshot, add,
}

read_back :
    (key : ℕ) (readable writable : Bool)
    → (is_writable (event_interest (record { events = word_of readable writable; u64 = key }))
        ≡ writable)
      × (is_readable (event_interest (record { events = word_of readable writable; u64 = key }))
          ≡ (readable || not writable))
unfolding event_interest is_writable is_readable
read_back key true true = (refl, refl)
read_back key true false = (refl, refl)
read_back key false true = (refl, refl)
read_back key false false = (refl, refl)

never_timer :
    (readable writable : Bool)
    → (is_timer (interest_of readable writable) ≡ false)
      × (is_none (interest_of readable writable) ≡ false)
unfolding is_timer is_none
never_timer true true = (refl, refl)
never_timer true false = (refl, refl)
never_timer false true = (refl, refl)
never_timer false false = (refl, refl)

-- An event that carries just the flags for which an interest was registered is read back as that
-- interest, except that one without any is read back as readable; no event is ever a timer's or
-- without interest.
pub event_interest-event_word :
    (i : Interest) (e : EpollEvent)
    → (is_writable (event_interest (record e { events = event_word i })) ≡ is_writable i)
      × (is_readable (event_interest (record e { events = event_word i }))
          ≡ (is_readable i || not (is_writable i)))
      × (is_timer (event_interest e) ≡ false)
      × (is_none (event_interest e) ≡ false)
unfolding event_interest event_word is_none
event_interest-event_word i e =
    let (w, r) = read_back e.u64 (is_readable i) (is_writable i) in
    let (t, n) =
      never_timer
        (has_flag e.events epollin
          || ((has_flag e.events epollhup || has_flag e.events epollerr)
              || has_flag e.events epollrdhup))
        (has_flag e.events epollout) in
    (w, r, t, n)

-- A timeout is registered as if its duration in milliseconds, cast to 32 bits, were a descriptor,
-- and with no flag but the one for a single event.
pub timeout_watches_descriptor :
    {K : Type 0} (kernel : Kernel K) (calls : EpollKernel K) (os : OsPoller) (id : ℕ) (d : Duration)
    (timer_fd : Resource) (timespec : Pointer) (p : Poller) (k k' : K)
    → IsConsistent p
    → calls.epoll_ctl os.epoll_fd ctl_add
        (as_i32 (as_millis d))
        (some (record { events = epolloneshot; u64 = id }))
        k
      ≡ (ok tt, k')
    → (p' : Poller) × (push kernel (epoll calls os) id (Op.timeout d timer_fd timespec) (p, k)
        ≡ ret (ok tt, (p', k')))
      × (p'.immediate ≡ p.immediate)
unfolding push epoll add event_word is_readable is_writable
timeout_watches_descriptor kernel calls os id d timer_fd timespec p k k' v made =
    let added : (epoll calls os).add (as_i32 (as_millis d)) id Interest.timer k ≡ (ok tt, k') =
      made in
    (
      record p {
        op_map = insert id (Op.timeout d timer_fd timespec) p.op_map;
        fd_map = some (insert id (as_i32 (as_millis d)) v.fds);
      },
      ground (arith, v.has, v.started, added),
      refl,
    )
