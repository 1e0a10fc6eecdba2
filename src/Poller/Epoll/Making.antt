-- ===== src/Poller/Epoll/Making.antt =====
-- `OsPoller::new` and its drop: which descriptors are open afterwards.
use lio.Base.{
  ◌≡◌, refl, sym, ap, ◌∙◌, Bool, true, false, not, ◌&&◌, ◌||◌, Option, none, some, arith, IoError,
  IoResult, ok, err,
}
use lio.Op.{RawFd, same_fd}
use lio.Poller.Epoll.Notifying.{Notifier, event_fd, pipe_ends, drop_notifier, as_fd}
use lio.Poller.Epoll.Opening.{IsOpener, holds, Accounted, new_notifier-Accounted, was_closed}
use lio.Poller.Epoll.{
  EpollKernel, EpollOp, ctl_del, EpollEvent, OsPoller, add, delete, drop_poller, or_drop_poller,
  watch_notifier, watch_own, with_timer, with_notifier, with_epoll, new,
}

abbrev pub timer_holds : Option RawFd → RawFd → Bool
timer_holds none j = false
timer_holds (some fd) j = same_fd fd j

-- The descriptors of a poller.
abbrev pub owns : OsPoller → RawFd → Bool
owns p j = timer_holds p.timer_fd j || (holds p.notifier j || same_fd p.epoll_fd j)

-- What the kernel does to the set of open descriptors.
pub record IsPollerOpener {K : Type 0} (kernel : EpollKernel K) (is_open : K → RawFd → Bool)
    : Type 0 where
  pub notifying : IsOpener kernel.notifying is_open
  pub epoll_opens :
      (k k' : K) (fd : RawFd)
      → kernel.epoll_create k ≡ (ok fd, k')
      → (is_open k fd ≡ false) × ((j : RawFd) → is_open k' j ≡ (same_fd fd j || is_open k j))
  pub epoll_fails :
      (k k' : K) (e : IoError)
      → kernel.epoll_create k ≡ (err e, k')
      → (j : RawFd) → is_open k' j ≡ is_open k j
  pub timer_opens :
      (k k' : K) (fd : RawFd)
      → kernel.timerfd_create k ≡ (ok fd, k')
      → (is_open k fd ≡ false) × ((j : RawFd) → is_open k' j ≡ (same_fd fd j || is_open k j))
  pub timer_fails :
      (k k' : K) (e : IoError)
      → kernel.timerfd_create k ≡ (err e, k')
      → (j : RawFd) → is_open k' j ≡ is_open k j
  pub ctl_keeps :
      (epoll_fd : RawFd) (op : EpollOp) (fd : RawFd) (event : Option EpollEvent) (k : K) (j : RawFd)
      → is_open (kernel.epoll_ctl epoll_fd op fd event k).1 j ≡ is_open k j

-- Closing a set of descriptors that was opened.
undone : (a o : Bool) → (a ≡ true → o ≡ false) → (not a && (a || o)) ≡ o
undone true o h = sym (h refl)
undone false o h = refl

grouped : (t n e o : Bool) → (t || (n || (e || o))) ≡ ((t || (n || e)) || o)
grouped true n e o = refl
grouped false true e o = refl
grouped false false e o = refl

undone_three :
    (t n e o : Bool)
    → (t ≡ true → (n || (e || o)) ≡ false)
    → (n ≡ true → (e || o) ≡ false)
    → (e ≡ true → o ≡ false)
    → (not n && (not e && (not t && (t || (n || (e || o)))))) ≡ o
undone_three true true e o h g f = ground (arith, h refl, g refl)
undone_three true false true o h g f = ground (arith, h refl)
undone_three true false false o h g f = sym (h refl)
undone_three false true true o h g f = ground (arith, g refl)
undone_three false true false o h g f = sym (g refl)
undone_three false false true o h g f = sym (f refl)
undone_three false false false o h g f = refl

module _ {K : Type 0} (kernel : EpollKernel K) (is_open : K → RawFd → Bool)
    (laws : IsPollerOpener kernel is_open) where
  -- A poller with what it has opened since `k`, or an error that has left nothing open.
  abbrev pub Made : K → IoResult OsPoller × K → Type 0
  Made k (ok p, k') = (j : RawFd) → is_open k' j ≡ (owns p j || is_open k j)
  Made k (err e, k') = (j : RawFd) → is_open k' j ≡ is_open k j

  fresh : (k : K) (fd j : RawFd) → is_open k fd ≡ false → same_fd fd j ≡ true → is_open k j ≡ false
  fresh k fd j was same = was_closed kernel.notifying is_open laws.notifying k fd j was same

  drop_notifier-closes :
      (n : Notifier) (k : K) (j : RawFd)
      → is_open (drop_notifier kernel.notifying n k) j ≡ (not (holds n j) && is_open k j)
  unfolding drop_notifier
  drop_notifier-closes (event_fd fd) k j = laws.notifying.closes fd k j
  drop_notifier-closes (pipe_ends r w) k j =
      ground
        (arith, laws.notifying.closes w (kernel.notifying.close r k) j, laws.notifying.closes r k j)

  drop_poller-closes :
      (e t : RawFd) (n : Notifier) (k : K) (j : RawFd)
      → is_open (drop_poller kernel (record { epoll_fd = e; notifier = n; timer_fd = some t }) k) j
        ≡ (not (holds n j) && (not (same_fd e j) && (not (same_fd t j) && is_open k j)))
  unfolding drop_poller delete
  drop_poller-closes e t n k j =
      let k₁ : K = (kernel.epoll_ctl e ctl_del t none k).1 in
      let k₂ : K = kernel.notifying.close t k₁ in
      let k₃ : K = (kernel.epoll_ctl e ctl_del (as_fd n) none k₂).1 in
      let k₄ : K = kernel.notifying.close e k₃ in
      let shut : is_open k₃ j ≡ (not (same_fd t j) && is_open k j) =
        laws.ctl_keeps _ _ _ _ k₂ j
        ∙ laws.notifying.closes t k₁ j
        ∙ ap (λ o. not (same_fd t j) && o) (laws.ctl_keeps _ _ _ _ k j) in
      drop_notifier-closes n k₄ j
      ∙ ap (λ o. not (holds n j) && o)
          (laws.notifying.closes e k₃ j ∙ ap (λ o. not (same_fd e j) && o) shut)

  -- The descriptors of a poller are open that were not open at `k`.
  record Held (k : K) (e t : RawFd) (n : Notifier) (k' : K) : Type 0 where
    pub epoll_new : (j : RawFd) → same_fd e j ≡ true → is_open k j ≡ false
    pub notifier_new : (j : RawFd) → holds n j ≡ true → (same_fd e j || is_open k j) ≡ false
    pub timer_new :
        (j : RawFd) → same_fd t j ≡ true → (holds n j || (same_fd e j || is_open k j)) ≡ false
    pub now_open :
        (j : RawFd) → is_open k' j ≡ (same_fd t j || (holds n j || (same_fd e j || is_open k j)))

  abbrev poller_of : RawFd → RawFd → Notifier → OsPoller
  poller_of e t n = record { epoll_fd = e; notifier = n; timer_fd = some t }

  dropped-Made :
      (k k' : K) (e t : RawFd) (n : Notifier) (x : IoError)
      → Held k e t n k'
      → Made k (err x, drop_poller kernel (poller_of e t n) k')
  dropped-Made k k' e t n x h = λ j.
      drop_poller-closes e t n k' j
      ∙ ap (λ o. not (holds n j) && (not (same_fd e j) && (not (same_fd t j) && o))) (h.now_open j)
      ∙ undone_three (same_fd t j) (holds n j) (same_fd e j) (is_open k j) (h.timer_new j)
          (h.notifier_new j) (h.epoll_new j)

  kept-Made :
      (k k' : K) (e t : RawFd) (n : Notifier) → Held k e t n k' → Made k (ok (poller_of e t n), k')
  kept-Made k k' e t n h =
      λ j. h.now_open j ∙ grouped (same_fd t j) (holds n j) (same_fd e j) (is_open k j)

  Held-ctl :
      (k k' : K) (e t : RawFd) (n : Notifier) (op : EpollOp) (fd : RawFd)
      (event : Option EpollEvent)
      → Held k e t n k'
      → Held k e t n (kernel.epoll_ctl e op fd event k').1
  Held-ctl k k' e t n op fd event h = record {
    epoll_new = h.epoll_new;
    notifier_new = h.notifier_new;
    timer_new = h.timer_new;
    now_open = λ j. laws.ctl_keeps e op fd event k' j ∙ h.now_open j;
  }

  or_drop_poller-Made :
      (k : K) (e t : RawFd) (n : Notifier) (done : IoResult (Unit {0}) × K)
      → Held k e t n done.1
      → Made k (or_drop_poller kernel (poller_of e t n) done)
  unfolding or_drop_poller
  or_drop_poller-Made k e t n (ok u, k') h = kept-Made k k' e t n h
  or_drop_poller-Made k e t n (err x, k') h = dropped-Made k k' e t n x h

  watch_notifier-Made :
      (k : K) (e t : RawFd) (n : Notifier) (done : IoResult (Unit {0}) × K)
      → Held k e t n done.1
      → Made k (watch_notifier kernel (poller_of e t n) done)
  unfolding watch_notifier add
  watch_notifier-Made k e t n (ok u, k') h =
      or_drop_poller-Made k e t n _ (Held-ctl k k' e t n _ _ _ h)
  watch_notifier-Made k e t n (err x, k') h = dropped-Made k k' e t n x h

  with_timer-Made :
      (k k₂ : K) (e : RawFd) (n : Notifier) (made : IoResult RawFd × K)
      → kernel.timerfd_create k₂ ≡ made
      → ((j : RawFd) → same_fd e j ≡ true → is_open k j ≡ false)
      → ((j : RawFd) → holds n j ≡ true → (same_fd e j || is_open k j) ≡ false)
      → ((j : RawFd) → is_open k₂ j ≡ (holds n j || (same_fd e j || is_open k j)))
      → Made k (with_timer kernel e n made)
  unfolding with_timer watch_own add
  with_timer-Made k k₂ e n (ok t, k₃) eq e_new n_new opened =
      let (was, now) = laws.timer_opens k₂ k₃ t eq in
      watch_notifier-Made k e t n _ (
        Held-ctl k k₃ e t n _ _ _ (record {
          epoll_new = e_new;
          notifier_new = n_new;
          timer_new = λ j same. sym (opened j) ∙ fresh k₂ t j was same;
          now_open = λ j. now j ∙ ap (λ o. same_fd t j || o) (opened j);
        }))
  with_timer-Made k k₂ e n (err x, k₃) eq e_new n_new opened = λ j.
      laws.notifying.closes e (drop_notifier kernel.notifying n k₃) j
      ∙ ap (λ o. not (same_fd e j) && o)
          (drop_notifier-closes n k₃ j
            ∙ ap (λ o. not (holds n j) && o) (laws.timer_fails k₂ k₃ x eq j ∙ opened j)
            ∙ undone (holds n j) _ (n_new j))
      ∙ undone (same_fd e j) _ (e_new j)

  with_notifier-Made :
      (k k₁ : K) (e : RawFd) (made : IoResult Notifier × K)
      → Accounted kernel.notifying is_open laws.notifying k₁ made
      → ((j : RawFd) → same_fd e j ≡ true → is_open k j ≡ false)
      → ((j : RawFd) → is_open k₁ j ≡ (same_fd e j || is_open k j))
      → Made k (with_notifier kernel e made)
  unfolding with_notifier
  with_notifier-Made k k₁ e (ok n, k₂) (n_new, now) e_new opened =
      with_timer-Made k k₂ e n _ refl e_new (λ j held. sym (opened j) ∙ n_new j held)
        (λ j. now j ∙ ap (λ o. holds n j || o) (opened j))
  with_notifier-Made k k₁ e (err x, k₂) same e_new opened = λ j.
      laws.notifying.closes e k₂ j
      ∙ ap (λ o. not (same_fd e j) && o) (same j ∙ opened j)
      ∙ undone (same_fd e j) _ (e_new j)

  with_epoll-Made :
      (k : K) (made : IoResult RawFd × K)
      → kernel.epoll_create k ≡ made
      → Made k (with_epoll kernel made)
  unfolding with_epoll
  with_epoll-Made k (ok e, k₁) eq =
      let (was, opened) = laws.epoll_opens k k₁ e eq in
      with_notifier-Made k k₁ e _
        (new_notifier-Accounted kernel.notifying is_open laws.notifying k₁)
        (λ j same. fresh k e j was same) opened
  with_epoll-Made k (err x, k₁) eq = laws.epoll_fails k k₁ x eq

  -- Making a poller opens its three or four descriptors, and no other; when it fails, at whatever
  -- call, what is open is what was open before.
  pub new-Made : (k : K) → Made k (new kernel k)
  unfolding new
  new-Made k = with_epoll-Made k _ refl
