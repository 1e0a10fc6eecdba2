-- ===== src/Poller/Kqueue.antt =====
-- lio/src/backends/impls/pollingv2/os/kqueue.rs: the operating system's poller on macOS and the BSDs.
-- `kevent` stands in `KqueueKernel` once for each way it is called: with changes and no room for
-- events, with changes and room for as many events, and with room only; each is an `io::Result` as
-- `syscall!` makes it. The sets of descriptors and timers are lists. The assertions on what was just
-- inserted or removed, and that no event is returned where there is no room, are left out.
pub mod Registered
use lio.Base.{
  ℕ, Bool, true, false, not, ◌&&◌, ◌||◌, Option, none, some, List, [], ◌∷◌, ◌++◌, map, length, ◌==◌,
  if◌then◌else◌, ℤ, pos, negsuc, IoError, os, IoResult, ok, err,
}
use lio.Op.{RawFd, Duration, same_fd}
use lio.Interest
use lio.Interest.{Interest, is_readable, is_writable, is_timer}
use lio.Store.{notify_key}
use lio.Syscall.{enoent}
use lio.Poller.{Event, ReadinessPoll}

pub data Filter : Type 0 where
  evfilt_read evfilt_write evfilt_timer evfilt_user : Filter

pub data Action : Type 0 where
  add_oneshot delete_filter trigger : Action

-- `libc::kevent`: the flags (or the note) of a change are its `Action`.
pub record Kevent : Type 0 where
  pub ident : ℤ
  pub filter : Filter
  pub action : Action
  pub data_ : ℤ
  pub udata : ℕ

-- `registered_fds` and `registered_timers`.
pub record OsPoller : Type 0 where
  pub fds : List RawFd
  pub timers : List ℕ

-- An event with an error in it, as `submit_changes` reads it: `None` without `EV_ERROR`.
pub record KqueueKernel (K : Type 0) : Type 0 where
  pub kqueue : K → IoResult (Unit {0}) × K
  pub set_cloexec : K → IoResult (Unit {0}) × K
  pub new_notify : K → IoResult (Unit {0}) × K
  pub register : K → IoResult (Unit {0}) × K
  pub change : List Kevent → K → IoResult (Unit {0}) × K
  pub change_with_room : List Kevent → K → IoResult (List (Option ℕ)) × K
  pub events : ℕ → Option Duration → K → IoResult (List Kevent) × K

abbrev pub eexist : ℕ
eexist = 17

abbrev pub epipe : ℕ
epipe = 32

-- Hash sets.
module _ {A : Type 0} (eq : A → A → Bool) where
  abbrev pub contains : A → List A → Bool
  contains x [] = false
  contains x (y ∷ ys) = eq y x || contains x ys

  abbrev pub remove : A → List A → List A
  remove x [] = []
  remove x (y ∷ ys) = let rest = remove x ys in if eq y x then rest else y ∷ rest

unfoldable pub event_interest : Kevent → Interest
event_interest e = elim e.filter [
  | evfilt_read ↦ Interest.read
  | evfilt_write ↦ Interest.write
  | evfilt_timer ↦ Interest.timer
  | evfilt_user ↦ Interest.read
]

-- `Events::get_event`, with `event_key`.
abbrev pub get_event : Kevent → Event
get_event e = record { key = e.udata; interest = event_interest e }

abbrev pub is_not_found_error : IoError → Bool
is_not_found_error (os e) = e == enoent
is_not_found_error e = false

-- What `delete` makes of the deletions of both filters.
unfoldable pub both_deleted : IoResult (Unit {0}) → IoResult (Unit {0}) → IoResult (Unit {0})
both_deleted (ok u) write_result = ok tt
both_deleted (err e) (ok u) = ok tt
both_deleted (err e) (err e') =
    if not (is_not_found_error e)
    then err e
    else if not (is_not_found_error e')
    then err e'
    else ok tt

-- The loop over the errors in the events.
unfoldable pub first_error : List (Option ℕ) → IoResult (Unit {0})
first_error [] = ok tt
first_error (none ∷ es) = first_error es
first_error (some e ∷ es) =
    let rest = first_error es in
    if not (e == 0) && (not (e == enoent) && not (e == epipe)) then err (os e) else rest

module _ {K : Type 0} (kernel : KqueueKernel K) where
  -- The first error of a sequence of steps, or the empty poller.
  unfoldable pub new : OsPoller × K → IoResult (Unit {0}) × (OsPoller × K)
  new (p, k) =
      let (created, k₁) = kernel.kqueue k in
      elim created [
        | err e ↦ (err e, (p, k₁))
        | ok _ ↦
            let (set, k₂) = kernel.set_cloexec k₁ in
            elim set [
              | err e ↦ (err e, (p, k₂))
              | ok _ ↦
                  let (made, k₃) = kernel.new_notify k₂ in
                  elim made [
                    | err e ↦ (err e, (p, k₃))
                    | ok _ ↦
                        let (registered, k₄) = kernel.register k₃ in
                        elim registered [
                          | err e ↦ (err e, (p, k₄))
                          | ok _ ↦ (ok tt, (record { fds = []; timers = [] }, k₄))
                        ]
                  ]
            ]
      ]

  -- The loop runs over `eventlist`, whose length is still zero: only its spare room was written.
  unfoldable pub submit_changes : List Kevent → K → IoResult (Unit {0}) × K
  unfolding first_error
  submit_changes changes k =
      let (done, k') = kernel.change_with_room changes k in
      elim done [ err e ↦ (err e, k') | ok written ↦ (first_error [], k') ]

  -- The changes that register a descriptor or set a timer.
  unfoldable pub changes : RawFd → ℕ → Interest → List Kevent
  changes fd key interest =
      if is_timer interest
      then (record {
        ident = pos key;
        filter = evfilt_timer;
        action = add_oneshot;
        data_ = fd;
        udata = key;
      })
        ∷ []
      else (if is_readable interest
          then (record {
            ident = fd;
            filter = evfilt_read;
            action = add_oneshot;
            data_ = pos 0;
            udata = key;
          })
            ∷ []
          else [])
        ++ (if is_writable interest
            then (record {
              ident = fd;
              filter = evfilt_write;
              action = add_oneshot;
              data_ = pos 0;
              udata = key;
            })
              ∷ []
            else [])

  unfoldable pub change_interests_batched : RawFd → ℕ → Interest → K → IoResult (Unit {0}) × K
  unfolding changes
  change_interests_batched fd key interest k = elim (changes fd key interest) [
    | [] ↦ (ok tt, k)
    | c ∷ cs ↦ kernel.change (c ∷ cs) k
  ]

  -- A change that deletes, where ENOENT is success.
  unfoldable pub delete_ident : ℤ → Filter → K → IoResult (Unit {0}) × K
  delete_ident ident filter k =
      let (done, k') =
        kernel.change
          ((record {
            ident = ident;
            filter = filter;
            action = delete_filter;
            data_ = pos 0;
            udata = 0;
          })
            ∷ [])
          k in
      elim done [
        | ok _ ↦ (ok tt, k')
        | err e ↦ (if is_not_found_error e then (ok tt, k') else (err e, k'))
      ]

  unfoldable pub add : RawFd → ℕ → Interest → OsPoller × K → IoResult (Unit {0}) × (OsPoller × K)
  add fd key interest (p, k) =
      if is_timer interest
      then (if contains ◌==◌ key p.timers
          then (err (os eexist), (p, k))
          else (let (done, k') = change_interests_batched fd key interest k in
              elim done [
                | ok _ ↦ (ok tt, (record p { timers = key ∷ p.timers }, k'))
                | err e ↦ (err e, (record p { timers = remove ◌==◌ key (key ∷ p.timers) }, k'))
              ]))
      else (if contains same_fd fd p.fds
          then (err (os eexist), (p, k))
          else (let (done, k') = change_interests_batched fd key interest k in
              elim done [
                | ok _ ↦ (ok tt, (record p { fds = fd ∷ p.fds }, k'))
                | err e ↦ (err e, (record p { fds = remove same_fd fd (fd ∷ p.fds) }, k'))
              ]))

  unfoldable pub modify : RawFd → ℕ → Interest → OsPoller × K → IoResult (Unit {0}) × (OsPoller × K)
  modify fd key interest (p, k) =
      if (if is_timer interest then contains ◌==◌ key p.timers else contains same_fd fd p.fds)
      then (let (done, k') = change_interests_batched fd key interest k in (done, (p, k')))
      else (err (os enoent), (p, k))

  -- Deleting both filters: an error of one of them is passed over if the other was deleted.
  unfoldable pub delete : RawFd → OsPoller × K → IoResult (Unit {0}) × (OsPoller × K)
  unfolding delete_ident both_deleted
  delete fd (p, k) =
      if contains same_fd fd p.fds
      then (let left = record p { fds = remove same_fd fd p.fds } in
          let (read_result, k₁) = delete_ident fd evfilt_read k in
          let (write_result, k₂) = delete_ident fd evfilt_write k₁ in
          (both_deleted read_result write_result, (left, k₂)))
      else (err (os enoent), (p, k))

  unfoldable pub delete_timer : ℕ → OsPoller × K → IoResult (Unit {0}) × (OsPoller × K)
  unfolding delete_ident
  delete_timer key (p, k) =
      if contains ◌==◌ key p.timers
      then (let (done, k') = delete_ident (pos key) evfilt_timer k in
          (done, (record p { timers = remove ◌==◌ key p.timers }, k')))
      else (err (os enoent), (p, k))

  unfoldable pub notify : OsPoller × K → IoResult (Unit {0}) × (OsPoller × K)
  notify (p, k) =
      let (done, k') =
        kernel.change
          ((record {
            ident = pos notify_key;
            filter = evfilt_user;
            action = trigger;
            data_ = pos 0;
            udata = notify_key;
          })
            ∷ [])
          k in
      (done, (p, k'))

  unfoldable pub wait : ℕ → Option Duration → OsPoller × K → IoResult (List Event) × (OsPoller × K)
  wait room timeout (p, k) =
      let (found, k') = kernel.events room timeout k in
      elim found [ err e ↦ (err e, (p, k')) | ok es ↦ (ok (map get_event es), (p, k')) ]

  -- The implementation of `ReadinessPoll`.
  unfoldable pub kqueue : ReadinessPoll (OsPoller × K)
  unfolding new add modify delete delete_timer wait
  kqueue = record {
    new = new;
    add = add;
    modify = modify;
    delete = delete;
    delete_timer = delete_timer;
    wait = wait;
  }
