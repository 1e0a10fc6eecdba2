-- ===== src/Poller/Selector.antt =====
-- What the readiness backend relies on in the operating system: lio/src/backends/impls/pollingv2, the
-- trait `ReadinessPoll` and the kernel, as a contract about what the poller watches. `watches k j` is
-- the descriptor registered under the key `j`, and whether it is a timer.
use lio.Base.{
  ℕ, ◌≤◌, ◌≡◌, ◌≢◌, ◌⊎◌, Bool, true, false, Option, none, some, List, [], ◌∷◌, length, All, ◌==◌,
  if◌then◌else◌, IoError, ok, err,
}
use lio.Op.{RawFd, Duration}
use lio.Interest.{Interest, is_timer}
use lio.Syscall.{Syscall, Kernel}
use lio.Poller.{Event, ReadinessPoll, iter}

-- The one system call that may end a registration by itself.
abbrev pub closes : Syscall → Bool
closes (Syscall.close fd) = true
closes call = false

-- The events are of different keys that are watched, each as what it was registered for.
abbrev pub Reported : (ℕ → Option (RawFd × Bool)) → List Event → Type 0
Reported watched [] = Unit
Reported watched (e ∷ es) =
    ((fd : RawFd) × (watched e.key ≡ some (fd, is_timer e.interest)))
    × All (λ d. e.key ≢ d.key) es
    × Reported watched es

pub record IsSelector {K : Type 0} (kernel : Kernel K) (poll : ReadinessPoll K)
    (watches : K → ℕ → Option (RawFd × Bool)) : Type 0 where
  pub opens : (k k' : K) → poll.new k ≡ (ok tt, k') → (j : ℕ) → watches k' j ≡ none
  pub adds :
      (fd : RawFd) (key : ℕ) (i : Interest) (k k' : K)
      → poll.add fd key i k ≡ (ok tt, k')
      → is_timer i ≡ false
      → watches k key ≡ none
      → (j : ℕ) → watches k' j ≡ (if key == j then some (fd, false) else watches k j)
  pub rejects :
      (fd : RawFd) (key : ℕ) (i : Interest) (k k' : K) (x : IoError)
      → poll.add fd key i k ≡ (err x, k')
      → (j : ℕ) → watches k' j ≡ watches k j
  pub rearms :
      (fd : RawFd) (key : ℕ) (i : Interest) (k : K)
      → is_timer i ≡ false
      → watches k key ≡ some (fd, false)
      → (j : ℕ) → watches (poll.modify fd key i k).1 j ≡ watches k j
  pub deletes :
      (fd : RawFd) (key : ℕ) (k : K)
      → watches k key ≡ some (fd, false)
      → (k' : K) × (poll.delete fd k ≡ (ok tt, k'))
        × ((j : ℕ) → watches k' j ≡ (if key == j then none else watches k j))
  pub reports :
      (room : ℕ) (timeout : Option Duration) (k k' : K) (found : List Event)
      → poll.wait room timeout k ≡ (ok found, k')
      → (length found ≤ room)
        × Reported (watches k') (iter found)
        × ((j : ℕ) → watches k' j ≡ watches k j)
  pub misses :
      (room : ℕ) (timeout : Option Duration) (k k' : K) (x : IoError)
      → poll.wait room timeout k ≡ (err x, k')
      → (j : ℕ) → watches k' j ≡ watches k j
  pub keeps :
      (call : Syscall) (k : K)
      → closes call ≡ false
      → (j : ℕ) → watches (kernel call k).2 j ≡ watches k j
  pub shrinks :
      (call : Syscall) (k : K) (j : ℕ)
      → (watches (kernel call k).2 j ≡ watches k j) ⊎ (watches (kernel call k).2 j ≡ none)
