-- ===== src/Poller/Push.antt =====
-- `Poller::push`: where an operation ends up, on every branch.
use lio.Base.{
  ℕ, Bool, true, ◌≡◌, Option, none, some, List, [], ◌∷◌, ◌++◌, ℤ, ret, ◌==◌, if◌then◌else◌, IoError,
  ok, err, is_neg, neg, neg_part, ◌&&◌,
}
use lio.Base.Assoc.{lookup}
use lio.Op.{Op, RawFd}
use lio.Interest
use lio.Interest.{Interest}
use lio.Syscall.{Kernel, einprogress}
use lio.Poller.{Poller, ReadinessPoll, as_i32, as_millis, run_op_blocking}
use lio.Poller.Backend.{push, route, special, errno_or_eio}
use lio.Poller.Consistency.{IsConsistent}

-- The descriptor under which an operation is registered with the poller, and for what.
abbrev pub registers : Op → Option (RawFd × Interest)
registers (Op.send fd flags buffer) = some (fd, Interest.write)
registers (Op.recv fd flags buffer) = some (fd, Interest.read)
registers (Op.accept fd addr len) = some (fd, Interest.read)
registers (Op.tee fd_in fd_out size) = some (fd_in, Interest.read_and_write)
registers (Op.connect fd addr len called) = some (fd, Interest.write)
registers (Op.timeout d timer_fd timespec) = some (as_i32 (as_millis d), Interest.timer)
registers op = none

-- What `push` completes an operation with whose registration failed with `x`, and that gave `r`.
abbrev pub spoiled : IoError → ℤ → ℤ
spoiled x r = if is_neg r then r else neg (errno_or_eio x)

module _ {K : Type 0} (kernel : Kernel K) (poll : ReadinessPoll K) where
  -- Where `push` leaves an operation under the key `id`.
  pub data Pushed (id : ℕ) (op : Op) (p : Poller) (k : K) : Type 0 where
    ran :
        (r : ℤ) (p' : Poller) (k' : K)
        → run_op_blocking kernel op k ≡ (r, k')
        → push kernel poll id op (p, k) ≡ ret (ok tt, (p', k'))
        → IsConsistent p'
        → p'.immediate ≡ p.immediate ++ (id, r) ∷ []
        → lookup id p'.op_map ≡ none
        → Pushed id op p k
    unwatched :
        (fd : RawFd) (interest : Interest) (x : IoError) (r : ℤ) (p' : Poller) (k₀ k' : K)
        → registers op ≡ some (fd, interest)
        → poll.add fd id interest k ≡ (err x, k₀)
        → run_op_blocking kernel op k₀ ≡ (r, k')
        → push kernel poll id op (p, k) ≡ ret (ok tt, (p', k'))
        → IsConsistent p'
        → p'.immediate ≡ p.immediate ++ (id, spoiled x r) ∷ []
        → lookup id p'.op_map ≡ none
        → Pushed id op p k
    tracked :
        (fd : RawFd) (interest : Interest) (p' : Poller) (k' : K) (fds : List (ℕ × RawFd))
        → registers op ≡ some (fd, interest)
        → poll.add fd id interest k ≡ (ok tt, k')
        → push kernel poll id op (p, k) ≡ ret (ok tt, (p', k'))
        → IsConsistent p'
        → p'.immediate ≡ p.immediate
        → p'.fd_map ≡ some fds
        → lookup id fds ≡ some fd
        → lookup id p'.op_map ≡ some op
        → Pushed id op p k
    refused :
        (fd : RawFd) (interest : Interest) (e : IoError) (p' : Poller) (k₀ k' : K)
        → registers op ≡ some (fd, interest)
        → poll.add fd id interest k₀ ≡ (err e, k')
        → push kernel poll id op (p, k) ≡ ret (err e, (p', k'))
        → route op ≡ special
        → Pushed id op p k
    orphaned :
        (fd : RawFd) (addr len : ℕ) (called : Bool) (r : ℤ) (p' : Poller) (k₀ k' : K)
        (fds : List (ℕ × RawFd))
        → op ≡ Op.connect fd addr len called
        → run_op_blocking kernel op k ≡ (r, k₀)
        → (is_neg r && neg_part r == einprogress) ≡ true
        → poll.add fd id Interest.write k₀ ≡ (ok tt, k')
        → push kernel poll id op (p, k) ≡ ret (ok tt, (p', k'))
        → p'.fd_map ≡ some fds
        → lookup id fds ≡ some fd
        → lookup id p'.op_map ≡ none
        → Pushed id op p k
