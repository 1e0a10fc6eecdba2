-- ===== src/Uring/Setup.antt =====
-- lio-uring/src/lib.rs: the making of a ring, and the registration of its buffers and files. The
-- memory of the ring is in the world of the library, with the flags that it was given.
use Prim.Native.Nat.{bit_or}
use lio.Base.{ℕ, List, ℤ, pos, negsuc, suc, os, IoResult, ok, err}
use lio.Op.{Pointer}
use lio.Uring.{Liburing, Params}

-- `Params::default`.
abbrev pub default : Params
default = record { sq_entries = 128; flags = 0; sq_thread_cpu = 0; sq_thread_idle = 0 }

-- `IORING_SETUP_SQPOLL` is 2, `IORING_SETUP_IOPOLL` is 1.
unfoldable pub sqpoll : Params → ℕ → Params
sqpoll p idle_ms = record p { flags = bit_or p.flags 2; sq_thread_idle = idle_ms }

unfoldable pub iopoll : Params → Params
iopoll p = record p { flags = bit_or p.flags 1 }

-- What each method below makes of the number that the library returns.
abbrev pub checked {ℓ} : {K : Type ℓ} → ℤ × K → IoResult (Unit {0}) × K
checked (pos n, k) = (ok tt, k)
checked (negsuc n, k) = (err (os (suc n)), k)

module _ {K : Type 0} (lib : Liburing K) where
  unfoldable pub with_params : Params → K → IoResult (Unit {0}) × K
  with_params params k = checked (lib.queue_init_params params k)

  unfoldable pub new : ℕ → K → IoResult (Unit {0}) × K
  unfolding with_params
  new capacity k = with_params (record default { sq_entries = capacity }) k

  -- `Drop for LioUring`.
  unfoldable pub drop_ring : K → K
  drop_ring k = lib.queue_exit k

  -- A buffer is its address and its length.
  unfoldable pub register_buffers : List (Pointer × ℕ) → K → IoResult (Unit {0}) × K
  register_buffers buffers k = checked (lib.register_buffers buffers k)

  unfoldable pub unregister_buffers : K → IoResult (Unit {0}) × K
  unregister_buffers k = checked (lib.unregister_buffers k)

  unfoldable pub register_files : List ℤ → K → IoResult (Unit {0}) × K
  register_files fds k = checked (lib.register_files fds k)

  unfoldable pub register_files_update : ℕ → List ℤ → K → IoResult (Unit {0}) × K
  register_files_update offset fds k = checked (lib.register_files_update offset fds k)

  unfoldable pub unregister_files : K → IoResult (Unit {0}) × K
  unregister_files k = checked (lib.unregister_files k)
