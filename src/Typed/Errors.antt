-- ===== src/Typed/Errors.antt =====
-- What the typed operations make of a negative result.
use lio.Base.{
  ℕ, suc, ◌%◌, ◌^◌, ◌≡◌, ◌≢◌, refl, Bool, false, ℤ, pos, negsuc, neg, Option, ret, IoError,
  IoResult, os, err, ok, ◌==◌, ≢→==, arith,
}
use lio.Op.{Op, Resource, Pointer}
use lio.Net.{SocketAddr}
use lio.Syscall.{Kernel, eisconn}
use lio.Syscall
use lio.Poller.{run_op_on_event}
use lio.Typed.{BufLike}
use lio.Typed.Buffers.{
  read, read_at, recv, send, write, write_at, new_read, new_read_at, new_recv, new_send, new_write,
  new_write_at,
}
use lio.Typed.Files.{Timeout, timeout, etime}
use lio.Typed.Sockets.{connect, new_connect}

-- The error for the result -(n + 1).
abbrev pub errno_of : {A : Type 0} → ℕ → IoResult A
errno_of n = err (os (suc n % 2 ^ 32))

module _ {B : Type 0} (buflike : BufLike B) where
  -- A negative result is reported as the error of that number by every operation on a buffer,
  -- which gives the buffer back as it was.
  pub buffer_kept_on_error :
      (res : Resource) (b : B) (offset : ℤ) (flags : Option ℤ) (n : ℕ)
      → ((read buflike).extract_result (new_read res b) (negsuc n) ≡ ret (errno_of n, b))
        × ((read_at buflike).extract_result (new_read_at res b offset) (negsuc n)
            ≡ ret (errno_of n, b))
        × ((recv buflike).extract_result (new_recv res b flags) (negsuc n) ≡ ret (errno_of n, b))
        × ((send buflike).extract_result (new_send res b flags) (negsuc n) ≡ ret (errno_of n, b))
        × ((write buflike).extract_result (new_write res b) (negsuc n) ≡ ret (errno_of n, b))
        × ((write_at buflike).extract_result (new_write_at res b offset) (negsuc n)
            ≡ ret (errno_of n, b))
  unfolding read read_at recv send write write_at new_read new_read_at new_recv new_send new_write
      new_write_at
  buffer_kept_on_error res b offset flags n = (refl, refl, refl, refl, refl, refl)

-- A timeout succeeds for the result 0 and for the error of a timer that ran out, of either sign. For
-- any other result it reports whatever the errno of the thread is, not the result.
pub timeout_ignores_result :
    (last_os_error : IoError) (t : Timeout) (n : ℕ)
    → suc n % 2 ^ 32 ≢ etime
    → ((timeout last_os_error).extract_result t (pos 0) ≡ ret (ok tt))
      × ((timeout last_os_error).extract_result t (neg etime) ≡ ret (ok tt))
      × ((timeout last_os_error).extract_result t (negsuc n) ≡ ret (err last_os_error))
      × ((timeout last_os_error).extract_result t (pos (suc n)) ≡ ret (err last_os_error))
unfolding timeout
timeout_ignores_result last_os_error t n other =
    let no : (suc n % 2 ^ 32 == etime) ≡ false = ≢→== _ _ other in
    (refl, refl, ground (arith, no), ground (arith, no))

-- A connect operation always says that `connect` was not called before, so a second `connect` on a
-- socket that is connected by then is reported as the error EISCONN.
pub connected_reported_as_error :
    {K : Type 0} (kernel : Kernel K) (k k' : K) (little : Bool) (addr_at : Pointer) (res : Resource)
    (addr : SocketAddr)
    → kernel (Syscall.connect res addr_at (new_connect little addr_at res addr).len) k
      ≡ (negsuc 0, eisconn, k')
    → (op : Op) × (connect.into_op (new_connect little addr_at res addr)
        ≡ ret (op, new_connect little addr_at res addr))
      × (run_op_on_event kernel op k ≡ ret (neg eisconn, k'))
      × (connect.extract_result (new_connect little addr_at res addr) (neg eisconn)
          ≡ ret (err (os eisconn)))
unfolding connect new_connect run_op_on_event
connected_reported_as_error kernel k k' little addr_at res addr e =
    (Op.connect res addr_at (new_connect little addr_at res addr).len false, refl, rw e refl, refl)
