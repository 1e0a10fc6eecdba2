-- ===== src/Ffi.antt =====
-- lio/src/ffi.rs: the C interface, with what lio/src/api/mod.rs does to start an operation.
-- A C function pointer is a number, and so is a buffer's address; a pointer to a `sockaddr` is
-- `none` when it is null. The C program's calls from inside a callback are not modelled.
pub mod Calling
pub mod Addresses
pub mod Codes
pub mod Ownership
pub mod Ticking
use lio.Base.{
  ℕ, ◌-◌, ◌%◌, ◌^◌, Bool, true, false, Option, none, some, List, [], ◌∷◌, ◌++◌, if◌then◌else◌, ltb,
  ℤ, pos, negsuc, neg, is_neg, pos_part, Outcome, ret, ◌>>=◌, IoError, os, would_block,
  invalid_input, invalid_data, IoResult, ok, err,
}
use lio.Op.{Pointer, RawFd}
use lio.Syscall.{Syscall}
use lio.Net.{
  SocketAddr, v4, v6, SockaddrStorage, inet, inet6, unsupported, be, std_socketaddr_into_libc,
  libc_socketaddr_into_std,
}
use lio.Poller.{as_i32}
use lio.Resource.{Resource, Heap, from_raw_fd, clone, drop}
use lio.Driver.{Lio}
use lio.Typed.{Vec, vec}
use lio.Typed.Buffers.{ReadAt, WriteAt, Send, Recv}
use lio.Typed.Buffers
use lio.Typed.Files.{Fsync, Truncate, Close, Timeout}
use lio.Typed.Files
use lio.Typed.Sockets.{Shutdown, Socket, Bind, Accept, Listen}
use lio.Typed.Sockets

-- The typed operations that the C interface starts.
pub data Task : Type 0 where
  shutdown : Shutdown → Task
  fsync : Fsync → Task
  truncate : Truncate → Task
  write_at : WriteAt Vec → Task
  read_at : ReadAt Vec → Task
  socket : Socket → Task
  bind : Bind → Task
  accept : Accept → Task
  listen : Listen → Task
  send : Send Vec → Task
  recv : Recv Vec → Task
  close : Close → Task
  timeout : Timeout → Task

-- What `when_done` is given: the typed operation, the C callback, and the resource that the
-- operation owns, of which the closure has another clone.
pub record Closure : Type 0 where
  pub task : Task
  pub callback : Pointer
  pub resource : Option Resource

-- The call of a C callback, by the type of its arguments.
pub data Call : Type 0 where
  code : (callback : Pointer) (result : ℤ) → Call
  buffer : (callback : Pointer) (result : ℤ) (buf : Pointer) (len : ℕ) → Call
  accepted : (callback : Pointer) (result : ℤ) (addr : Option SockaddrStorage) → Call

-- What the outside has to say when an operation completes: the order of bytes of the target, the
-- thread's errno, and the address that the kernel has written for an accepted connection.
pub record Outside : Type 0 where
  pub little : Bool
  pub last_os_error : IoError
  pub written : SockaddrStorage

-- `lio_handle_t`, with the cells of the resources.
pub record Handle (W B : Type 0) : Type 0 where
  pub inner : Lio W Closure B
  pub heap : Heap

-- `sockaddr_to_socketaddr`: the sizes are those of `sockaddr_in` and `sockaddr_in6`.
unfoldable pub sockaddr_to_socketaddr : Bool → Option SockaddrStorage → ℕ → Option SocketAddr
sockaddr_to_socketaddr little none addr_len = none
sockaddr_to_socketaddr little (some (inet sin_port s_addr)) addr_len =
    if ltb addr_len 16
    then none
    else some (v4 (record { ip = be little 4 s_addr; port = be little 2 sin_port }))
sockaddr_to_socketaddr little (some (inet6 sin6_port s6_addr sin6_flowinfo sin6_scope_id))
      addr_len =
    if ltb addr_len 28
    then none
    else some (
        v6 (record {
          octets = s6_addr;
          port = be little 2 sin6_port;
          flowinfo = be little 4 sin6_flowinfo;
          scope_id = be little 4 sin6_scope_id;
        }))
sockaddr_to_socketaddr little (some (unsupported ss_family)) addr_len = none

-- `-e.raw_os_error().unwrap_or(1)`, which wraps around.
unfoldable pub error_code : IoError → ℤ
error_code (os e) = as_i32 (2 ^ 32 - e % 2 ^ 32)
error_code would_block = negsuc 0
error_code invalid_input = negsuc 0
error_code invalid_data = negsuc 0

unfoldable pub unit_code : IoResult (Unit {0}) → ℤ
unfolding error_code
unit_code (ok done) = pos 0
unit_code (err e) = error_code e

unfoldable pub number_code : IoResult ℤ → ℤ
unfolding error_code
number_code (ok n) = n
number_code (err e) = error_code e

-- The closures of `lio_write_at`, `lio_read_at`, `lio_send` and `lio_recv`.
unfoldable pub buffer_call : Pointer → IoResult ℤ × Vec → Call
unfolding number_code
buffer_call cb out = buffer cb (number_code out.0) out.1.ptr out.1.len

-- The closure of `lio_accept`: the address is boxed.
unfoldable pub accepted_call : Bool → Pointer → IoResult (RawFd × SocketAddr) → Call
unfolding error_code
accepted_call little cb (ok (fd, addr)) =
    accepted cb fd (some (std_socketaddr_into_libc little addr))
accepted_call little cb (err e) = accepted cb (error_code e) none

-- `OpCallback::call_callback` for the closures: the call that is made with a result.
unfoldable pub answer : Outside → Task → Pointer → ℤ → Outcome Call
unfolding unit_code number_code buffer_call accepted_call
answer out (shutdown t) cb res =
    Sockets.shutdown.extract_result t res >>= λ r. ret (code cb (unit_code r))
answer out (fsync t) cb res = Files.fsync.extract_result t res >>= λ r. ret (code cb (unit_code r))
answer out (truncate t) cb res =
    Files.truncate.extract_result t res >>= λ r. ret (code cb (unit_code r))
answer out (write_at t) cb res =
    (Buffers.write_at vec).extract_result t res >>= λ r. ret (buffer_call cb r)
answer out (read_at t) cb res =
    (Buffers.read_at vec).extract_result t res >>= λ r. ret (buffer_call cb r)
answer out (socket t) cb res =
    Sockets.socket.extract_result t res >>= λ r. ret (code cb (number_code r))
answer out (bind t) cb res = Sockets.bind.extract_result t res >>= λ r. ret (code cb (unit_code r))
answer out (accept t) cb res =
    (Sockets.accept out.little).extract_result (record t { addr = out.written }) res >>= λ r.
    ret (accepted_call out.little cb r)
answer out (listen t) cb res =
    Sockets.listen.extract_result t res >>= λ r. ret (code cb (unit_code r))
answer out (send t) cb res = (Buffers.send vec).extract_result t res >>= λ r. ret (buffer_call cb r)
answer out (recv t) cb res = (Buffers.recv vec).extract_result t res >>= λ r. ret (buffer_call cb r)
answer out (close t) cb res = Files.close.extract_result t res >>= λ r. ret (code cb (unit_code r))
answer out (timeout t) cb res =
    (Files.timeout out.last_os_error).extract_result t res >>= λ r. ret (code cb (unit_code r))

-- The resource of a new descriptor, which the closure forgets. `accept` drops it if the address of
-- the peer is of another family.
unfoldable pub new_resource : Outside → Task → ℤ → Heap → Outcome (List Syscall × Heap)
unfolding from_raw_fd
new_resource out (socket t) res h =
    ret ([], (if is_neg res then h else (from_raw_fd (as_i32 (pos_part res)) h).1))
new_resource out (accept t) res h =
    if is_neg res
    then ret ([], h)
    else (let (r, h') = from_raw_fd (as_i32 (pos_part res)) h in
        elim (libc_socketaddr_into_std out.little out.written) [
          | ok addr ↦ ret ([], h')
          | err e ↦ drop r h'
        ])
new_resource out task res h = ret ([], h)

-- The typed operation goes with its resource; the closure forgets its own clone.
unfoldable pub release : Option Resource → Heap → Outcome (List Syscall × Heap)
release none h = ret ([], h)
release (some r) h = drop r h

-- A completed operation: the call of the C callback, and the descriptors closed.
unfoldable pub complete : Outside → Closure → ℤ → Heap → Outcome (Call × List Syscall × Heap)
unfolding answer new_resource release
complete out c res h = answer out c.task c.callback res >>= λ call.
    new_resource out c.task res h >>= λ made.
    release c.resource made.1 >>= λ gone. ret (call, made.0 ++ gone.0, gone.1)
