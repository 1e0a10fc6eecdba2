-- ===== src/Api.antt =====
-- lio/src/api/mod.rs: the functions that start from the fields of an operation, on Linux. Each one
-- makes an `Io` on the driver that is installed for the thread; a resource is its descriptor, so that
-- the clone of it is the same. Where an operation points into itself, `…_at` is the address.
use lio.Base.{ℕ, ℤ, Bool, Option, Outcome, ret, ◌>>=◌, expect}
use lio.Op.{RawFd, Resource, Pointer, Duration}
use lio.Net.{SocketAddr, unsupported}
use lio.Io.{Io, from_op}
use lio.Typed.Buffers.{
  Read, ReadAt, Recv, Send, Write, WriteAt, new_read, new_read_at, new_recv, new_send, new_write,
  new_write_at,
}
use lio.Typed.Files.{Close, Fsync, LinkAt, OpenAt, SymlinkAt, Tee, Truncate, Timeout}
use lio.Typed.Sockets.{Listen, Shutdown, Socket, Bind, Connect, Accept, new_bind, new_connect}

module _ {H : Type 0} where
  unfoldable pub nop : Io H (Unit {0})
  unfolding from_op
  nop = from_op tt

  unfoldable pub close : RawFd → Io H Close
  unfolding from_op
  close fd = from_op (record { fd = fd })

  unfoldable pub shutdown : Resource → ℤ → Io H Shutdown
  unfolding from_op
  shutdown res how = from_op (record { res = res; how = how })

  -- `timer` is the descriptor of the timer that the operation makes, if it can.
  unfoldable pub timeout : Option RawFd → Pointer → Duration → Outcome (Io H Timeout)
  unfolding from_op
  timeout timer timespec_at duration = expect timer >>= λ fd.
      ret (from_op (record { duration = duration; timer_res = fd; timespec_at = timespec_at }))

  unfoldable pub symlinkat : Resource → Pointer → Pointer → Io H SymlinkAt
  unfolding from_op
  symlinkat dir_res target linkpath =
      from_op (record { dir_res = dir_res; target = target; linkpath = linkpath })

  unfoldable pub linkat : Resource → Pointer → Resource → Pointer → Io H LinkAt
  unfolding from_op
  linkat old_dir_res old_path new_dir_res linkpath = from_op (record {
    old_dir_res = old_dir_res;
    old_path = old_path;
    new_dir_res = new_dir_res;
    new_path = linkpath;
  })

  unfoldable pub fsync : Resource → Io H Fsync
  unfolding from_op
  fsync res = from_op (record { res = res })

  unfoldable pub write : {B : Type 0} → Resource → B → Io H (Write B)
  unfolding from_op new_write
  write res buf = from_op (new_write res buf)

  unfoldable pub write_at : {B : Type 0} → Resource → B → ℤ → Io H (WriteAt B)
  unfolding from_op new_write_at
  write_at res buf offset = from_op (new_write_at res buf offset)

  unfoldable pub read : {B : Type 0} → Resource → B → Io H (Read B)
  unfolding from_op new_read
  read res mem = from_op (new_read res mem)

  unfoldable pub read_at : {B : Type 0} → Resource → B → ℤ → Io H (ReadAt B)
  unfolding from_op new_read_at
  read_at res mem offset = from_op (new_read_at res mem offset)

  unfoldable pub truncate : Resource → ℕ → Io H Truncate
  unfolding from_op
  truncate res len = from_op (record { res = res; size = len })

  unfoldable pub socket : ℤ → ℤ → ℤ → Io H Socket
  unfolding from_op
  socket domain ty proto = from_op (record { domain = domain; ty = ty; proto = proto })

  unfoldable pub bind : Bool → Pointer → Resource → SocketAddr → Io H Bind
  unfolding from_op new_bind
  bind little addr_at resource addr = from_op (new_bind little addr_at resource addr)

  -- The address starts as zeros.
  unfoldable pub accept : Pointer → Pointer → Resource → Io H Accept
  unfolding from_op
  accept addr_at len_at res =
      from_op (record { res = res; addr = unsupported 0; addr_at = addr_at; len_at = len_at })

  -- The struct `AcceptUnix` has the fields of `Accept`.
  unfoldable pub accept_unix : Pointer → Pointer → Resource → Io H Accept
  unfolding accept
  accept_unix addr_at len_at res = accept addr_at len_at res

  unfoldable pub listen : Resource → ℤ → Io H Listen
  unfolding from_op
  listen res backlog = from_op (record { res = res; backlog = backlog })

  unfoldable pub connect : Bool → Pointer → Resource → SocketAddr → Io H Connect
  unfolding from_op new_connect
  connect little addr_at res addr = from_op (new_connect little addr_at res addr)

  unfoldable pub send : {B : Type 0} → Resource → B → Option ℤ → Io H (Send B)
  unfolding from_op new_send
  send res buf flags = from_op (new_send res buf flags)

  unfoldable pub recv : {B : Type 0} → Resource → B → Option ℤ → Io H (Recv B)
  unfolding from_op new_recv
  recv res buf flags = from_op (new_recv res buf flags)

  unfoldable pub openat : Resource → Pointer → ℤ → Io H OpenAt
  unfolding from_op
  openat dir_res path flags = from_op (record { dir_res = dir_res; pathname = path; flags = flags })

  unfoldable pub tee : Resource → Resource → ℕ → Io H Tee
  unfolding from_op
  tee res_in res_out size = from_op (record { res_in = res_in; res_out = res_out; size = size })
