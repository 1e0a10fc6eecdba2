-- ===== src/Typed/Sockets.antt =====
-- accept.rs, accept_unix.rs, bind.rs, connect.rs, listen.rs, shutdown.rs and socket.rs of
-- lio/src/api/ops, on Linux. Where an operation points into itself, `…_at` is the address.
use lio.Base.{
  ℕ, ℤ, Bool, false, is_neg, List, [], ◌∷◌, ◌==◌, ret, IoResult, ok, err, if◌then◌else◌, pos_part,
}
use lio.Op.{Op, RawFd, Resource, Pointer}
use lio.Net.{
  SocketAddr, SockaddrStorage, inet, inet6, unsupported, std_socketaddr_into_libc,
  libc_socketaddr_into_std,
}
use lio.Poller.{as_i32}
use lio.Io.{TypedOp}
use lio.Typed.{unit_result, resource_result, raw_os_error}

-- The sizes of `sockaddr_in`, `sockaddr_in6` and `sockaddr_storage`.
abbrev pub addr_len : SockaddrStorage → ℕ
addr_len (inet sin_port s_addr) = 16
addr_len (inet6 sin6_port s6_addr sin6_flowinfo sin6_scope_id) = 28
addr_len (unsupported ss_family) = 128

pub record Listen : Type 0 where
  pub res : Resource
  pub backlog : ℤ

unfoldable pub listen : TypedOp Listen (IoResult (Unit {0}))
unfolding unit_result
listen = record {
  into_op = λ t. ret (Op.listen t.res t.backlog, t);
  extract_result = λ t res. ret (unit_result res);
}

pub record Shutdown : Type 0 where
  pub res : Resource
  pub how : ℤ

unfoldable pub shutdown : TypedOp Shutdown (IoResult (Unit {0}))
unfolding unit_result
shutdown = record {
  into_op = λ t. ret (Op.shutdown t.res t.how, t);
  extract_result = λ t res. ret (unit_result res);
}

pub record Socket : Type 0 where
  pub domain : ℤ
  pub ty : ℤ
  pub proto : ℤ

unfoldable pub socket : TypedOp Socket (IoResult Resource)
unfolding resource_result
socket = record {
  into_op = λ t. ret (Op.socket t.domain t.ty t.proto, t);
  extract_result = λ t res. ret (resource_result res);
}

-- The option that `Socket::extract_result` sets on a stream socket (`SO_REUSEADDR`), whatever comes
-- of it: the descriptors on which it does.
unfoldable pub reuse_addr : Socket → ℤ → List RawFd
reuse_addr t res =
    if is_neg res then [] else if pos_part t.ty == 1 then as_i32 (pos_part res) ∷ [] else []

pub record Bind : Type 0 where
  pub res : Resource
  pub addr : SockaddrStorage
  pub addr_at : Pointer

unfoldable pub new_bind : Bool → Pointer → Resource → SocketAddr → Bind
unfolding std_socketaddr_into_libc
new_bind little addr_at res addr = record {
  res = res;
  addr = std_socketaddr_into_libc little addr;
  addr_at = addr_at;
}

unfoldable pub bind : TypedOp Bind (IoResult (Unit {0}))
unfolding unit_result
bind = record {
  into_op = λ t. ret (Op.bind t.res t.addr_at (addr_len t.addr), t);
  extract_result = λ t res. ret (unit_result res);
}

pub record Connect : Type 0 where
  pub res : Resource
  pub addr : SockaddrStorage
  pub addr_at : Pointer
  pub len : ℕ
  pub connect_called : Bool

unfoldable pub new_connect : Bool → Pointer → Resource → SocketAddr → Connect
unfolding std_socketaddr_into_libc
new_connect little addr_at res addr =
    let addr = std_socketaddr_into_libc little addr in
    record {
      res = res;
      addr = addr;
      addr_at = addr_at;
      len = addr_len addr;
      connect_called = false;
    }

unfoldable pub connect : TypedOp Connect (IoResult (Unit {0}))
unfolding unit_result
connect = record {
  into_op = λ t. ret (Op.connect t.res t.addr_at t.len t.connect_called, t);
  extract_result = λ t res. ret (unit_result res);
}

-- `addr` is what the kernel has written by the time the result is extracted.
pub record Accept : Type 0 where
  pub res : Resource
  pub addr : SockaddrStorage
  pub addr_at : Pointer
  pub len_at : Pointer

unfoldable pub accept : Bool → TypedOp Accept (IoResult (Resource × SocketAddr))
unfolding libc_socketaddr_into_std
accept little = record {
  into_op = λ t. ret (Op.accept t.res t.addr_at t.len_at, t);
  extract_result = λ t res.
      if is_neg res
      then ret (err (raw_os_error res))
      else elim (libc_socketaddr_into_std little t.addr) [
        | err e ↦ ret (err e)
        | ok addr ↦ ret (ok (as_i32 (pos_part res), addr))
      ];
}

-- The struct `AcceptUnix` has the fields of `Accept`.
unfoldable pub accept_unix : TypedOp Accept (IoResult Resource)
unfolding resource_result
accept_unix = record {
  into_op = λ t. ret (Op.accept t.res t.addr_at t.len_at, t);
  extract_result = λ t res. ret (resource_result res);
}
