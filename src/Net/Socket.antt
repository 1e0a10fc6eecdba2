-- ===== src/Net/Socket.antt =====
-- lio/src/net/socket.rs and lio/src/net/ops.rs: `Socket`, and the typed operations that make one.
-- Where an operation points into itself, `…_at` is the address.
use lio.Base.{
  ℤ, pos, is_neg, pos_part, Bool, none, ret, ◌>>=◌, invalid_data, IoResult, ok, err, if◌then◌else◌,
}
use lio.Op.{Op, RawFd, Resource, Pointer}
use lio.Net.{SocketAddr, v4, v6, SockaddrStorage, inet, inet6, unsupported, be}
use lio.Poller.{as_i32}
use lio.Io.{Io, TypedOp, from_op}
use lio.Typed.{Vec, raw_os_error}
use lio.Typed.Buffers.{Recv, Send}
use lio.Typed.Sockets.{Shutdown, Bind, Connect, Accept, Listen}
use lio.Typed.Sockets
use lio.Api

pub record Socket : Type 0 where
  pub resource : Resource

-- `Socket::from_resource`; the other conversion is the field.
abbrev pub from_resource : Resource → Socket
from_resource resource = record { resource = resource }

pub record SocketAccept : Type 0 where
  pub inner : Accept

unfoldable pub socket_accept : Bool → TypedOp SocketAccept (IoResult (Socket × SocketAddr))
socket_accept little = record {
  into_op = λ t.
      (Sockets.accept little).into_op t.inner >>= λ made. ret (made.0, record { inner = made.1 });
  extract_result = λ t res. (Sockets.accept little).extract_result t.inner res >>= λ out. elim out [
    | err e ↦ ret (err e)
    | ok (fd, addr) ↦ ret (ok (from_resource fd, addr))
  ];
}

pub record SocketNew : Type 0 where
  pub domain : ℤ
  pub ty : ℤ
  pub proto : ℤ

unfoldable pub socket_new : TypedOp SocketNew (IoResult Socket)
socket_new = record {
  into_op = λ t. ret (Op.socket t.domain t.ty t.proto, t);
  extract_result = λ t res.
      if is_neg res
      then ret (err (raw_os_error res))
      else ret (ok (from_resource (as_i32 (pos_part res))));
}

module _ {H : Type 0} where
  unfoldable pub new : ℤ → ℤ → ℤ → Io H SocketNew
  unfolding from_op
  new domain ty proto = from_op (record { domain = domain; ty = ty; proto = proto })

  unfoldable pub bind : Bool → Pointer → Socket → SocketAddr → Io H Bind
  unfolding Api.bind
  bind little addr_at s addr = Api.bind little addr_at s.resource addr

  unfoldable pub listen : Socket → Io H Listen
  unfolding Api.listen
  listen s = Api.listen s.resource (pos 128)

  unfoldable pub accept : Pointer → Pointer → Socket → Io H SocketAccept
  unfolding from_op
  accept addr_at len_at s = from_op (record {
    inner = record { res = s.resource; addr = unsupported 0; addr_at = addr_at; len_at = len_at };
  })

  unfoldable pub connect : Bool → Pointer → Socket → SocketAddr → Io H Connect
  unfolding Api.connect
  connect little addr_at s addr = Api.connect little addr_at s.resource addr

  unfoldable pub recv : Socket → Vec → Io H (Recv Vec)
  unfolding Api.recv
  recv s buf = Api.recv s.resource buf none

  unfoldable pub send : Socket → Vec → Io H (Send Vec)
  unfolding Api.send
  send s buf = Api.send s.resource buf none

  unfoldable pub shutdown : Socket → ℤ → Io H Shutdown
  unfolding Api.shutdown
  shutdown s how = Api.shutdown s.resource how

-- What `local_addr` makes of what `getsockname` has written.
unfoldable pub address_of : Bool → SockaddrStorage → IoResult SocketAddr
address_of little (inet sin_port s_addr) =
    ok (v4 (record { ip = be little 4 s_addr; port = be little 2 sin_port }))
address_of little (inet6 sin6_port s6_addr sin6_flowinfo sin6_scope_id) =
    ok (v6 (record { octets = s6_addr; port = be little 2 sin6_port; flowinfo = 0; scope_id = 0 }))
address_of little (unsupported ss_family) = err invalid_data

-- `getsockname` answers with the structure, or with the errno.
unfoldable pub local_addr :
    {K : Type 0}
    → (RawFd → K → IoResult SockaddrStorage × K)
    → Bool
    → Socket
    → K
    → IoResult SocketAddr × K
unfolding address_of
local_addr getsockname little s k =
    let (named, k') = getsockname s.resource k in
    elim named [ err e ↦ (err e, k') | ok storage ↦ (address_of little storage, k') ]
