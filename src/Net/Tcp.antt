-- ===== src/Net/Tcp.antt =====
-- lio/src/net/tcp.rs: `TcpListener` and `TcpSocket`.
-- An async function is a state machine with a state for each `.await`; a poll of it runs on the driver
-- of the thread, and lists the descriptors that it closes. What `to_socket_addrs` answers is an
-- argument. The socket that is dropped is the last owner of its descriptor by then.
pub mod Binding
pub mod Waiting
pub mod Connected
use lio.Base.{
  ℕ, ℤ, pos, Bool, Option, none, some, List, [], ◌∷◌, ◌++◌, Outcome, ret, panic, ◌>>=◌, expect,
  IoError, IoResult, ok, err,
}
use lio.Op.{Pointer, IoBackend}
use lio.Syscall.{Syscall}
use lio.Net.{SocketAddr, unsupported}
use lio.Registration.{Effect}
use lio.Driver.{Lio}
use lio.Io.{
  Io, IoFutureState, Poll, ready, not_ready, into_future, poll, TypedOp, from_op, Received, value,
  nothing, blocks, wait,
}
use lio.Typed.{Vec}
use lio.Typed.Buffers.{Recv, Send}
use lio.Typed.Sockets.{Shutdown, Bind, Connect, Accept, Listen}
use lio.Typed.Sockets
use lio.Api
use lio.Net.Socket
use lio.Net.Socket.{SocketNew, socket_new}

pub record TcpListener : Type 0 where
  pub inner : Socket.Socket

pub record TcpSocket : Type 0 where
  pub inner : Socket.Socket

-- `AF_INET` and `SOCK_STREAM`.
abbrev pub af_inet : ℤ
af_inet = pos 2

abbrev pub sock_stream : ℤ
sock_stream = pos 1

pub record TcpAccept : Type 0 where
  pub inner : Accept

unfoldable pub tcp_accept : Bool → TypedOp TcpAccept (IoResult (TcpSocket × SocketAddr))
tcp_accept little = record {
  into_op = λ t.
      (Sockets.accept little).into_op t.inner >>= λ made. ret (made.0, record { inner = made.1 });
  extract_result = λ t res. (Sockets.accept little).extract_result t.inner res >>= λ out. elim out [
    | err e ↦ ret (err e)
    | ok (fd, addr) ↦ ret (ok (record { inner = Socket.from_resource fd }, addr))
  ];
}

module _ {H : Type 0} where
  unfoldable pub accept : Pointer → Pointer → TcpListener → Io H TcpAccept
  unfolding from_op
  accept addr_at len_at l = from_op (record {
    inner = record {
      res = l.inner.resource;
      addr = unsupported 0;
      addr_at = addr_at;
      len_at = len_at;
    };
  })

  unfoldable pub recv : TcpSocket → Vec → Io H (Recv Vec)
  unfolding Socket.recv
  recv s buf = Socket.recv s.inner buf

  unfoldable pub send : TcpSocket → Vec → Io H (Send Vec)
  unfolding Socket.send
  send s buf = Socket.send s.inner buf

  unfoldable pub shutdown : TcpSocket → ℤ → Io H Shutdown
  unfolding Socket.shutdown
  shutdown s how = Socket.shutdown s.inner how

-- What is dropped when a stage fails.
abbrev pub drop_socket : Socket.Socket → List Syscall
drop_socket s = Syscall.close s.resource ∷ []

-- The states of `TcpSocket::connect_async`.
pub data Connecting : Type 0 where
  unstarted : SocketAddr → Connecting
  creating : IoFutureState SocketNew → SocketAddr → Connecting
  connecting : Socket.Socket → IoFutureState Connect → Connecting
  returned : Connecting

-- A poll of an async function with the states `S`.
abbrev pub Polled : Type 0 → Type 0 → Type 0 → Type 0 → Type 0 → Type 0
Polled R S W C B = Outcome (Poll R × S × Lio W C B × List (Effect W C) × List Syscall)

module _ {H W C B : Type 0} (backend : IoBackend B) (little : Bool) (at : Pointer)
    (global : Option H) where
  -- The poll of an `.await` that is reached for the first time.
  unfoldable pub first_poll :
      {T R : Type 0}
      → TypedOp T R
      → Io H T
      → W
      → Lio W C B
      → Outcome (Poll R × IoFutureState T × Lio W C B × List (Effect W C))
  unfolding into_future poll
  first_poll typed io w lio =
      into_future global io >>= λ future. poll typed backend future.state w lio

  after_connect :
      Socket.Socket
      → List (Effect W C)
      → Poll (IoResult (Unit {0})) × IoFutureState Connect × Lio W C B × List (Effect W C)
      → Polled (IoResult TcpSocket) Connecting W C B
  after_connect s told (not_ready, state, lio, more) =
      ret (not_ready, connecting s state, lio, told ++ more, [])
  after_connect s told (ready (err e), state, lio, more) =
      ret (ready (err e), returned, lio, told ++ more, drop_socket s)
  after_connect s told (ready (ok u), state, lio, more) =
      ret (ready (ok (record { inner = s })), returned, lio, told ++ more, [])

  after_create :
      SocketAddr
      → W
      → Poll (IoResult Socket.Socket) × IoFutureState SocketNew × Lio W C B × List (Effect W C)
      → Polled (IoResult TcpSocket) Connecting W C B
  unfolding after_connect first_poll Api.connect
  after_create addr w (not_ready, state, lio, told) =
      ret (not_ready, creating state addr, lio, told, [])
  after_create addr w (ready (err e), state, lio, told) =
      ret (ready (err e), returned, lio, told, [])
  after_create addr w (ready (ok s), state, lio, told) =
      first_poll Sockets.connect (Api.connect little at s.resource addr) w lio >>= λ polled.
      after_connect s told polled

  -- `TcpSocket::connect_async`.
  unfoldable pub poll_connect :
      Connecting → W → Lio W C B → Polled (IoResult TcpSocket) Connecting W C B
  unfolding after_create after_connect first_poll poll
  poll_connect (unstarted addr) w lio =
      first_poll socket_new (Socket.new af_inet sock_stream (pos 0)) w lio >>= λ polled.
      after_create addr w polled
  poll_connect (creating state addr) w lio =
      poll socket_new backend state w lio >>= λ polled. after_create addr w polled
  poll_connect (connecting s state) w lio =
      poll Sockets.connect backend state w lio >>= λ polled. after_connect s [] polled
  poll_connect returned w lio = panic
