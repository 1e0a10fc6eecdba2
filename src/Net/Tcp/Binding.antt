-- ===== src/Net/Tcp/Binding.antt =====
-- lio/src/net/tcp.rs: `TcpListener::bind_async`. What `to_socket_addrs` answers is an argument.
use lio.Base.{
  pos, Bool, Option, none, some, List, [], ◌∷◌, ◌++◌, ret, panic, ◌>>=◌, expect, IoResult, ok, err,
}
use lio.Op.{Pointer, IoBackend}
use lio.Net.{SocketAddr}
use lio.Registration.{Effect}
use lio.Driver.{Lio}
use lio.Io.{IoFutureState, Poll, ready, not_ready, poll}
use lio.Typed.Sockets.{Bind, Listen}
use lio.Typed.Sockets
use lio.Net.Socket
use lio.Net.Socket.{SocketNew, socket_new}
use lio.Net.Tcp.{TcpListener, Polled, first_poll, drop_socket, af_inet, sock_stream}

-- The states of `TcpListener::bind_async`, with the addresses that were resolved.
pub data Binding : Type 0 where
  unstarted : IoResult (List SocketAddr) → Binding
  creating : IoFutureState SocketNew → List SocketAddr → Binding
  binding : Socket.Socket → IoFutureState Bind → Binding
  listening : Socket.Socket → IoFutureState Listen → Binding
  returned : Binding

-- `addrs.next()`.
abbrev pub first_address : List SocketAddr → Option SocketAddr
first_address [] = none
first_address (a ∷ later) = some a

module _ {H W C B : Type 0} (backend : IoBackend B) (little : Bool) (at : Pointer)
    (global : Option H) where
  after_listen :
      Socket.Socket
      → List (Effect W C)
      → Poll (IoResult (Unit {0})) × IoFutureState Listen × Lio W C B × List (Effect W C)
      → Polled (IoResult TcpListener) Binding W C B
  after_listen s told (not_ready, state, lio, more) =
      ret (not_ready, listening s state, lio, told ++ more, [])
  after_listen s told (ready (err e), state, lio, more) =
      ret (ready (err e), returned, lio, told ++ more, drop_socket s)
  after_listen s told (ready (ok u), state, lio, more) =
      ret (ready (ok (record { inner = s })), returned, lio, told ++ more, [])

  after_bind :
      Socket.Socket
      → W
      → List (Effect W C)
      → Poll (IoResult (Unit {0})) × IoFutureState Bind × Lio W C B × List (Effect W C)
      → Polled (IoResult TcpListener) Binding W C B
  unfolding after_listen first_poll Socket.listen
  after_bind s w told (not_ready, state, lio, more) =
      ret (not_ready, binding s state, lio, told ++ more, [])
  after_bind s w told (ready (err e), state, lio, more) =
      ret (ready (err e), returned, lio, told ++ more, drop_socket s)
  after_bind s w told (ready (ok u), state, lio, more) =
      first_poll backend little at global Sockets.listen (Socket.listen s) w lio >>= λ polled.
      after_listen s (told ++ more) polled

  after_create :
      List SocketAddr
      → W
      → Poll (IoResult Socket.Socket) × IoFutureState SocketNew × Lio W C B × List (Effect W C)
      → Polled (IoResult TcpListener) Binding W C B
  unfolding after_bind first_poll Socket.bind
  after_create addrs w (not_ready, state, lio, told) =
      ret (not_ready, creating state addrs, lio, told, [])
  after_create addrs w (ready (err e), state, lio, told) =
      ret (ready (err e), returned, lio, told, [])
  after_create addrs w (ready (ok s), state, lio, told) = expect (first_address addrs) >>= λ addr.
      first_poll backend little at global Sockets.bind (Socket.bind little at s addr) w lio
      >>= λ polled. after_bind s w told polled

  unfoldable pub poll_bind : Binding → W → Lio W C B → Polled (IoResult TcpListener) Binding W C B
  unfolding after_create after_bind after_listen first_poll poll
  poll_bind (unstarted (err e)) w lio = ret (ready (err e), returned, lio, [], [])
  poll_bind (unstarted (ok addrs)) w lio =
      first_poll backend little at global socket_new (Socket.new af_inet sock_stream (pos 0)) w lio
      >>= λ polled. after_create addrs w polled
  poll_bind (creating state addrs) w lio =
      poll socket_new backend state w lio >>= λ polled. after_create addrs w polled
  poll_bind (binding s state) w lio =
      poll Sockets.bind backend state w lio >>= λ polled. after_bind s w [] polled
  poll_bind (listening s state) w lio =
      poll Sockets.listen backend state w lio >>= λ polled. after_listen s [] polled
  poll_bind returned w lio = panic
