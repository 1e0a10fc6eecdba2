-- ===== src/Net/Tcp/Waiting.antt =====
-- lio/src/net/tcp.rs: `connect_sync` and `bind_sync`, which wait for each operation on a channel.
use lio.Base.{
  ℕ, some, pos, Bool, Option, List, [], ◌≡◌, refl, Outcome, ret, panic, ◌>>=◌, expect, IoResult, ok,
  err, arith, ◌<◌, ◌∙◌, ==_refl,
}
use lio.Op.{Op, Pointer, IoBackend}
use lio.Store
use lio.Store.Invariant.{IsWf, occupied}
use lio.Registration.{pending, callback, new_callback}
use lio.Driver.Schedule.{IsYoungStore, accepted, undone, panicked, schedule-cases}
use lio.Syscall.{Syscall}
use lio.Net.{SocketAddr}
use lio.Driver.{Lio, schedule}
use lio.Io.{Io, TypedOp, into_lio, when_done, Received, value, nothing, blocks, send, recv, wait}
use lio.Typed.Sockets.{Bind, Connect, Listen}
use lio.Typed.Sockets
use lio.Api
use lio.Net.Socket
use lio.Net.Socket.{SocketNew, socket_new}
use lio.Net.Tcp.{TcpListener, TcpSocket, drop_socket, af_inet, sock_stream}
use lio.Net.Tcp.Binding.{first_address}

-- What a blocking function has by then: its value, or that it has not returned, and the descriptors
-- that it has closed.
abbrev pub Waited : Type 0 → Type 0 → Type 0 → Type 0 → Type 0
Waited R W C B = Outcome (Received R × Lio W C B × List Syscall)

module _ {W C B R : Type 0} where
  -- What follows a stage, if it returns at all; an error drops what was made before.
  unfoldable pub proceed :
      {A : Type 0}
      → List Syscall
      → (A → Lio W C B → Waited (IoResult R) W C B)
      → Received (IoResult A) × Lio W C B
      → Waited (IoResult R) W C B
  proceed dropped next (value (ok a), lio) = next a lio
  proceed dropped next (value (err e), lio) = ret (value (err e), lio, dropped)
  proceed dropped next (nothing, lio) = ret (nothing, lio, [])
  proceed dropped next (blocks, lio) = ret (blocks, lio, [])

module _ {H W C B : Type 0} (backend : IoBackend B) (little : Bool) (at : Pointer)
    (global : Option H) where
  -- `wait` of an operation on the driver of the thread.
  unfoldable pub wait_io :
      {T R : Type 0} → TypedOp T R → (T → C) → Io H T → Lio W C B → Outcome (Received R × Lio W C B)
  unfolding into_lio wait
  wait_io typed c io lio = into_lio global io >>= λ parts. wait typed backend parts.1 c lio

  unfoldable pub connect_sync :
      (SocketNew → C) → (Connect → C) → SocketAddr → Lio W C B → Waited (IoResult TcpSocket) W C B
  unfolding wait_io proceed Socket.new Api.connect
  connect_sync c₁ c₂ addr lio =
      wait_io socket_new c₁ (Socket.new af_inet sock_stream (pos 0)) lio >>= λ created.
      proceed []
        (λ s made.
          wait_io Sockets.connect c₂ (Api.connect little at s.resource addr) made >>= λ connected.
          proceed (drop_socket s) (λ u done. ret (value (ok (record { inner = s })), done, []))
            connected)
        created

  unfoldable pub bind_sync :
      (SocketNew → C)
      → (Bind → C)
      → (Listen → C)
      → IoResult (List SocketAddr)
      → Lio W C B
      → Waited (IoResult TcpListener) W C B
  unfolding wait_io proceed Socket.new Socket.bind Socket.listen
  bind_sync c₁ c₂ c₃ (err e) lio = ret (value (err e), lio, [])
  bind_sync c₁ c₂ c₃ (ok addrs) lio =
      wait_io socket_new c₁ (Socket.new af_inet sock_stream (pos 0)) lio >>= λ created.
      proceed []
        (λ s made. expect (first_address addrs) >>= λ addr.
          wait_io Sockets.bind c₂ (Socket.bind little at s addr) made >>= λ bound.
          proceed (drop_socket s)
            (λ u kept. wait_io Sockets.listen c₃ (Socket.listen s) kept >>= λ heard.
              proceed (drop_socket s) (λ v done. ret (value (ok (record { inner = s })), done, []))
                heard)
            bound)
        created

-- The operation that both functions start with.
abbrev pub request : SocketNew
request = record { domain = af_inet; ty = sock_stream; proto = pos 0 }

module _ {H W C B : Type 0} (backend : IoBackend B) (little : Bool) (at : Pointer) (h : H) where
  -- What becomes of a call when the driver has been asked to make the socket: it blocks, with the driver
  -- as it is then, or panics if it was refused.
  abbrev pub stuck : {R : Type 0} → Outcome (IoResult ℕ × Lio W C B) → Waited R W C B
  stuck panic = panic
  stuck (ret (err e, lio)) = panic
  stuck (ret (ok id, lio)) = ret (blocks, lio, [])

  -- The callback, which has the sender of the channel, waits in the store for a round.
  abbrev pub IsHeld : C → Outcome (IoResult ℕ × Lio W C B) → Type 0
  IsHeld c panic = Unit
  IsHeld c (ret (err e, lio)) = Unit
  IsHeld c (ret (ok id, lio)) = Store.get lio.store id ≡ some (pending (callback c))

  -- The driver is asked to make an IPv4 stream socket.
  abbrev pub asked : (SocketNew → C) → Lio W C B → Outcome (IoResult ℕ × Lio W C B)
  asked c lio = schedule backend lio (Op.socket (pos 2) (pos 1) (pos 0)) (new_callback (c request))

  abbrev waited_of :
      Outcome (IoResult ℕ × Lio W C B) → Outcome (Received (IoResult Socket.Socket) × Lio W C B)
  waited_of panic = panic
  waited_of (ret (err e, lio)) = panic
  waited_of (ret (ok id, lio)) = ret (blocks, lio)

  wait_io_stuck :
      (c : SocketNew → C) (lio : Lio W C B) (made : Outcome (IoResult ℕ × Lio W C B))
      → asked c lio ≡ made
      → wait_io backend little at (some h) socket_new c (Socket.new af_inet sock_stream (pos 0)) lio
        ≡ waited_of made
  unfolding wait_io into_lio wait send recv when_done socket_new Socket.new
  wait_io_stuck c lio panic e = ground (arith, e)
  wait_io_stuck c lio (ret (err x, l)) e = ground (arith, e)
  wait_io_stuck c lio (ret (ok id, l)) e = ground (arith, e)

  sync_stuck :
      (c₁ : SocketNew → C) (c₂ : Connect → C) (c₃ : Bind → C) (c₄ : Listen → C) (addr : SocketAddr)
      (addrs : List SocketAddr) (lio : Lio W C B) (made : Outcome (IoResult ℕ × Lio W C B))
      → asked c₁ lio ≡ made
      → (connect_sync backend little at (some h) c₁ c₂ addr lio ≡ stuck made)
        × (bind_sync backend little at (some h) c₁ c₃ c₄ (ok addrs) lio ≡ stuck made)
  unfolding connect_sync bind_sync proceed
  sync_stuck c₁ c₂ c₃ c₄ addr addrs lio panic e =
      let w = wait_io_stuck c₁ lio panic e in (ground (arith, w), ground (arith, w))
  sync_stuck c₁ c₂ c₃ c₄ addr addrs lio (ret (err x, l)) e =
      let w = wait_io_stuck c₁ lio (ret (err x, l)) e in (ground (arith, w), ground (arith, w))
  sync_stuck c₁ c₂ c₃ c₄ addr addrs lio (ret (ok id, l)) e =
      let w = wait_io_stuck c₁ lio (ret (ok id, l)) e in (ground (arith, w), ground (arith, w))

  -- On a driver whose store is well formed, has room and no slot of the last generation:
  -- `connect_sync`, and `bind_sync` with the addresses resolved, ask the driver to make an IPv4 stream
  -- socket. If it accepts, they block with the driver as it is then, where the callback that has the
  -- sender of the channel waits in the store, not yet called. If it does not, they panic. They close
  -- nothing, whatever the addresses.
  pub sync_never_returns :
      (c₁ : SocketNew → C) (c₂ : Connect → C) (c₃ : Bind → C) (c₄ : Listen → C) (addr : SocketAddr)
      (addrs : List SocketAddr) (lio : Lio W C B)
      → IsWf lio.store
      → IsYoungStore lio.store
      → occupied lio.store.slots < lio.store.capacity
      → (connect_sync backend little at (some h) c₁ c₂ addr lio ≡ stuck (asked c₁ lio))
        × (bind_sync backend little at (some h) c₁ c₃ c₄ (ok addrs) lio ≡ stuck (asked c₁ lio))
        × IsHeld (c₁ request) (asked c₁ lio)
  unfolding new_callback
  sync_never_returns c₁ c₂ c₃ c₄ addr addrs lio v young room =
      let (connects, binds) = sync_stuck c₁ c₂ c₃ c₄ addr addrs lio (asked c₁ lio) refl in
      let (id, small, fresh, low, how) =
        schedule-cases backend lio (Op.socket (pos 2) (pos 1) (pos 0)) (new_callback (c₁ request)) v
          young room in
      (
        connects,
        binds,
        elim how [
          | accepted s b pushed run valid reads ↦ rw run (reads id small ∙ rw (==_refl id) refl)
          | undone s b e pushed run valid reads ↦ rw run tt
          | panicked pushed run ↦ rw run tt
        ],
      )
