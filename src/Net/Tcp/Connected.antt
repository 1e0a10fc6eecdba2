-- ===== src/Net/Tcp/Connected.antt =====
-- Runs of `connect_async` and `bind_async`, poll by poll, over what the driver answers.
use lio.Base.{
  ℕ, ◌≡◌, Bool, false, some, List, [], ◌∷◌, ℤ, pos, is_neg, pos_part, ret, panic, ok, err,
  if◌then◌else◌, arith,
}
use lio.Op.{Op, Pointer, IoBackend}
use lio.Syscall.{Syscall}
use lio.Net.{SocketAddr, std_socketaddr_into_libc}
use lio.Poller.{as_i32}
use lio.Registration.{new_waker}
use lio.Driver.{Lio, schedule, check_done, result}
use lio.Io.{ready, not_ready, inflight, into_lio}
use lio.Typed.{raw_os_error, unit_result}
use lio.Typed.Sockets.{addr_len, Bind, Connect, Listen, new_connect, new_bind}
use lio.Typed.Sockets
use lio.Net.Socket
use lio.Net.Socket.{SocketNew, socket_new}
use lio.Net.Tcp.{Connecting, poll_connect}
use lio.Net.Tcp.Binding.{Binding, poll_bind}

module _ {H W C B : Type 0} (backend : IoBackend B) (little : Bool) (at : Pointer) (h : H) where
  -- A run of `connect_async` whose operations the driver schedules and completes with `r₁` and `r₂`,
  -- whatever happens to it between the polls. It asks for an IPv4 stream socket, and fails if that
  -- does, with nothing else scheduled; else it connects that socket to the address. It then returns
  -- the socket, or the error of the connection, having closed the socket.
  pub poll_connect-run :
      (addr : SocketAddr) (w₁ w₂ w₃ : W) (l₀ l₁ l₂ l₃ l₄ l₅ l₆ : Lio W C B) (id₁ id₂ : ℕ)
      (r₁ r₂ : ℤ)
      → schedule backend l₀ (Op.socket (pos 2) (pos 1) (pos 0)) (new_waker w₁) ≡ ret (ok id₁, l₁)
      → check_done l₂ id₁ ≡ ret (result r₁, l₃)
      → schedule backend l₃
          (Op.connect
            (as_i32 (pos_part r₁))
            at
            (addr_len (std_socketaddr_into_libc little addr))
            false)
          (new_waker w₂)
        ≡ ret (ok id₂, l₄)
      → check_done l₅ id₂ ≡ ret (result r₂, l₆)
      → (s₁ s₂ : Connecting) × (poll_connect backend little at
            (some h)
            (Connecting.unstarted addr)
            w₁
            l₀
          ≡ ret (not_ready, s₁, l₁, [], []))
        × (poll_connect backend little at (some h) s₁ w₂ l₂ ≡ (
            if is_neg r₁
            then ret (ready (err (raw_os_error r₁)), Connecting.returned, l₃, [], [])
            else ret (not_ready, s₂, l₄, [], [])))
        × (poll_connect backend little at (some h) s₂ w₃ l₅ ≡ (
            if is_neg r₂
            then ret (
              ready (err (raw_os_error r₂)),
              Connecting.returned,
              l₆,
              [],
              Syscall.close (as_i32 (pos_part r₁)) ∷ [],
            )
            else ret (
              ready (ok (record { inner = Socket.from_resource (as_i32 (pos_part r₁)) })),
              Connecting.returned,
              l₆,
              [],
              [],
            )))
  unfolding poll_connect socket_new Socket.new into_lio Sockets.connect new_connect unit_result
  poll_connect-run addr w₁ w₂ w₃ l₀ l₁ l₂ l₃ l₄ l₅ l₆ id₁ id₂ r₁ r₂ made created asked connected = (
    Connecting.creating (inflight id₁ (record { domain = pos 2; ty = pos 1; proto = pos 0 })) addr,
    Connecting.connecting (Socket.from_resource (as_i32 (pos_part r₁)))
        (inflight id₂ (new_connect little at (as_i32 (pos_part r₁)) addr)),
    ground (arith, made),
    ground (arith, created, asked),
    ground (arith, connected),
  )

  -- A run of `bind_async` whose operations the driver schedules and completes with `r₁`, `r₂` and
  -- `r₃`. It asks for an IPv4 stream socket, also for an IPv6 address, and fails if that does; else it
  -- binds that socket to the first address, and listens on it. An error of one of these is returned,
  -- with the socket closed and nothing else scheduled. If no address was resolved, it panics once it
  -- has the socket.
  pub poll_bind-run :
      (addr : SocketAddr) (later : List SocketAddr) (w₁ w₂ w₃ w₄ : W)
      (l₀ l₁ l₂ l₃ l₄ l₅ l₆ l₇ l₈ l₉ : Lio W C B) (id₁ id₂ id₃ : ℕ) (r₁ r₂ r₃ : ℤ)
      → schedule backend l₀ (Op.socket (pos 2) (pos 1) (pos 0)) (new_waker w₁) ≡ ret (ok id₁, l₁)
      → check_done l₂ id₁ ≡ ret (result r₁, l₃)
      → schedule backend l₃
          (Op.bind (as_i32 (pos_part r₁)) at (addr_len (std_socketaddr_into_libc little addr)))
          (new_waker w₂)
        ≡ ret (ok id₂, l₄)
      → check_done l₅ id₂ ≡ ret (result r₂, l₆)
      → schedule backend l₆ (Op.listen (as_i32 (pos_part r₁)) (pos 128)) (new_waker w₃)
        ≡ ret (ok id₃, l₇)
      → check_done l₈ id₃ ≡ ret (result r₃, l₉)
      → (s₁ s₁' s₂ s₃ : Binding) × (poll_bind backend little at
            (some h)
            (Binding.unstarted (ok (addr ∷ later)))
            w₁
            l₀
          ≡ ret (not_ready, s₁, l₁, [], []))
        × (poll_bind backend little at (some h) s₁ w₂ l₂ ≡ (
            if is_neg r₁
            then ret (ready (err (raw_os_error r₁)), Binding.returned, l₃, [], [])
            else ret (not_ready, s₂, l₄, [], [])))
        × (poll_bind backend little at (some h) s₂ w₃ l₅ ≡ (
            if is_neg r₂
            then ret (
              ready (err (raw_os_error r₂)),
              Binding.returned,
              l₆,
              [],
              Syscall.close (as_i32 (pos_part r₁)) ∷ [],
            )
            else ret (not_ready, s₃, l₇, [], [])))
        × (poll_bind backend little at (some h) s₃ w₄ l₈ ≡ (
            if is_neg r₃
            then ret (
              ready (err (raw_os_error r₃)),
              Binding.returned,
              l₉,
              [],
              Syscall.close (as_i32 (pos_part r₁)) ∷ [],
            )
            else ret (
              ready (ok (record { inner = Socket.from_resource (as_i32 (pos_part r₁)) })),
              Binding.returned,
              l₉,
              [],
              [],
            )))
        × (poll_bind backend little at (some h) (Binding.unstarted (ok [])) w₁ l₀
            ≡ ret (not_ready, s₁', l₁, [], []))
        × (poll_bind backend little at (some h) s₁' w₂ l₂ ≡ (
            if is_neg r₁
            then ret (ready (err (raw_os_error r₁)), Binding.returned, l₃, [], [])
            else panic))
  unfolding poll_bind socket_new Socket.new into_lio Sockets.bind Sockets.listen new_bind
      unit_result Socket.listen Socket.bind
  poll_bind-run addr later w₁ w₂ w₃ w₄ l₀ l₁ l₂ l₃ l₄ l₅ l₆ l₇ l₈ l₉ id₁ id₂ id₃ r₁ r₂ r₃ made
        created asked bound heard listened =
      let s : Socket.Socket = Socket.from_resource (as_i32 (pos_part r₁)) in
      let request : SocketNew = record { domain = pos 2; ty = pos 1; proto = pos 0 } in
      (
        Binding.creating (inflight id₁ request) (addr ∷ later),
        Binding.creating (inflight id₁ request) [],
        Binding.binding s (inflight id₂ (new_bind little at (as_i32 (pos_part r₁)) addr)),
        Binding.listening s
            (inflight id₃ (record { res = as_i32 (pos_part r₁); backlog = pos 128 })),
        ground (arith, made),
        ground (arith, created, asked),
        ground (arith, bound, heard),
        ground (arith, listened),
        ground (arith, made),
        ground (arith, created),
      )
