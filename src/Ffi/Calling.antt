-- ===== src/Ffi/Calling.antt =====
-- lio/src/ffi.rs: the functions of the C interface. Each one starts a typed operation with
-- `when_done`, whose failure is a panic.
use lio.Base.{
  ℕ, ◌*◌, ◌/◌, ◌%◌, Bool, Option, none, some, List, [], ◌∷◌, ◌++◌, ℤ, negsuc, neg, Outcome, ret,
  ◌>>=◌, expect, os, ok, err,
}
use lio.Op.{Pointer, RawFd, IoBackend}
use lio.Syscall.{Syscall}
use lio.Net.{SockaddrStorage, unsupported}
use lio.Poller.{as_i32}
use lio.Registration.{Effect, woke, called}
use lio.Resource.{Resource, Heap, from_raw_fd, clone}
use lio.Driver.{Lio, new_with_backend, try_run}
use lio.Io.{TypedOp, when_done}
use lio.Typed.{vec}
use lio.Typed.Buffers.{new_write_at, new_read_at, new_send, new_recv}
use lio.Typed.Buffers
use lio.Typed.Files
use lio.Typed.Sockets.{Accept, new_bind}
use lio.Typed.Sockets
use lio.Ffi.{
  Task, shutdown, fsync, truncate, write_at, read_at, socket, bind, accept, listen, send, recv,
  close, timeout, Closure, Call, code, Outside, Handle, sockaddr_to_socketaddr, complete,
}

-- `EINVAL`.
abbrev pub einval : ℕ
einval = 22

-- `fd_to_resource`, the clone that the typed operation takes, and that of its `into_op`.
unfoldable pub lend : RawFd → Heap → Outcome (Resource × Heap)
unfolding from_raw_fd
lend fd h = let (r, h') = from_raw_fd fd h in clone r h' >>= λ kept. clone r kept.1

-- The timer's resource, with the clone of `into_op`.
unfoldable pub own : RawFd → Heap → Outcome (Resource × Heap)
unfolding from_raw_fd
own fd h = let (r, h') = from_raw_fd fd h in clone r h'

-- What `lio_tick` does with the notifications of a round: the calls and the descriptors closed.
unfoldable pub complete_all :
    {W : Type 0}
    → Outside
    → List (Effect W Closure)
    → Heap
    → Outcome (List Call × List Syscall × Heap)
complete_all out [] h = ret ([], [], h)
complete_all out (woke w ∷ later) h = complete_all out later h
complete_all out (called c res ∷ later) h = complete out c res h >>= λ one.
    complete_all out later one.2 >>= λ rest. ret (one.0 ∷ rest.0, one.1 ++ rest.1, rest.2)

module _ {W B : Type 0} (backend : IoBackend B) where
  -- The null pointer is `none`.
  unfoldable pub lio_create : B → ℕ → Outcome (Option (Handle W B))
  lio_create b capacity = new_with_backend backend b capacity >>= λ made. elim made [
    | ok inner ↦ ret (some (record { inner = inner; heap = [] }))
    | err e ↦ ret none
  ]

  -- The driver is dropped with its backend; `drop_backend` lists what that closes. `Drop` of a
  -- callback frees neither the closure nor its typed operation, so that the cells stay as they are.
  unfoldable lio_destroy : (B → List Syscall) → Option (Handle W B) → List Syscall × Option Heap
  lio_destroy drop_backend none = ([], none)
  lio_destroy drop_backend (some lio) = (drop_backend lio.inner.io, some lio.heap)

  -- The number of completions is cast to an `int`.
  unfoldable pub lio_tick :
      Outside → Handle W B → Outcome (ℤ × List Call × List Syscall × Handle W B)
  unfolding complete_all
  lio_tick out lio = try_run backend lio.inner >>= λ ran.
      complete_all out ran.2 lio.heap >>= λ rest. ret (
        elim ran.0 [ ok n ↦ as_i32 n | err e ↦ negsuc 0 ],
        rest.0,
        rest.1,
        record { inner = ran.1; heap = rest.2 },
      )

  unfoldable pub start :
      {T R : Type 0}
      → TypedOp T R
      → T
      → (T → Task)
      → Pointer
      → Option Resource
      → Heap
      → Lio W Closure B
      → Outcome (Handle W B)
  start typed t task callback resource h inner =
      when_done typed backend t
        (λ boxed. record { task = task boxed; callback = callback; resource = resource }) inner
      >>= λ inner'. ret (record { inner = inner'; heap = h })

  unfoldable pub lio_shutdown : Handle W B → RawFd → ℤ → Pointer → Outcome (Handle W B)
  unfolding lend start
  lio_shutdown lio fd how cb = lend fd lio.heap >>= λ res.
      start Sockets.shutdown (record { res = fd; how = how }) shutdown cb (some res.0) res.1
        lio.inner

  unfoldable pub lio_fsync : Handle W B → RawFd → Pointer → Outcome (Handle W B)
  unfolding lend start
  lio_fsync lio fd cb = lend fd lio.heap >>= λ res.
      start Files.fsync (record { res = fd }) fsync cb (some res.0) res.1 lio.inner

  unfoldable pub lio_truncate : Handle W B → RawFd → ℕ → Pointer → Outcome (Handle W B)
  unfolding lend start
  lio_truncate lio fd len cb = lend fd lio.heap >>= λ res.
      start Files.truncate (record { res = fd; size = len }) truncate cb (some res.0) res.1
        lio.inner

  unfoldable pub lio_write_at :
      Handle W B → RawFd → Pointer → ℕ → ℤ → Pointer → Outcome (Handle W B)
  unfolding lend start new_write_at
  lio_write_at lio fd buf buf_len offset cb = lend fd lio.heap >>= λ res.
      start (Buffers.write_at vec)
        (new_write_at fd (record { ptr = buf; capacity = buf_len; len = buf_len }) offset) write_at
        cb (some res.0) res.1 lio.inner

  unfoldable pub lio_read_at : Handle W B → RawFd → Pointer → ℕ → ℤ → Pointer → Outcome (Handle W B)
  unfolding lend start new_read_at
  lio_read_at lio fd buf buf_len offset cb = lend fd lio.heap >>= λ res.
      start (Buffers.read_at vec)
        (new_read_at fd (record { ptr = buf; capacity = buf_len; len = buf_len }) offset) read_at cb
        (some res.0) res.1 lio.inner

  unfoldable pub lio_socket : Handle W B → ℤ → ℤ → ℤ → Pointer → Outcome (Handle W B)
  unfolding start
  lio_socket lio domain ty proto cb =
      start Sockets.socket (record { domain = domain; ty = ty; proto = proto }) socket cb none
        lio.heap lio.inner

  -- An address that is refused calls the callback at once. `addr_at` is where the operation keeps it.
  unfoldable pub lio_bind :
      Bool
      → Pointer
      → Handle W B
      → RawFd
      → Option SockaddrStorage
      → ℕ
      → Pointer
      → Outcome (List Call × Handle W B)
  unfolding lend start new_bind
  lio_bind little addr_at lio fd sock sock_len cb =
      elim (sockaddr_to_socketaddr little sock sock_len) [
        | none ↦ ret (code cb (neg einval) ∷ [], lio)
        | some addr ↦ lend fd lio.heap >>= λ res.
            start Sockets.bind (new_bind little addr_at fd addr) bind cb (some res.0) res.1
              lio.inner
            >>= λ after. ret ([], after)
      ]

  -- The address starts as zeros.
  unfoldable pub lio_accept :
      Bool → Pointer → Pointer → Handle W B → RawFd → Pointer → Outcome (Handle W B)
  unfolding lend start
  lio_accept little addr_at len_at lio fd cb = lend fd lio.heap >>= λ res.
      start (Sockets.accept little)
        (record { res = fd; addr = unsupported 0; addr_at = addr_at; len_at = len_at }) accept cb
        (some res.0) res.1 lio.inner

  unfoldable pub lio_listen : Handle W B → RawFd → ℤ → Pointer → Outcome (Handle W B)
  unfolding lend start
  lio_listen lio fd backlog cb = lend fd lio.heap >>= λ res.
      start Sockets.listen (record { res = fd; backlog = backlog }) listen cb (some res.0) res.1
        lio.inner

  unfoldable pub lio_send : Handle W B → RawFd → Pointer → ℕ → ℤ → Pointer → Outcome (Handle W B)
  unfolding lend start new_send
  lio_send lio fd buf buf_len flags cb = lend fd lio.heap >>= λ res.
      start (Buffers.send vec)
        (new_send fd (record { ptr = buf; capacity = buf_len; len = buf_len }) (some flags)) send cb
        (some res.0) res.1 lio.inner

  unfoldable pub lio_recv : Handle W B → RawFd → Pointer → ℕ → ℤ → Pointer → Outcome (Handle W B)
  unfolding lend start new_recv
  lio_recv lio fd buf buf_len flags cb = lend fd lio.heap >>= λ res.
      start (Buffers.recv vec)
        (new_recv fd (record { ptr = buf; capacity = buf_len; len = buf_len }) (some flags)) recv cb
        (some res.0) res.1 lio.inner

  unfoldable pub lio_close : Handle W B → RawFd → Pointer → Outcome (Handle W B)
  unfolding start
  lio_close lio fd cb = start Files.close (record { fd = fd }) close cb none lio.heap lio.inner

  -- `Duration::from_millis`. `timer` is the descriptor of the timer that the operation makes, if it
  -- can; only `into_op` is called here, so that the errno is not read.
  unfoldable pub lio_timeout :
      Option RawFd → Pointer → Handle W B → ℕ → Pointer → Outcome (Handle W B)
  unfolding own start
  lio_timeout timer timespec_at lio millis cb = expect timer >>= λ fd. own fd lio.heap >>= λ res.
      start (Files.timeout (os 0))
        (record {
          duration = record { secs = millis / 1000; nanos = millis % 1000 * 1000000 };
          timer_res = fd;
          timespec_at = timespec_at;
        })
        timeout cb (some res.0) res.1 lio.inner
