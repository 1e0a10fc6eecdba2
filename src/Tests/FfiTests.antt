-- ===== src/Tests/FfiTests.antt =====
-- The C interface: a shutdown over the dummy backend, a write that fails, and a link-local address.
use lio.Base.{
  ℕ, ◌≡◌, refl, true, false, none, some, [], ◌∷◌, ◌++◌, arith, pos, negsuc, ret, os, replicate,
}
use lio.Op.{Op}
use lio.Net.{inet6, SockaddrStorage, unsupported}
use lio.Store
use lio.Store.{with_capacity}
use lio.Store.Invariant.{with_capacity-IsWf}
use lio.Dummy
use lio.Dummy.{DummyBackend, succeeded}
use lio.Registration.{callback, pending}
use lio.Resource.{Heap, from_raw_fd, clone, drop, count}
use lio.Typed.{Vec, unit_result}
use lio.Typed.Buffers.{new_write_at}
use lio.Typed.Sockets.{Shutdown}
use lio.Typed.Sockets
use lio.Typed.Sockets.{addr_len}
use lio.Net.{libc_socketaddr_into_std}
use lio.Ffi.{
  Task, shutdown, write_at, Closure, Call, code, Outside, Handle, answer, complete, unit_code,
  new_resource, release, sockaddr_to_socketaddr,
}
use lio.Ffi.Calling.{lend, start, lio_tick, lio_bind}
use lio.Ffi.Addresses.{read_by_c, sockaddr_to_socketaddr-libc_socketaddr_into_std}
use lio.Ffi.Codes.{given, answer-given}
use lio.Ffi.Ownership.{lent_stays_open}
use lio.Ffi.Ticking.{start-lio_tick}
use lio.Tests.IoTests.{started, new_young, new_room}

abbrev linux : Outside
linux = record { little = true; last_os_error = os 0; written = unsupported 0 }

abbrev bytes : Vec
bytes = record { ptr = 4096; capacity = 8; len = 8 }

abbrev writing : Task
writing = write_at (new_write_at (pos 3) bytes (pos 0))

-- A write that fails with EINTR: minus four, and the buffer back.
answer-given_example :
    (call : Call) × (answer linux writing 77 (negsuc 3) ≡ ret call)
    × (given call ≡ (77, negsuc 3, some 4096))
unfolding new_write_at
answer-given_example =
    answer-given linux writing 77 (negsuc 3) (some bytes) (omega arith, omega arith)
      (refl, (bytes, refl))

abbrev half_closed : Shutdown
half_closed = record { res = pos 3; how = pos 1 }

abbrev closing : Closure
closing = record { task = shutdown half_closed; callback = 77; resource = some 0 }

abbrev lent : Heap
lent = (record { inner = pos 3; strong = 3 }) ∷ []

lent_stays_open_example :
    (h₂ h₃ k₂ k₃ : Heap) × (complete linux closing (pos 0) lent ≡ ret (code 77 (pos 0), [], h₂))
    × (drop 0 h₂ ≡ ret ([], h₃))
    × (count 0 h₃ ≡ ret 1)
    × (drop 0 lent ≡ ret ([], k₂))
    × (complete linux closing (pos 0) k₂ ≡ ret (code 77 (pos 0), [], k₃))
    × (count 0 k₃ ≡ ret 1)
unfolding lend from_raw_fd clone answer Sockets.shutdown unit_result unit_code
lent_stays_open_example =
    lent_stays_open linux closing (pos 0) (pos 3) [] lent 0 (code 77 (pos 0)) refl refl refl

-- The address fe80::1 on the interface 2.
abbrev link_local : SockaddrStorage
link_local = inet6 36895 (254 ∷ 128 ∷ replicate 13 0 ++ 1 ∷ []) 0 2

sockaddr_to_socketaddr-libc_socketaddr_into_std_example :
    (sockaddr_to_socketaddr true (some link_local) 28
      ≡ read_by_c true false (libc_socketaddr_into_std true link_local))
    × (sockaddr_to_socketaddr true none 28 ≡ none)
sockaddr_to_socketaddr-libc_socketaddr_into_std_example =
    sockaddr_to_socketaddr-libc_socketaddr_into_std true link_local 28 (refl, omega arith)

abbrev holding : ℕ → DummyBackend
holding id = record { pending = id ∷ []; completed = []; initialized = true }

abbrev finished : ℕ → DummyBackend
finished id = record { pending = []; completed = succeeded id ∷ []; initialized = true }

start-lio_tick_example :
    (id : ℕ) × (l₁ l₂ : Handle ℕ DummyBackend) × (start Dummy.backend Sockets.shutdown half_closed
        shutdown 77
        (some 0)
        lent
        started
      ≡ ret l₁)
    × (lio_tick Dummy.backend linux l₁ ≡ ret (pos 1, code 77 (pos 0) ∷ [], [], l₂))
    × (l₂.heap ≡ (record { inner = pos 3; strong = 2 }) ∷ [])
    × (Store.get l₁.inner.store id ≡ some (pending (callback closing)))
    × (Store.get l₂.inner.store id ≡ none)
unfolding Sockets.shutdown Dummy.backend Dummy.push Dummy.flush Dummy.wait_timeout complete answer
    unit_result unit_code new_resource release drop
start-lio_tick_example =
    start-lio_tick Dummy.backend Sockets.shutdown linux started half_closed half_closed
      (Op.shutdown (pos 3) (pos 1)) shutdown 77 (some 0) lent
      ((record { inner = pos 3; strong = 2 }) ∷ []) (pos 0) (code 77 (pos 0)) [] holding holding
      finished 0 (with_capacity-IsWf 3) (record { young = new_young }) (new_room _) refl
      (λ id. refl) (λ id. refl) (λ id. refl) refl

-- A null address calls the callback with minus EINVAL at once.
bind_refused :
    (l : Handle ℕ DummyBackend)
    → lio_bind Dummy.backend true 0 l (pos 3) none 16 77 ≡ ret (code 77 (negsuc 21) ∷ [], l)
unfolding lio_bind sockaddr_to_socketaddr
bind_refused l = refl
