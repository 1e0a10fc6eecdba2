-- ===== src/Tests/NetTests.antt =====
-- A connection that is refused, a listener, and the functions that wait, over the dummy backend.
use lio.Base.{
  ℕ, ◌^◌, ◌≡◌, refl, true, Option, none, some, List, IoResult, Outcome, ◌*◌, panic, [], ◌∷◌, ℤ, pos,
  negsuc, ret, ok, err, os,
}
use lio.Syscall.{Syscall}
use lio.Net.{v4, v6, std_socketaddr_into_libc}
use lio.Store
use lio.Store.{OpStore}
use lio.Store.Invariant.{with_capacity-IsWf}
use lio.Registration.{Registration, done, waker, callback}
use lio.Driver.{Lio, schedule, check_done}
use lio.Dummy
use lio.Dummy.{DummyBackend}
use lio.Io.{ready, not_ready}
use lio.Net.Socket
use lio.Net.Tcp.{Connecting, poll_connect, Polled, TcpSocket, TcpListener}
use lio.Net.Tcp.Binding.{Binding, poll_bind}
use lio.Net.Tcp.Connected.{poll_connect-run, poll_bind-run}
use lio.Net.Tcp.Waiting.{stuck, asked, IsHeld, connect_sync, bind_sync, sync_never_returns}
use lio.Tests.DriverTests.{Reg, vacant_slot}
use lio.Tests.IoTests.{fresh, empty, new_young, new_room}
use lio.Tests.TypedTests.{localhost, loopback}

-- The slot 0 with its generation and its entry, what the free list holds, and what is submitted.
abbrev slot_0 : ℕ → Option Reg → List ℕ → List ℕ → Lio ℕ ℕ DummyBackend
slot_0 generation entry free submitted = record {
  store = record {
    slots = (record { generation = generation; entry = entry }) ∷ vacant_slot ∷ vacant_slot ∷ [];
    free_list = free;
    next_slot = 1;
    capacity = 3;
  };
  io = record fresh { pending = submitted };
}

abbrev awaits : ℕ → Option Reg
awaits w = some (Registration.pending (waker (some w)))

abbrev finished : ℤ → Option Reg
finished r = some (done (some r))

abbrev a_socket : Socket.Socket
a_socket = Socket.from_resource (pos 5)

abbrev connects :
    Connecting → Lio ℕ ℕ DummyBackend → Polled (IoResult TcpSocket) Connecting ℕ ℕ DummyBackend
connects s lio = poll_connect {H = ℕ} Dummy.backend true 64 (some 0) s 4 lio

abbrev binds :
    Binding → Lio ℕ ℕ DummyBackend → Polled (IoResult TcpListener) Binding ℕ ℕ DummyBackend
binds s lio = poll_bind {H = ℕ} Dummy.backend true 64 (some 0) s 4 lio

-- The socket is the descriptor 5, and its connection is refused.
poll_connect-run_example :
    (s₁ s₂ : Connecting) × (connects (Connecting.unstarted (v4 localhost)) empty
      ≡ ret (not_ready, s₁, slot_0 0 (awaits 4) [] (0 ∷ []), [], []))
    × (connects s₁ (slot_0 0 (finished (pos 5)) [] [])
        ≡ ret (not_ready, s₂, slot_0 1 (awaits 4) [] (2 ^ 32 ∷ []), [], []))
    × (connects s₂ (slot_0 1 (finished (negsuc 110)) [] [])
        ≡ ret (
          ready (err (os 111)),
          Connecting.returned,
          slot_0 2 none (0 ∷ []) [],
          [],
          Syscall.close (pos 5) ∷ [],
        ))
unfolding Dummy.backend Dummy.push schedule check_done std_socketaddr_into_libc Store.insert
    Store.try_insert Store.with_capacity Store.as_u64 Store.get Store.from_u64 Store.put
    Store.remove lio.Registration.new_waker lio.Registration.try_take_result
    lio.Registration.result_consumed
poll_connect-run_example =
    poll_connect-run Dummy.backend true 64 0 (v4 localhost) 4 4 4 empty _
      (slot_0 0 (finished (pos 5)) [] []) (slot_0 1 none (0 ∷ []) []) _
      (slot_0 1 (finished (negsuc 110)) [] []) _ 0 (2 ^ 32) (pos 5) (negsuc 110) refl refl refl refl

-- The socket is bound, and no other may listen; and the resolution that finds no address.
poll_bind-run_example :
    (s₁ s₁' s₂ s₃ : Binding) × (binds
        (Binding.unstarted (ok (v4 localhost ∷ v6 loopback ∷ [])))
        empty
      ≡ ret (not_ready, s₁, slot_0 0 (awaits 4) [] (0 ∷ []), [], []))
    × (binds s₁ (slot_0 0 (finished (pos 5)) [] [])
        ≡ ret (not_ready, s₂, slot_0 1 (awaits 4) [] (2 ^ 32 ∷ []), [], []))
    × (binds s₂ (slot_0 1 (finished (pos 0)) [] [])
        ≡ ret (not_ready, s₃, slot_0 2 (awaits 4) [] (2 * 2 ^ 32 ∷ []), [], []))
    × (binds s₃ (slot_0 2 (finished (negsuc 97)) [] [])
        ≡ ret (
          ready (err (os 98)),
          Binding.returned,
          slot_0 3 none (0 ∷ []) [],
          [],
          Syscall.close (pos 5) ∷ [],
        ))
    × (binds (Binding.unstarted (ok [])) empty
        ≡ ret (not_ready, s₁', slot_0 0 (awaits 4) [] (0 ∷ []), [], []))
    × (binds s₁' (slot_0 0 (finished (pos 5)) [] []) ≡ panic)
unfolding Dummy.backend Dummy.push schedule check_done std_socketaddr_into_libc Store.insert
    Store.try_insert Store.with_capacity Store.as_u64 Store.get Store.from_u64 Store.put
    Store.remove lio.Registration.new_waker lio.Registration.try_take_result
    lio.Registration.result_consumed
poll_bind-run_example =
    poll_bind-run Dummy.backend true 64 0 (v4 localhost) (v6 loopback ∷ []) 4 4 4 4 empty _
      (slot_0 0 (finished (pos 5)) [] []) (slot_0 1 none (0 ∷ []) []) _
      (slot_0 1 (finished (pos 0)) [] []) (slot_0 2 none (0 ∷ []) []) _
      (slot_0 2 (finished (negsuc 97)) [] []) _ 0 (2 ^ 32) (2 * 2 ^ 32) (pos 5) (pos 0) (negsuc 97)
      refl refl refl refl refl refl

abbrev unused : {A : Type 0} → A → ℕ
unused a = 0

abbrev asks : Outcome (IoResult ℕ × Lio ℕ ℕ DummyBackend)
asks = asked {H = ℕ} Dummy.backend true 64 0 unused empty

sync_never_returns_example :
    (connect_sync {H = ℕ} Dummy.backend true 64 (some 0) unused unused (v4 localhost) empty
      ≡ stuck {H = ℕ} Dummy.backend true 64 0 asks)
    × (bind_sync {H = ℕ} Dummy.backend true 64
          (some 0)
          unused
          unused
          unused
          (ok (v4 localhost ∷ v6 loopback ∷ []))
          empty
        ≡ stuck {H = ℕ} Dummy.backend true 64 0 asks)
    × IsHeld {H = ℕ} Dummy.backend true 64 0 0 asks
sync_never_returns_example =
    sync_never_returns Dummy.backend true 64 0 unused unused unused unused (v4 localhost)
      (v4 localhost ∷ v6 loopback ∷ []) empty (with_capacity-IsWf 3) (record { young = new_young })
      (new_room _)

-- The operation has the key 0.
asks_lem : asks ≡ ret (ok 0, slot_0 0 (some (Registration.pending (callback 0))) [] (0 ∷ []))
unfolding Dummy.backend Dummy.push schedule Store.insert Store.try_insert Store.with_capacity
    Store.as_u64 lio.Registration.new_callback
asks_lem = refl
