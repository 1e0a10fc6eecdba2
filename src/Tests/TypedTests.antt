-- ===== src/Tests/TypedTests.antt =====
-- Addresses, and typed operations on a vector of capacity 8 that holds 3 bytes.
use lio.Base.{
  ℕ, ◌*◌, ◌+◌, ◌^◌, ◌≤◌, ◌≡◌, refl, true, [], ◌∷◌, ◌++◌, arith, pos, negsuc, ret, ok, replicate,
  suc,
}
use lio.Op.{Op}
use lio.Net.{
  SocketAddrV4, SocketAddrV6, v4, v6, std_socketaddr_into_libc, libc_socketaddr_into_std, inet,
}
use lio.Net.Roundtrip.{plain_v6, libc_socketaddr_into_std-std_socketaddr_into_libc}
use lio.Syscall.{Kernel, eisconn}
use lio.Syscall
use lio.Poller.{run_op_blocking}
use lio.Typed.{Vec, vec}
use lio.Typed.Buffers.{read, new_read}
use lio.Typed.Files.{Timeout}
use lio.Typed.Lengths.{read-run_op_blocking}

abbrev pub localhost : SocketAddrV4
localhost = record { ip = 127 * 2 ^ 24 + 1; port = 8080 }

abbrev pub loopback : SocketAddrV6
loopback = record { octets = replicate 15 0 ++ 1 ∷ []; port = 443; flowinfo = 5; scope_id = 3 }

-- The port 8080 is 0x1f90; a target with low bytes first stores it as 0x901f.
stored : std_socketaddr_into_libc true (v4 localhost) ≡ inet 36895 16777343
unfolding std_socketaddr_into_libc
stored = refl

libc_socketaddr_into_std-std_socketaddr_into_libc_example :
    (libc_socketaddr_into_std true (std_socketaddr_into_libc true (v4 localhost))
      ≡ ok (v4 localhost))
    × (libc_socketaddr_into_std true (std_socketaddr_into_libc true (v6 loopback))
        ≡ ok (v6 (plain_v6 loopback.octets 443)))
libc_socketaddr_into_std-std_socketaddr_into_libc_example =
    libc_socketaddr_into_std-std_socketaddr_into_libc true localhost loopback (omega arith)
      (omega arith) (omega arith) refl (omega arith)

abbrev partly_filled : Vec
partly_filled = record { ptr = 4096; capacity = 8; len = 3 }

-- A kernel that reads five bytes and says of every connection that it is there already.
abbrev five_bytes : Kernel ℕ
five_bytes (Syscall.read fd ptr len) k = (pos 5, 0, suc k)
five_bytes (Syscall.connect fd addr len) k = (negsuc 0, eisconn, suc k)
five_bytes call k = (pos 0, 0, suc k)

read-run_op_blocking_example :
    (op : Op) × (v' : Vec) × ((read vec).into_op (new_read (pos 3) partly_filled)
      ≡ ret (op, new_read (pos 3) partly_filled))
    × (run_op_blocking five_bytes op 0 ≡ (pos 5, 1))
    × ((read vec).extract_result (new_read (pos 3) partly_filled) (pos 5) ≡ ret (ok (pos 5), v'))
    × (v'.ptr ≡ 4096)
    × (v'.len ≡ 5)
    × (v'.len ≤ v'.capacity)
read-run_op_blocking_example =
    read-run_op_blocking five_bytes 0 1 (pos 3) partly_filled 5 0 refl (omega arith) (omega arith)

abbrev a_second : Timeout
a_second = record { duration = record { secs = 1; nanos = 0 }; timer_res = pos 7; timespec_at = 64 }
