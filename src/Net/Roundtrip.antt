-- ===== src/Net/Roundtrip.antt =====
-- Socket addresses through their C structures and back.
use lio.Base.{ℕ, ◌^◌, ◌<◌, ◌≡◌, refl, ap, ◌∙◌, Bool, true, false, List, arith, All, length, ok}
use lio.Net.{
  SocketAddrV4, SocketAddrV6, v4, v6, reverse, be, std_socketaddr_into_libc,
  libc_socketaddr_into_std, to_be_bytes, from_le_bytes,
}
use lio.Net.Octets.{
  IsByte, swap_bytes-swap_bytes, to_be_bytes-swap_bytes-from_le_bytes, to_le_bytes-from_le_bytes,
}

be-be : (little : Bool) (n x : ℕ) → x < 256 ^ n → be little n (be little n x) ≡ x
be-be true n x fits = swap_bytes-swap_bytes n x fits
be-be false n x fits = refl

-- What becomes of the octets of an IPv6 address, by the byte order of the target.
abbrev pub octets_seen : Bool → List ℕ → List ℕ
octets_seen little octets = elim little [ true ↦ octets | false ↦ reverse octets ]

abbrev pub plain_v4 : ℕ → ℕ → SocketAddrV4
plain_v4 ip port = record { ip = ip; port = port }

-- With neither flow nor scope.
abbrev pub plain_v6 : List ℕ → ℕ → SocketAddrV6
plain_v6 octets port = record { octets = octets; port = port; flowinfo = 0; scope_id = 0 }

pub octets_back :
    (little : Bool) (n : ℕ) (bs : List ℕ)
    → length bs ≡ n
    → All IsByte bs
    → to_be_bytes n (be little n (from_le_bytes bs)) ≡ octets_seen little bs
octets_back true n bs sized bytes = to_be_bytes-swap_bytes-from_le_bytes bs n sized bytes
octets_back false n bs sized bytes = ap reverse (to_le_bytes-from_le_bytes bs n sized bytes)

plain_v4_path :
    (ip ip' port port' : ℕ) → ip ≡ ip' → port ≡ port' → plain_v4 ip port ≡ plain_v4 ip' port'
plain_v4_path ip ip' port port' p q = ap (λ i. plain_v4 i port) p ∙ ap (plain_v4 ip') q

plain_v6_path :
    (os os' : List ℕ) (port port' : ℕ)
    → os ≡ os'
    → port ≡ port'
    → plain_v6 os port ≡ plain_v6 os' port'
plain_v6_path os os' port port' p q = ap (λ i. plain_v6 i port) p ∙ ap (plain_v6 os') q

-- An IPv4 address comes back from its C structure, whatever the byte order of the target. An IPv6
-- address comes back with its port, but its flow and its scope are zero; its octets come back in
-- order on a target that stores low bytes first, and in reverse on one that stores high bytes first.
pub libc_socketaddr_into_std-std_socketaddr_into_libc :
    (little : Bool) (a : SocketAddrV4) (b : SocketAddrV6)
    → a.ip < 2 ^ 32
    → a.port < 2 ^ 16
    → b.port < 2 ^ 16
    → length b.octets ≡ 16
    → All IsByte b.octets
    → (libc_socketaddr_into_std little (std_socketaddr_into_libc little (v4 a)) ≡ ok (v4 a))
      × (libc_socketaddr_into_std little (std_socketaddr_into_libc little (v6 b))
          ≡ ok (v6 (plain_v6 (octets_seen little b.octets) b.port)))
unfolding libc_socketaddr_into_std std_socketaddr_into_libc
libc_socketaddr_into_std-std_socketaddr_into_libc little a b ip port port6 sized bytes = (
  ap (λ w. ok (v4 w))
      (plain_v4_path _ _ _ _ (be-be little 4 a.ip (omega (arith, ip)))
        (be-be little 2 a.port (omega (arith, port)))),
  ap (λ w. ok (v6 w))
      (plain_v6_path _ _ _ _ (octets_back little 16 b.octets sized bytes)
        (be-be little 2 b.port (omega (arith, port6)))),
)
