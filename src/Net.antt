-- ===== src/Net.antt =====
-- lio/src/net_utils.rs: socket addresses and their C structures.
-- `little` says whether the target stores the low byte of a word first. An IPv4 address is the
-- number of its 32 bits, an IPv6 address its 16 octets; `sockaddr_storage` is read by its family.
pub mod Octets
pub mod Roundtrip
pub mod Socket
pub mod Tcp
use lio.Base.{
  ℕ, ◌+◌, ◌*◌, ◌/◌, ◌%◌, Bool, true, false, List, [], ◌∷◌, ◌++◌, zero, suc, IoError, os, IoResult,
  ok, err, if◌then◌else◌,
}

-- `to_le_bytes` and `from_le_bytes` of a word of `n` bytes.
abbrev pub to_le_bytes : ℕ → ℕ → List ℕ
to_le_bytes zero x = []
to_le_bytes (suc n) x = x % 256 ∷ to_le_bytes n (x / 256)

abbrev pub from_le_bytes : List ℕ → ℕ
from_le_bytes [] = 0
from_le_bytes (b ∷ bs) = b + 256 * from_le_bytes bs

abbrev pub reverse : List ℕ → List ℕ
reverse [] = []
reverse (b ∷ bs) = reverse bs ++ b ∷ []

abbrev pub to_be_bytes : ℕ → ℕ → List ℕ
to_be_bytes n x = reverse (to_le_bytes n x)

abbrev pub swap_bytes : ℕ → ℕ → ℕ
swap_bytes n x = from_le_bytes (to_be_bytes n x)

-- `to_be` and `from_be`.
abbrev pub be : Bool → ℕ → ℕ → ℕ
be little n x = if little then swap_bytes n x else x

pub record SocketAddrV4 : Type 0 where
  pub ip : ℕ
  pub port : ℕ

pub record SocketAddrV6 : Type 0 where
  pub octets : List ℕ
  pub port : ℕ
  pub flowinfo : ℕ
  pub scope_id : ℕ

pub data SocketAddr : Type 0 where
  v4 : SocketAddrV4 → SocketAddr
  v6 : SocketAddrV6 → SocketAddr

pub data SockaddrStorage : Type 0 where
  inet : (sin_port s_addr : ℕ) → SockaddrStorage
  inet6 : (sin6_port : ℕ) (s6_addr : List ℕ) (sin6_flowinfo sin6_scope_id : ℕ) → SockaddrStorage
  unsupported : (ss_family : ℕ) → SockaddrStorage

-- `EAFNOSUPPORT`.
abbrev pub eafnosupport : ℕ
eafnosupport = 97

module _ (little : Bool) where
  unfoldable pub into_addr : SocketAddrV4 → SockaddrStorage
  into_addr addr = inet (be little 2 addr.port) (be little 4 addr.ip)

  -- The fields for the flow and the scope stay zero.
  unfoldable pub into_addr6 : SocketAddrV6 → SockaddrStorage
  into_addr6 addr = inet6 (be little 2 addr.port) addr.octets 0 0

  unfoldable pub std_socketaddr_into_libc : SocketAddr → SockaddrStorage
  unfolding into_addr into_addr6
  std_socketaddr_into_libc (v4 addr) = into_addr addr
  std_socketaddr_into_libc (v6 addr) = into_addr6 addr

  unfoldable pub libc_socketaddr_into_std : SockaddrStorage → IoResult SocketAddr
  libc_socketaddr_into_std (inet sin_port s_addr) =
      ok (v4 (record { ip = be little 4 s_addr; port = be little 2 sin_port }))
  libc_socketaddr_into_std (inet6 sin6_port s6_addr sin6_flowinfo sin6_scope_id) = ok (
      v6 (record {
        octets = to_be_bytes 16 (be little 16 (from_le_bytes s6_addr));
        port = be little 2 sin6_port;
        flowinfo = sin6_flowinfo;
        scope_id = sin6_scope_id;
      }))
  libc_socketaddr_into_std (unsupported ss_family) = err (os eafnosupport)
