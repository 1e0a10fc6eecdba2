-- ===== src/Ffi/Addresses.antt =====
-- The two readings of a C address: `sockaddr_to_socketaddr` and `libc_socketaddr_into_std`.
use lio.Base.{
  ℕ, ◌≡◌, refl, sym, ap, ◌∙◌, Bool, true, false, Option, none, some, List, length, All, ltb,
  IoResult, ok, err, if◌then◌else◌,
}
use lio.Net.{
  reverse, SocketAddr, v4, v6, be, SockaddrStorage, inet, inet6, unsupported,
  libc_socketaddr_into_std, to_be_bytes, from_le_bytes,
}
use lio.Net.Octets.{IsByte, reverse-reverse}
use lio.Net.Roundtrip.{octets_seen, octets_back}
use lio.Typed.Sockets.{addr_len}
use lio.Ffi.{sockaddr_to_socketaddr}

-- An address of sixteen bytes.
abbrev pub HasOctets : SockaddrStorage → Type 0
HasOctets (inet sin_port s_addr) = Unit
HasOctets (inet6 sin6_port s6_addr f s) = (length s6_addr ≡ 16) × All IsByte s6_addr
HasOctets (unsupported ss_family) = Unit

-- What the C interface makes of an address that the rest of the library reads: of an IPv6 address it
-- takes the octets as they stand, and reads flow and scope in the order of the network.
abbrev pub in_network_order : Bool → SocketAddr → SocketAddr
in_network_order little (v4 a) = v4 a
in_network_order little (v6 a) = v6 (record {
  octets = octets_seen little a.octets;
  port = a.port;
  flowinfo = be little 4 a.flowinfo;
  scope_id = be little 4 a.scope_id;
})

abbrev pub read_by_c : Bool → Bool → IoResult SocketAddr → Option SocketAddr
read_by_c little short (ok a) = if short then none else some (in_network_order little a)
read_by_c little short (err e) = none

octets_seen_twice :
    (little : Bool) (bs : List ℕ)
    → length bs ≡ 16
    → All IsByte bs
    → octets_seen little (to_be_bytes 16 (be little 16 (from_le_bytes bs))) ≡ bs
octets_seen_twice true bs sized bytes = octets_back true 16 bs sized bytes
octets_seen_twice false bs sized bytes =
    ap reverse (octets_back false 16 bs sized bytes) ∙ reverse-reverse bs

-- The C interface reads an address in a structure that is long enough as the rest of the library
-- does, but for the order of the bytes of an IPv6 address's flow and scope, and on a target that
-- stores high bytes first, of its octets; it refuses the families that the library refuses, a null
-- pointer and a structure that is too short.
pub sockaddr_to_socketaddr-libc_socketaddr_into_std :
    (little : Bool) (s : SockaddrStorage) (len : ℕ)
    → HasOctets s
    → (sockaddr_to_socketaddr little (some s) len
        ≡ read_by_c little (ltb len (addr_len s)) (libc_socketaddr_into_std little s))
      × (sockaddr_to_socketaddr little none len ≡ none)
unfolding sockaddr_to_socketaddr libc_socketaddr_into_std
sockaddr_to_socketaddr-libc_socketaddr_into_std little (inet p a) len h = (refl, refl)
sockaddr_to_socketaddr-libc_socketaddr_into_std little (inet6 p o f s) len h = (
  ap
      (λ os.
        if ltb len 28
        then none
        else some (
            v6 (record {
              octets = os;
              port = be little 2 p;
              flowinfo = be little 4 f;
              scope_id = be little 4 s;
            })))
      (sym (octets_seen_twice little o h.0 h.1)),
  refl,
)
sockaddr_to_socketaddr-libc_socketaddr_into_std little (unsupported n) len h = (refl, refl)
