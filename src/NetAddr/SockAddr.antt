-- ===== src/NetAddr/SockAddr.antt =====
-- The constructors from socket addresses, ToSockAddr and FromSockAddr of
-- network/src/network_address.cpp. A socket address is of one of the two families, or of another.
use btcdemo.Prelude.{
  ℕ, ◌+◌, ◌*◌, ◌/◌, ◌%◌, ◌^◌, ◌<◌, ◌≡◌, refl, sym, true, false, List, take, Option, none, some,
  if◌then◌else◌, Bool-cases, inl, inr, take_all, arith,
}
use btcdemo.NetAddr.{NetAddr, IsIp, new, is_ipv4, get_ipv4, set_ipv4, set_ipv6}
use btcdemo.NetAddr.Category.{is_ipv6}
use btcdemo.NetAddr.Ipv4.{set_ipv4-eq, set_ipv6-eq, get_ipv4-bytes}

-- The fields of sockaddr_in and sockaddr_in6 that are read or written, as they are in memory.
pub data SockAddr : Type 0 where
  sockaddr_in : (s_addr sin_port : ℕ) → SockAddr
  sockaddr_in6 : (s6_addr : List ℕ) (sin6_port sin6_scope_id : ℕ) → SockAddr
  other_family : SockAddr

-- `htons` and `ntohs` swap the two bytes.
abbrev pub swap_bytes : ℕ → ℕ
swap_bytes port = port % 256 * 256 + port / 256 % 256

-- `GetIpv6` fills the 16 bytes, or returns false.
unfoldable pub get_ipv6 : NetAddr → Option (List ℕ)
get_ipv6 a = if is_ipv6 a then some (take 16 a.ip) else none

unfoldable pub from_sock_in : ℕ → ℕ → NetAddr
from_sock_in s_addr sin_port = record (set_ipv4 s_addr new) { port = swap_bytes sin_port }

unfoldable pub from_sock_in6 : List ℕ → ℕ → ℕ → NetAddr
from_sock_in6 s6_addr sin6_port sin6_scope_id = record (set_ipv6 s6_addr new) {
  port = swap_bytes sin6_port;
  scope_id = sin6_scope_id;
}

-- What ToSockAddr writes into the zeroed object, or false.
unfoldable pub to_sock_addr : NetAddr → Option SockAddr
to_sock_addr a =
    if is_ipv4 a
    then some (sockaddr_in (get_ipv4 a) (swap_bytes (a.port % 2 ^ 16)))
    else if is_ipv6 a
    then some (sockaddr_in6 (take 16 a.ip) (swap_bytes (a.port % 2 ^ 16)) a.scope_id)
    else none

-- The new value of the object, or false.
unfoldable pub from_sock_addr : SockAddr → Option NetAddr
from_sock_addr (sockaddr_in s_addr sin_port) = some (from_sock_in s_addr sin_port)
from_sock_addr (sockaddr_in6 s6_addr sin6_port sin6_scope_id) =
    some (from_sock_in6 s6_addr sin6_port sin6_scope_id)
from_sock_addr other_family = none

swap_twice : (port : ℕ) → port < 2 ^ 16 → swap_bytes (swap_bytes (port % 2 ^ 16)) ≡ port
swap_twice port h = omega arith

not_both : (a : NetAddr) → is_ipv6 a ≡ true → is_ipv4 a ≡ false
unfolding is_ipv6
not_both a h = elim (Bool-cases (is_ipv4 a)) [
  | inl e ↦ absurd (let w = rw e at h in cc)
  | inr e ↦ e
]

-- An address that ToSockAddr accepts comes back from FromSockAddr with its bytes, its port and, if
-- it is IPv6, its scope; services and time are 0 and the scope of an IPv4 address is too. ToSockAddr
-- refuses exactly the addresses that are neither IPv4 nor IPv6.
pub from_sock_addr-to_sock_addr :
    (a : NetAddr)
    → IsIp a.ip
    → a.port < 2 ^ 16
    → (is_ipv4 a ≡ true
        → (s : SockAddr) × (to_sock_addr a ≡ some s)
          × (from_sock_addr s ≡ some (record a { scope_id = 0; services = 0; timestamp = 0 })))
      × (is_ipv6 a ≡ true
          → (s : SockAddr) × (to_sock_addr a ≡ some s)
            × (from_sock_addr s ≡ some (record a { services = 0; timestamp = 0 })))
      × (is_ipv4 a ≡ false → is_ipv6 a ≡ false → to_sock_addr a ≡ none)
unfolding to_sock_addr from_sock_addr from_sock_in from_sock_in6 new
from_sock_addr-to_sock_addr a h small =
    let ports = swap_twice a.port small in
    (
      λ v4. (
        sockaddr_in (get_ipv4 a) (swap_bytes (a.port % 2 ^ 16)),
        rw v4 refl,
        rw (set_ipv4-eq (get_ipv4 a) new refl, ports, sym (get_ipv4-bytes a h v4)) refl,
      ),
      λ v6. (
        sockaddr_in6 (take 16 a.ip) (swap_bytes (a.port % 2 ^ 16)) a.scope_id,
        rw (not_both a v6, v6) refl,
        rw (take_all 16 a.ip h.size, set_ipv6-eq a.ip new h.size refl, ports) refl,
      ),
      λ not_v4 not_v6. rw (not_v4, not_v6) refl,
    )
