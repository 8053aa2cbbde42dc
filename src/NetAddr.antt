-- ===== src/NetAddr.antt =====
-- class NetAddr of network/include/network_address.h and network/src/network_address.cpp.
-- The four 32-bit words of the protobuf object are the 16 bytes that they are in memory, on a
-- little-endian machine. Every address has 16 bytes, so the assertions of its size and of the
-- position of a byte hold. What is read and written is in the child modules.
pub mod Category
pub mod Codec
pub mod Group
pub mod Reach
pub mod Ipv4
pub mod SockAddr
pub mod Print
mod Runs
use btcdemo.Prelude.{
  ℕ, zero, suc, ◌+◌, ◌*◌, ◌%◌, ◌^◌, Bool, true, false, List, [], ◌∷◌, ◌++◌, length, take, drop, set,
  get_or, replicate, ◌==◌, ◌&&◌, if◌then◌else◌, ltb, ◌≡◌,
}
use btcdemo.Prelude.Hash.{bytes_eq}
use btcdemo.Prelude.Bytes.{IsByte, All}
use btcdemo.Endian.{to_little_endian}

pub record NetAddr : Type 0 where
  pub ip : List ℕ
  pub port : ℕ
  pub scope_id : ℕ
  pub services : ℕ
  pub timestamp : ℕ

pub record IsIp (ip : List ℕ) : Type 0 where
  pub size : length ip ≡ 16
  pub bytes : All IsByte ip

abbrev pub ip_byte_size : ℕ
ip_byte_size = 16

abbrev pub pch_ipv4 : List ℕ
pch_ipv4 = 0 ∷ 0 ∷ 0 ∷ 0 ∷ 0 ∷ 0 ∷ 0 ∷ 0 ∷ 0 ∷ 0 ∷ 0xff ∷ 0xff ∷ []

abbrev pub pch_onion_cat : List ℕ
pch_onion_cat = 0xfd ∷ 0x87 ∷ 0xd8 ∷ 0x7e ∷ 0xeb ∷ 0x43 ∷ []

abbrev pub btc_ip_prefix : List ℕ
btc_ip_prefix = 0xfd ∷ 0x6b ∷ 0x88 ∷ 0xc0 ∷ 0x87 ∷ 0x24 ∷ []

-- `std::memcmp(ip, prefix, sizeof(prefix)) == 0`
abbrev pub begins : List ℕ → List ℕ → Bool
begins ip prefix = bytes_eq (take (length prefix) ip) prefix

-- The default constructor.
unfoldable pub new : NetAddr
new = record { ip = replicate 16 0; port = 0; scope_id = 0; services = 0; timestamp = 0 }

-- The constructor from the parts.
unfoldable pub of_parts : ℕ → ℕ → List ℕ → ℕ → NetAddr
of_parts timestamp services ip port = record {
  ip = take ip_byte_size ip;
  port = port;
  scope_id = 0;
  services = services;
  timestamp = timestamp;
}

unfoldable pub get_byte : NetAddr → ℕ → ℕ
get_byte a n = get_or a.ip n 0

unfoldable pub set_byte : ℕ → ℕ → NetAddr → NetAddr
set_byte n value a = record a { ip = set a.ip n value }

-- The loop from the byte `i` on.
unfoldable pub set_bytes_from : ℕ → List ℕ → NetAddr → NetAddr
unfolding set_byte
set_bytes_from i [] a = a
set_bytes_from i (v ∷ vs) a = set_bytes_from (suc i) vs (set_byte i v a)

unfoldable pub set_n_byte : List ℕ → NetAddr → NetAddr
unfolding set_bytes_from
set_n_byte src a = set_bytes_from 0 src a

-- `proto_addr_.ip(i)`
unfoldable pub ip_word : NetAddr → ℕ → ℕ
ip_word a i =
    get_or a.ip (4 * i) 0
    + 2 ^ 8 * get_or a.ip (4 * i + 1) 0
    + 2 ^ 16 * get_or a.ip (4 * i + 2) 0
    + 2 ^ 24 * get_or a.ip (4 * i + 3) 0

unfoldable pub is_ipv4 : NetAddr → Bool
is_ipv4 a = begins a.ip pch_ipv4

-- INADDR_NONE
abbrev pub inaddr_none : ℕ
inaddr_none = 0xffff_ffff

-- The number is in network byte order: its bytes are those of the address.
unfoldable pub get_ipv4 : NetAddr → ℕ
get_ipv4 a = if is_ipv4 a then ip_word a 3 else inaddr_none

-- `proto_addr_.set_ip(3, v)`
abbrev pub set_last_word : ℕ → NetAddr → NetAddr
set_last_word v a = record a { ip = take 12 a.ip ++ to_little_endian 4 v }

unfoldable pub set_ipv4 : ℕ → NetAddr → NetAddr
set_ipv4 net_byte_order_ip a =
    set_last_word net_byte_order_ip (if is_ipv4 a then a else set_n_byte pch_ipv4 a)

unfoldable pub set_ipv6 : List ℕ → NetAddr → NetAddr
set_ipv6 src a = set_n_byte (take 16 src) a

-- `Clear` keeps the scope.
unfoldable pub clear : NetAddr → NetAddr
clear a = record a { ip = replicate 16 0; port = 0; services = 0; timestamp = 0 }

-- `operator==`: the bytes and the port.
unfoldable pub addr_eq : NetAddr → NetAddr → Bool
addr_eq a b = bytes_eq a.ip b.ip && (a.port == b.port)

-- The sign of std::memcmp.
unfoldable pub bytes_less : List ℕ → List ℕ → Bool
bytes_less [] ys = false
bytes_less (x ∷ xs) [] = false
bytes_less (x ∷ xs) (y ∷ ys) = if ltb x y then true else if x == y then bytes_less xs ys else false

unfoldable pub addr_less : NetAddr → NetAddr → Bool
addr_less a b = bytes_less a.ip b.ip
