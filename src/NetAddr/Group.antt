-- ===== src/NetAddr/Group.antt =====
-- GetGroup, GetFamily, GetExtFamily, SetInternal and GetHash of network/src/network_address.cpp.
-- The hash function SHA-256 is third-party code: `sha256` stands for it.
pub mod Laws
use Prim.Native.Nat.{bit_xor}
use btcdemo.Prelude.{
  ℕ, zero, suc, ◌+◌, ◌-◌, ◌*◌, ◌/◌, ◌%◌, ◌^◌, Bool, true, false, ◌&&◌, ◌||◌, List, [], ◌∷◌, ◌++◌,
  take, not, drop, ◌==◌, ltb, if◌then◌else◌, bit_or,
}
use btcdemo.Prelude.Hash.{Hash256}
use btcdemo.Serialize.{ser_write_data}
use btcdemo.NetAddr.{NetAddr, ip_byte_size, btc_ip_prefix, get_byte, is_ipv4}
use btcdemo.NetAddr.Category.{
  is_tor, is_internal, is_rfc3964, is_rfc4380, is_rfc6052, is_rfc6145, is_local, is_routable,
}

pub data AddrFamily : Type 0 where
  af_unroutable af_ipv4 af_ipv6 af_tor af_internal af_teredo af_maximum : AddrFamily

-- The numbers of the enumeration.
abbrev pub code : AddrFamily → ℕ
code af_unroutable = 0
code af_ipv4 = 1
code af_ipv6 = 2
code af_tor = 3
code af_internal = 4
code af_teredo = 5
code af_maximum = 6

-- `while (bits >= 8)`: the number of rounds is `bits / 8`.
unfoldable pub whole_bytes : ℕ → ℕ → NetAddr → List ℕ
whole_bytes zero start_byte a = []
whole_bytes (suc n) start_byte a = get_byte a start_byte ∷ whole_bytes n (suc start_byte) a

-- `if (bits > 0)`
unfoldable pub last_bits : ℕ → ℕ → NetAddr → List ℕ
last_bits bits start_byte a =
    if ltb 0 bits then bit_or (get_byte a start_byte) (2 ^ (8 - bits) - 1) ∷ [] else []

unfoldable pub group_of : ℕ → ℕ → ℕ → NetAddr → List ℕ
unfolding whole_bytes last_bits
group_of af start_byte bits a =
    af ∷ whole_bytes (bits / 8) start_byte a ++ last_bits (bits % 8) (start_byte + bits / 8) a

-- The vector that is handed in is cleared first; a null pointer is not given.
unfoldable pub get_group : NetAddr → List ℕ
unfolding group_of whole_bytes last_bits
get_group a =
    let af = if is_local a then 255 else code af_ipv6 in
    let bits = if is_local a then 0 else 16 in
    if is_internal a
    then group_of (code af_internal) 6 ((ip_byte_size - 6) * 8) a
    else if not (is_routable a)
    then group_of (code af_unroutable) 0 0 a
    else if is_ipv4 a || (is_rfc6145 a || is_rfc6052 a)
    then group_of (code af_ipv4) 12 bits a
    else if is_rfc3964 a
    then group_of (code af_ipv4) 2 bits a
    else if is_rfc4380 a
    then code af_ipv4 ∷ bit_xor (get_byte a 12) 0xff ∷ bit_xor (get_byte a 13) 0xff ∷ []
    else if is_tor a
    then group_of (code af_tor) 6 4 a
    else if get_byte a 0 == 0x20
        && (get_byte a 1 == 0x01 && (get_byte a 2 == 0x04 && get_byte a 3 == 0x70))
    then group_of af 0 36 a
    else group_of af 0 32 a

unfoldable pub get_family : NetAddr → AddrFamily
get_family a =
    if is_internal a
    then af_internal
    else if not (is_routable a)
    then af_unroutable
    else if is_ipv4 a
    then af_ipv4
    else if is_tor a
    then af_tor
    else af_ipv6

unfoldable pub get_ext_family : NetAddr → AddrFamily
get_ext_family a = if is_rfc4380 a then af_teredo else get_family a

module _ (sha256 : List ℕ → Hash256) where
  -- With what the function returns.
  unfoldable pub set_internal : List ℕ → NetAddr → Bool × NetAddr
  set_internal [] a = (false, a)
  set_internal (c ∷ name) a =
      let hash = sha256 (c ∷ name) in
      (true, record a { ip = btc_ip_prefix ++ take (ip_byte_size - 6) hash ++ drop 16 a.ip })

  -- Each word of the address and the port are written as 32-bit numbers.
  pub get_hash : NetAddr → Hash256
  get_hash a = sha256 (a.ip ++ ser_write_data 4 a.port)
