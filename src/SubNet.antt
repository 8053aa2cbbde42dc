-- ===== src/SubNet.antt =====
-- class SubNet of network/include/network_address.h and network/src/network_address.cpp.
pub mod Mask
pub mod Match
mod Runs
use btcdemo.Prelude.{
  ℕ, zero, suc, ◌+◌, ◌-◌, ◌*◌, ◌/◌, ◌%◌, ◌^◌, Bool, true, false, not, ◌&&◌, ◌||◌, List, [], ◌∷◌,
  ◌++◌, Option, none, some, set, get_or, replicate, drop, leb, ltb, ◌==◌, if◌then◌else◌, bit_and,
}
use btcdemo.NetAddr.{NetAddr, new, get_byte, set_byte, is_ipv4, clear, addr_eq}
use btcdemo.NetAddr.Category.{is_valid}
use btcdemo.NetAddr.Print.{decimal, dotted, coloned, to_string}

pub record SubNet : Type 0 where
  pub net_addr : NetAddr
  pub netmask : List ℕ
  pub valid : Bool

abbrev pub netmask_byte_size : ℕ
netmask_byte_size = 16

unfoldable pub empty : SubNet
empty = record { net_addr = new; netmask = replicate 16 0; valid = false }

-- A single address.
unfoldable pub of_addr : NetAddr → SubNet
of_addr addr = record { net_addr = addr; netmask = replicate 16 255; valid = is_valid addr }

-- `netmask_[n>>3] &= ~(1<<(7-(n&7)))` from bit `n` on: the rounds that are left are `128 - n`.
unfoldable pub clear_bits : ℕ → ℕ → List ℕ → List ℕ
clear_bits zero n netmask = netmask
clear_bits (suc rounds) n netmask =
    clear_bits rounds (suc n)
      (set netmask (n / 8) (bit_and (get_or netmask (n / 8) 0) (255 - 2 ^ (7 - n % 8))))

-- The loop that normalizes the network, from byte `x` on.
unfoldable pub normalize : ℕ → ℕ → List ℕ → NetAddr → NetAddr
normalize zero x netmask a = a
normalize (suc rounds) x netmask a =
    normalize rounds (suc x) netmask (set_byte x (bit_and (get_byte a x) (get_or netmask x 0)) a)

-- IPv4 addresses start at offset 12.
unfoldable pub start_of : NetAddr → ℕ
start_of a = if is_ipv4 a then 12 else 0

-- `mask` is the 32-bit pattern of the signed number, so a negative one is above every bound.
unfoldable pub of_prefix : NetAddr → ℕ → SubNet
of_prefix addr mask =
    let full = replicate 16 255 in
    let in_range = leb mask (128 - start_of addr * 8) in
    let n = mask + start_of addr * 8 in
    let netmask = if in_range then clear_bits (128 - n) n full else full in
    record {
      net_addr = normalize netmask_byte_size 0 netmask addr;
      netmask = netmask;
      valid = in_range;
    }

-- `for (x = astartofs; x < 16; ++x) netmask_[x] = mask.GetByte(x)`
unfoldable pub copy_mask : ℕ → ℕ → NetAddr → List ℕ → List ℕ
copy_mask zero x mask netmask = netmask
copy_mask (suc rounds) x mask netmask =
    copy_mask rounds (suc x) mask (set netmask x (get_byte mask x))

unfoldable pub of_mask : NetAddr → NetAddr → SubNet
of_mask addr mask =
    let netmask = copy_mask (16 - start_of addr) (start_of addr) mask (replicate 16 255) in
    record {
      net_addr = normalize netmask_byte_size 0 netmask addr;
      netmask = netmask;
      valid = true;
    }

-- `net_addr_.Clear()`, the mask and the flag.
unfoldable pub clear_subnet : SubNet → SubNet
clear_subnet s = record { net_addr = clear s.net_addr; netmask = replicate 16 0; valid = false }

-- `operator==` looks at the address alone.
unfoldable pub subnet_eq : SubNet → SubNet → Bool
subnet_eq a b = addr_eq a.net_addr b.net_addr

-- The loop of Match from byte `i` on.
unfoldable pub match_from : ℕ → ℕ → SubNet → NetAddr → Bool
match_from zero i s addr = true
match_from (suc rounds) i s addr =
    let rest = match_from rounds (suc i) s addr in
    if not (bit_and (get_byte addr i) (get_or s.netmask i 0) == get_byte s.net_addr i)
    then false
    else rest

unfoldable pub match : SubNet → NetAddr → Bool
match s addr =
    if not s.valid || not (is_valid addr) then false else match_from netmask_byte_size 0 s addr

-- The result -1 is `none`.
unfoldable pub netmask_bits : ℕ → Option ℕ
netmask_bits x =
    if x == 0x00
    then some 0
    else if x == 0x80
    then some 1
    else if x == 0xc0
    then some 2
    else if x == 0xe0
    then some 3
    else if x == 0xf0
    then some 4
    else if x == 0xf8
    then some 5
    else if x == 0xfc
    then some 6
    else if x == 0xfe
    then some 7
    else if x == 0xff
    then some 8
    else none

-- Whether the bytes that are left are all zero.
unfoldable pub zeros : List ℕ → Bool
zeros [] = true
zeros (b ∷ bs) = b == 0 && zeros bs

-- The bits of the mask, if it is of the form 1{n}0{N-n}, over its bytes from `n` on.
unfoldable pub cidr_from : ℕ → List ℕ → Option ℕ
cidr_from cidr [] = some cidr
cidr_from cidr (b ∷ bs) =
    let rest = cidr_from (cidr + 8) bs in
    if b == 0xff then rest else (elim (netmask_bits b) [
      | none ↦ none
      | some bits ↦ if zeros bs then some (cidr + bits) else none
    ])

unfoldable pub cidr_of : SubNet → Option ℕ
cidr_of s = cidr_from 0 (drop (start_of s.net_addr) s.netmask)

-- "/"
abbrev pub slash : List ℕ
slash = 47 ∷ []

unfoldable pub subnet_to_string : (List ℕ → List ℕ) → SubNet → List ℕ
subnet_to_string base32_encode s =
    to_string base32_encode s.net_addr ++ slash ++ (elim (cidr_of s) [
      | some cidr ↦ decimal cidr
      | none ↦
          if is_ipv4 s.net_addr
          then dotted (λ i. get_or s.netmask i 0)
          else coloned (λ i. get_or s.netmask i 0)
    ])
