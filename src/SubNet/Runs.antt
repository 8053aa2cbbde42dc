-- ===== src/SubNet/Runs.antt =====
-- The subnet 192.168.0.0/16 and two addresses.
use btcdemo.Prelude.{◌-◌, ◌*◌, ◌+◌, ◌≤◌, ◌<◌, ◌≡◌, ◌↔◌, refl, true, false, some, [], ◌∷◌, arith}
use btcdemo.NetAddr.{NetAddr, IsIp, is_ipv4, ip_word, get_byte, set_byte}
use btcdemo.NetAddr.Category.{is_valid, is_rfc3849, is_ipv6, is_internal, is_tor}
use btcdemo.SubNet.{
  of_prefix, match, start_of, cidr_of, subnet_to_string, match_from, clear_bits, normalize,
  cidr_from, netmask_bits, zeros,
}
use btcdemo.SubNet.Match.{SameBits, match-of_prefix}
use btcdemo.NetAddr.Print.{to_string}

abbrev home : NetAddr
home = record {
  ip = 0 ∷ 0 ∷ 0 ∷ 0 ∷ 0 ∷ 0 ∷ 0 ∷ 0 ∷ 0 ∷ 0 ∷ 0xff ∷ 0xff ∷ 192 ∷ 168 ∷ 1 ∷ 7 ∷ [];
  port = 0;
  scope_id = 0;
  services = 0;
  timestamp = 0;
}

abbrev neighbour : NetAddr
neighbour = record {
  ip = 0 ∷ 0 ∷ 0 ∷ 0 ∷ 0 ∷ 0 ∷ 0 ∷ 0 ∷ 0 ∷ 0 ∷ 0xff ∷ 0xff ∷ 192 ∷ 168 ∷ 9 ∷ 1 ∷ [];
  port = 0;
  scope_id = 0;
  services = 0;
  timestamp = 0;
}

home-IsIp : IsIp home.ip
home-IsIp = record { size = refl; bytes = search (arith) }

neighbour-IsIp : IsIp neighbour.ip
neighbour-IsIp = record { size = refl; bytes = search (arith) }

match-of_prefix_example :
    (16 ≤ 128 - start_of home * 8
      → (match (of_prefix home 16) neighbour ≡ true)
        ↔ SameBits (16 + start_of home * 8) home neighbour)
    × (128 - start_of home * 8 < 16 → match (of_prefix home 16) neighbour ≡ false)
unfolding is_valid is_rfc3849 is_ipv6 is_ipv4 is_internal ip_word
match-of_prefix_example = match-of_prefix home 16 neighbour home-IsIp neighbour-IsIp refl

matched : match (of_prefix home 16) neighbour ≡ true
unfolding match of_prefix start_of is_ipv4 is_valid is_rfc3849 is_ipv6 is_internal ip_word
    match_from get_byte clear_bits normalize set_byte
matched = refl

narrow : match (of_prefix home 24) neighbour ≡ false
unfolding match of_prefix start_of is_ipv4 is_valid is_rfc3849 is_ipv6 is_internal ip_word
    match_from get_byte clear_bits normalize set_byte
narrow = refl

-- The mask is printed as the number it was made from.
bits_back : cidr_of (of_prefix home 16) ≡ some 16
unfolding cidr_of of_prefix cidr_from start_of is_ipv4 normalize set_byte get_byte clear_bits
    netmask_bits zeros
bits_back = refl

-- "192.168.0.0/16"
printed :
    subnet_to_string (λ b. b) (of_prefix home 16)
    ≡ 49 ∷ 57 ∷ 50 ∷ 46 ∷ 49 ∷ 54 ∷ 56 ∷ 46 ∷ 48 ∷ 46 ∷ 48 ∷ 47 ∷ 49 ∷ 54 ∷ []
unfolding subnet_to_string of_prefix to_string is_tor normalize set_byte get_byte start_of is_ipv4
    clear_bits is_internal cidr_of cidr_from netmask_bits zeros
printed = refl
