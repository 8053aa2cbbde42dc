-- ===== src/NetAddr/Runs.antt =====
-- Two addresses of the Internet.
use btcdemo.Prelude.{◌≡◌, refl, true, [], ◌∷◌, arith}
use btcdemo.NetAddr.{NetAddr, IsIp, is_ipv4, get_byte, ip_word}
use btcdemo.NetAddr.Category.{
  is_routable, is_ipv6, is_local, is_internal, is_tor, is_valid, is_rfc3849, is_rfc1918, is_rfc2544,
  is_rfc3927, is_rfc4862, is_rfc6598, is_rfc5737, is_rfc4193, is_rfc4843,
}
use btcdemo.NetAddr.Codec.{IsAddr}
use btcdemo.NetAddr.Print.{to_string}

-- 8.8.4.4 on the port of the main network.
abbrev dns : NetAddr
dns = record {
  ip = 0 ∷ 0 ∷ 0 ∷ 0 ∷ 0 ∷ 0 ∷ 0 ∷ 0 ∷ 0 ∷ 0 ∷ 0xff ∷ 0xff ∷ 8 ∷ 8 ∷ 4 ∷ 4 ∷ [];
  port = 8333;
  scope_id = 0;
  services = 1;
  timestamp = 1231006505;
}

-- 8.9.0.1
abbrev other : NetAddr
other = record {
  ip = 0 ∷ 0 ∷ 0 ∷ 0 ∷ 0 ∷ 0 ∷ 0 ∷ 0 ∷ 0 ∷ 0 ∷ 0xff ∷ 0xff ∷ 8 ∷ 9 ∷ 0 ∷ 1 ∷ [];
  port = 18333;
  scope_id = 0;
  services = 0;
  timestamp = 0;
}

dns-IsIp : IsIp dns.ip
dns-IsIp = record { size = refl; bytes = search (arith) }

dns-IsAddr : IsAddr dns
dns-IsAddr = record {
  ip = dns-IsIp;
  port_fits = omega arith;
  services_fit = omega arith;
  timestamp_fits = omega arith;
}

dns_routable : is_routable dns ≡ true
unfolding is_routable is_valid is_rfc3849 is_ipv6 is_ipv4 is_internal ip_word is_rfc1918 get_byte
    is_rfc2544 is_rfc3927 is_rfc4862 is_rfc6598 is_rfc5737 is_rfc4193 is_rfc4843 is_local
dns_routable = refl

-- "8.8.4.4"
printed : to_string (λ b. b) dns ≡ 56 ∷ 46 ∷ 56 ∷ 46 ∷ 52 ∷ 46 ∷ 52 ∷ []
unfolding to_string is_tor is_internal is_ipv4 get_byte
printed = refl
