-- ===== src/NetAddr/Category.antt =====
-- The kinds of addresses: IsTor to IsValid of network/src/network_address.cpp.
use btcdemo.Prelude.{
  Bool, true, false, not, ◌&&◌, ◌||◌, take, drop, replicate, leb, ◌==◌, if◌then◌else◌, bit_and,
}
use btcdemo.Prelude.Hash.{bytes_eq}
use btcdemo.NetAddr.{
  NetAddr, pch_ipv4, pch_onion_cat, btc_ip_prefix, begins, get_byte, ip_word, is_ipv4, inaddr_none,
}

unfoldable pub is_tor : NetAddr → Bool
is_tor a = begins a.ip pch_onion_cat

unfoldable pub is_internal : NetAddr → Bool
is_internal a = begins a.ip btc_ip_prefix

unfoldable pub is_ipv6 : NetAddr → Bool
is_ipv6 a = not (is_ipv4 a) && (not (is_tor a) && not (is_internal a))

unfoldable pub is_rfc1918 : NetAddr → Bool
is_rfc1918 a =
    is_ipv4 a
    && ((get_byte a 12 == 10)
        || ((get_byte a 12 == 192 && get_byte a 13 == 168)
            || (get_byte a 12 == 172 && (leb 16 (get_byte a 13) && leb (get_byte a 13) 31))))

unfoldable pub is_rfc2544 : NetAddr → Bool
is_rfc2544 a = is_ipv4 a && (get_byte a 12 == 198 && (get_byte a 13 == 18 || get_byte a 13 == 19))

unfoldable pub is_rfc6598 : NetAddr → Bool
is_rfc6598 a =
    is_ipv4 a && (get_byte a 12 == 100 && (leb 64 (get_byte a 13) && leb (get_byte a 13) 127))

unfoldable pub is_rfc5737 : NetAddr → Bool
is_rfc5737 a =
    is_ipv4 a
    && ((get_byte a 12 == 192 && (get_byte a 13 == 0 && get_byte a 14 == 2))
        || ((get_byte a 12 == 198 && (get_byte a 13 == 51 && get_byte a 14 == 100))
            || (get_byte a 12 == 203 && (get_byte a 13 == 0 && get_byte a 14 == 113))))

unfoldable pub is_rfc3849 : NetAddr → Bool
is_rfc3849 a =
    is_ipv6 a
    && (get_byte a 0 == 0x20
        && (get_byte a 1 == 0x01 && (get_byte a 2 == 0x0d && get_byte a 3 == 0xb8)))

unfoldable pub is_rfc3927 : NetAddr → Bool
is_rfc3927 a = is_ipv4 a && (get_byte a 12 == 169 && get_byte a 13 == 254)

unfoldable pub is_rfc3964 : NetAddr → Bool
is_rfc3964 a = is_ipv6 a && (get_byte a 0 == 0x20 && get_byte a 1 == 0x02)

unfoldable pub is_rfc4193 : NetAddr → Bool
is_rfc4193 a = is_ipv6 a && (bit_and (get_byte a 0) 0xfe == 0xfc)

unfoldable pub is_rfc4380 : NetAddr → Bool
is_rfc4380 a =
    is_ipv6 a
    && (get_byte a 0 == 0x20 && (get_byte a 1 == 0x01 && (get_byte a 2 == 0 && get_byte a 3 == 0)))

unfoldable pub is_rfc4843 : NetAddr → Bool
is_rfc4843 a =
    is_ipv6 a
    && (get_byte a 0 == 0x20
        && (get_byte a 1 == 0x01 && (get_byte a 2 == 0x00 && bit_and (get_byte a 3) 0xf0 == 0x10)))

unfoldable pub is_rfc4862 : NetAddr → Bool
is_rfc4862 a = is_ipv6 a && (ip_word a 0 == 0x80fe && ip_word a 1 == 0)

unfoldable pub is_rfc6052 : NetAddr → Bool
is_rfc6052 a = is_ipv6 a && (ip_word a 0 == 0x9bff_6400 && ip_word a 1 == 0)

unfoldable pub is_rfc6145 : NetAddr → Bool
is_rfc6145 a = is_ipv6 a && (ip_word a 0 == 0 && (ip_word a 1 == 0 && ip_word a 2 == 0xffff))

unfoldable pub is_local : NetAddr → Bool
is_local a =
    (is_ipv4 a && (get_byte a 12 == 127 || get_byte a 12 == 0))
    || (is_ipv6 a
        && (ip_word a 0 == 0
            && (ip_word a 1 == 0 && (ip_word a 2 == 0 && ip_word a 3 == 0x100_0000))))

unfoldable pub is_valid : NetAddr → Bool
is_valid a =
    if bytes_eq (take 9 a.ip) (drop 3 pch_ipv4)
    then false
    else if bytes_eq a.ip (replicate 16 0)
    then false
    else if is_rfc3849 a
    then false
    else if is_internal a
    then false
    else if is_ipv4 a
    then if ip_word a 3 == inaddr_none then false else if ip_word a 3 == 0 then false else true
    else true

unfoldable pub is_routable : NetAddr → Bool
is_routable a =
    is_valid a
    && not (
        is_rfc1918 a
        || (is_rfc2544 a
            || (is_rfc3927 a
                || (is_rfc4862 a
                    || (is_rfc6598 a
                        || (is_rfc5737 a
                            || (is_rfc4193 a
                                || (is_rfc4843 a
                                    || ((is_rfc4193 a && not (is_tor a))
                                        || (is_local a || is_internal a))))))))))
