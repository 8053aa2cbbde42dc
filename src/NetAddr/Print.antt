-- ===== src/NetAddr/Print.antt =====
-- NetAddr::ToString of network/src/network_address.cpp, as the list of the characters' codes.
-- `base32_encode` is third-party code, a parameter.
use btcdemo.Prelude.{
  ℕ, zero, suc, ◌+◌, ◌*◌, ◌/◌, ◌%◌, List, [], ◌∷◌, ◌++◌, drop, ltb, if◌then◌else◌,
}
use btcdemo.NetAddr.{NetAddr, get_byte, is_ipv4}
use btcdemo.NetAddr.Category.{is_tor, is_internal}

abbrev digit : ℕ → ℕ
digit d = if ltb d 10 then 48 + d else 87 + d

-- The stream's `<<` on a number in a base, the digits before `after`; a number below `base ^ fuel`
-- is printed whole.
abbrev pub digits_before : ℕ → ℕ → ℕ → List ℕ → List ℕ
digits_before zero base n after = after
digits_before (suc fuel) base n after =
    let rest = digits_before fuel base (n / base) (digit (n % base) ∷ after) in
    if ltb n base then digit n ∷ after else rest

abbrev pub decimal : ℕ → List ℕ
decimal n = digits_before 5 10 n []

abbrev pub hexadecimal : ℕ → List ℕ
hexadecimal n = digits_before 4 16 n []

abbrev pub dot : List ℕ
dot = 46 ∷ []

abbrev pub colon : List ℕ
colon = 58 ∷ []

-- Four bytes in decimal with dots between.
unfoldable pub dotted : (ℕ → ℕ) → List ℕ
dotted byte =
    decimal (byte 12)
    ++ dot
    ++ decimal (byte 13)
    ++ dot
    ++ decimal (byte 14)
    ++ dot
    ++ decimal (byte 15)

-- `(GetByte(2 * i) << 8) | GetByte(2 * i + 1)`; the low byte fills the bits that are free.
unfoldable pub word16 : (ℕ → ℕ) → ℕ → ℕ
word16 byte i = byte (2 * i) * 256 + byte (2 * i + 1)

-- Eight words in hexadecimal with colons between.
unfoldable pub coloned : (ℕ → ℕ) → List ℕ
unfolding word16
coloned byte =
    hexadecimal (word16 byte 0)
    ++ colon
    ++ hexadecimal (word16 byte 1)
    ++ colon
    ++ hexadecimal (word16 byte 2)
    ++ colon
    ++ hexadecimal (word16 byte 3)
    ++ colon
    ++ hexadecimal (word16 byte 4)
    ++ colon
    ++ hexadecimal (word16 byte 5)
    ++ colon
    ++ hexadecimal (word16 byte 6)
    ++ colon
    ++ hexadecimal (word16 byte 7)

-- ".onion"
abbrev pub onion : List ℕ
onion = 46 ∷ 111 ∷ 110 ∷ 105 ∷ 111 ∷ 110 ∷ []

-- ".internal"
abbrev pub internal : List ℕ
internal = 46 ∷ 105 ∷ 110 ∷ 116 ∷ 101 ∷ 114 ∷ 110 ∷ 97 ∷ 108 ∷ []

unfoldable pub to_string : (List ℕ → List ℕ) → NetAddr → List ℕ
unfolding dotted coloned
to_string base32_encode a =
    if is_tor a
    then base32_encode (drop 6 a.ip) ++ onion
    else if is_internal a
    then base32_encode (drop 6 a.ip) ++ internal
    else if is_ipv4 a
    then dotted (get_byte a)
    else coloned (get_byte a)
