-- ===== src/Hex.antt =====
-- EncodeHex and DecodeHex of utility/include/string_encoding.h and utility/src/string_encoding.cpp.
-- A character is its byte, in the "C" locale; the byte behind the last character is the zero that
-- ends a string.
pub mod RoundTrip
mod Runs
use btcdemo.Prelude.{
  ℕ, zero, suc, ◌+◌, ◌-◌, ◌*◌, ◌/◌, ◌%◌, ◌^◌, bit_and, bit_or, Bool, true, false, not, ◌&&◌, ◌||◌,
  List, [], ◌∷◌, ◌++◌, ltb, leb, ◌==◌, if◌then◌else◌,
}

-- `hexmap`, with lower case letters.
abbrev pub hex_digit : ℕ → ℕ
hex_digit n = if ltb n 10 then 0x30 + n else 0x61 + (n - 10)

abbrev encode_byte : Bool → ℕ → List ℕ
encode_byte space val =
    let digits = hex_digit (val / 2 ^ 4) ∷ hex_digit (bit_and val 15) ∷ [] in
    if space then 0x20 ∷ digits else digits

-- A space stands before every byte but the first.
encode_rest : Bool → List ℕ → List ℕ
encode_rest spaces [] = []
encode_rest spaces (b ∷ bs) = encode_byte spaces b ++ encode_rest spaces bs

unfoldable pub encode_hex : Bool → List ℕ → List ℕ
unfolding encode_rest
encode_hex spaces [] = []
encode_hex spaces (b ∷ bs) = encode_byte false b ++ encode_rest spaces bs

-- std::isspace and std::isxdigit
abbrev pub is_space : ℕ → Bool
is_space c = (c == 0x20) || (leb 0x09 c && leb c 0x0d)

abbrev pub is_xdigit : ℕ → Bool
is_xdigit c =
    (leb 0x30 c && leb c 0x39) || ((leb 0x41 c && leb c 0x46) || (leb 0x61 c && leb c 0x66))

-- std::stoi of one hexadecimal digit
abbrev pub digit_value : ℕ → ℕ
digit_value c = if leb c 0x39 then c - 0x30 else if leb c 0x46 then c - 0x41 + 10 else c - 0x61 + 10

-- The outer loop, over the characters that are left. The inner loop over spaces is its first test;
-- after it the loop stops at what is no digit, so also at the end.
unfoldable pub decode_hex : List ℕ → List ℕ
decode_hex [] = []
decode_hex (c ∷ []) = if is_xdigit c then digit_value c ∷ [] else []
decode_hex (c ∷ d ∷ cs) =
    let after = decode_hex (d ∷ cs) in
    let after_two = decode_hex cs in
    if is_space c
    then after
    else if not (is_xdigit c)
    then []
    else if is_xdigit d
    then bit_or (digit_value d) (digit_value c * 2 ^ 4 % 2 ^ 8) ∷ after_two
    else digit_value c ∷ after
