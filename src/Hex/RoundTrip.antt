-- ===== src/Hex/RoundTrip.antt =====
-- Bytes through hexadecimal text and back.
use btcdemo.Prelude.{
  ℕ, ◌*◌, ◌/◌, ◌%◌, ◌^◌, ◌<◌, ◌≡◌, refl, ap, ◌∙◌, bit_and, bit_or, Bool, true, false, List, [], ◌∷◌,
  ◌++◌, arith,
}
use btcdemo.Prelude.Bits.{bit_and_mask, bit_or_fields}
use btcdemo.Prelude.Bytes.{IsByte, All}
use btcdemo.Hex.{
  hex_digit, encode_byte, encode_rest, encode_hex, is_space, is_xdigit, digit_value, decode_hex,
}

is_xdigit-hex_digit : (n : ℕ) → n < 16 → is_xdigit (hex_digit n) ≡ true
is_xdigit-hex_digit n h = ground arith

is_space-hex_digit : (n : ℕ) → n < 16 → is_space (hex_digit n) ≡ false
is_space-hex_digit n h = ground arith

digit_value-hex_digit : (n : ℕ) → n < 16 → digit_value (hex_digit n) ≡ n
digit_value-hex_digit n h = ground arith

decode_two :
    (h l : ℕ) (cs : List ℕ)
    → h < 16
    → l < 16
    → decode_hex (hex_digit h ∷ hex_digit l ∷ cs) ≡ bit_or l (h * 2 ^ 4 % 2 ^ 8) ∷ decode_hex cs
unfolding decode_hex
decode_two h l cs fits fits' =
    rw
      (
        decode_hex,
        is_space-hex_digit h fits,
        is_xdigit-hex_digit h fits,
        is_xdigit-hex_digit l fits',
        digit_value-hex_digit h fits,
        digit_value-hex_digit l fits',
      )
      refl

decode_byte :
    (b : ℕ) (cs : List ℕ) → b < 256 → decode_hex (encode_byte false b ++ cs) ≡ b ∷ decode_hex cs
decode_byte b cs fits =
    let low : bit_and b 15 ≡ b % 16 = bit_and_mask 4 b in
    let joined : bit_or (b % 16) (b / 16 * 2 ^ 4 % 2 ^ 8) ≡ b =
      ap (bit_or (b % 16)) {x = b / 16 * 2 ^ 4 % 2 ^ 8} {y = b / 16 * 2 ^ 4} (omega arith)
      ∙ bit_or_fields 4 (b % 16) (b / 16) (omega arith)
      ∙ omega arith in
    ap (λ (l : ℕ). decode_hex (hex_digit (b / 16) ∷ hex_digit l ∷ cs)) low
    ∙ decode_two (b / 16) (b % 16) cs (omega arith) (omega arith)
    ∙ ap (λ (v : ℕ). v ∷ decode_hex cs) joined

skip_space : (c : ℕ) (cs : List ℕ) → decode_hex (0x20 ∷ c ∷ cs) ≡ decode_hex (c ∷ cs)
unfolding decode_hex
skip_space c cs = refl

decode-encode_rest :
    (spaces : Bool) (bs : List ℕ) → All IsByte bs → decode_hex (encode_rest spaces bs) ≡ bs
unfolding encode_rest decode_hex
decode-encode_rest spaces [] bytes = refl
decode-encode_rest false (b ∷ bs) (fits, bytes) =
    decode_byte b (encode_rest false bs) fits ∙ ap (◌∷◌ b) (decode-encode_rest false bs bytes)
decode-encode_rest true (b ∷ bs) (fits, bytes) =
    skip_space (hex_digit (b / 2 ^ 4)) (hex_digit (bit_and b 15) ∷ encode_rest true bs)
    ∙ decode_byte b (encode_rest true bs) fits
    ∙ ap (◌∷◌ b) (decode-encode_rest true bs bytes)

-- DecodeHex gives back the bytes that EncodeHex wrote, with spaces between them or without.
pub decode_hex-encode_hex :
    (spaces : Bool) (bs : List ℕ) → All IsByte bs → decode_hex (encode_hex spaces bs) ≡ bs
unfolding encode_hex encode_rest decode_hex
decode_hex-encode_hex spaces [] bytes = refl
decode_hex-encode_hex spaces (b ∷ bs) (fits, bytes) =
    decode_byte b (encode_rest spaces bs) fits ∙ ap (◌∷◌ b) (decode-encode_rest spaces bs bytes)
