-- ===== src/Hex/Runs.antt =====
-- Three bytes with spaces between them.
use btcdemo.Prelude.{◌≡◌, refl, true, [], ◌∷◌}
use btcdemo.Hex.{encode_hex, encode_rest}

spaced : encode_hex true (0x0a ∷ 0xff ∷ []) ≡ 0x30 ∷ 0x61 ∷ 0x20 ∷ 0x66 ∷ 0x66 ∷ []
unfolding encode_hex encode_rest
spaced = refl
