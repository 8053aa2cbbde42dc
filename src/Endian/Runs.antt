-- ===== src/Endian/Runs.antt =====
-- The byte orders at concrete words.
use btcdemo.Prelude.{◌≡◌, refl, [], ◌∷◌}
use btcdemo.Endian.{to_little_endian, to_big_endian}

to_little_12345678 : to_little_endian 4 0x12345678 ≡ 0x78 ∷ 0x56 ∷ 0x34 ∷ 0x12 ∷ []
unfolding to_little_endian
to_little_12345678 = refl

to_big_12345678 : to_big_endian 4 0x12345678 ≡ 0x12 ∷ 0x34 ∷ 0x56 ∷ 0x78 ∷ []
unfolding to_big_endian
to_big_12345678 = refl
