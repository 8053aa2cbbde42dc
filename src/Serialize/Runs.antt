-- ===== src/Serialize/Runs.antt =====
-- Serialization at concrete bytes.
use btcdemo.Prelude.{ℕ, ◌≡◌, refl, false, List, [], ◌∷◌, ◌++◌, arith}
use btcdemo.Stream.{Input, ok, advance, read}
use btcdemo.Stream.Window.{Left}
use btcdemo.Endian.{to_little_endian, from_little_endian}
use btcdemo.Serialize.{var_int_size, ser_write_var_int, ser_read_data, ser_read_var_int}
use btcdemo.Serialize.VarInt.{ser_read_var_int-write}

abbrev source : List ℕ → Input
source bytes = record { container = bytes; position = 0; interrupted = false }

abbrev at_start : (xs : List ℕ) → Left (source xs) xs
at_start xs = record { inside = omega arith; bytes = refl }

write_var_int_515 : ser_write_var_int 515 ≡ 0xfd ∷ 3 ∷ 2 ∷ []
unfolding ser_write_var_int to_little_endian
write_var_int_515 = refl

ser_read_var_int-write_example :
    ser_read_var_int 7 (source (ser_write_var_int 515 ++ 9 ∷ []))
    ≡ ok (515, advance (source (ser_write_var_int 515 ++ 9 ∷ [])) (var_int_size 515))
ser_read_var_int-write_example =
    ser_read_var_int-write 7 515 (source (ser_write_var_int 515 ++ 9 ∷ [])) (9 ∷ []) (at_start _)
      (omega arith) (omega arith)

-- With one stale bit above the two bytes, 515 is read as 66051.
read_stale :
    ser_read_var_int 0x1_0000 (source (0xfd ∷ 3 ∷ 2 ∷ []))
    ≡ ok (66051, advance (source (0xfd ∷ 3 ∷ 2 ∷ [])) 3)
unfolding ser_read_var_int ser_read_data read to_little_endian from_little_endian
read_stale = refl

short_source : Input
short_source = source (7 ∷ 0 ∷ 0 ∷ 0 ∷ 0 ∷ 0 ∷ 0 ∷ 0 ∷ 0 ∷ [])

read_seven : ser_read_var_int 0 short_source ≡ ok (7, advance short_source 1)
unfolding short_source ser_read_var_int ser_read_data read to_little_endian from_little_endian
read_seven = refl
