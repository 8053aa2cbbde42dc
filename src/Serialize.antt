-- ===== src/Serialize.antt =====
-- utility/include/serialize.h and utility/src/serialize.cpp, over the streams of `Stream`.
-- A writing function is the list of the bytes that it appends to the sink.
-- `stale` is what lies in the memory of an uninitialised local variable, as one little-endian number:
-- SerReadData does not look at how much was read, and SerReadVarInt reads two or four bytes into a
-- 64-bit variable that it did not set. The host is little-endian, as `reinterpret_cast` shows it.
-- The byte counts that the Deserialize functions return are read by nobody here.
pub mod VarInt
pub mod Vectors
pub mod Text
pub mod Canonical
pub mod Steps
pub mod Objects
mod Runs
use btcdemo.Prelude.{
  ℕ, zero, suc, ◌+◌, ◌*◌, ◌/◌, ◌%◌, ◌^◌, List, [], ◌∷◌, ◌++◌, length, drop, ltb, leb, ◌==◌,
  if◌then◌else◌,
}
use btcdemo.Stream.{Input, Result, ok, err, ◌>>=◌, non_canonical, too_large, interrupt_if, read}
use btcdemo.Endian.{to_little_endian, from_little_endian}

abbrev pub varint_16bits : ℕ
varint_16bits = 0xfd

abbrev pub varint_32bits : ℕ
varint_32bits = 0xfe

abbrev pub varint_64bits : ℕ
varint_64bits = 0xff

abbrev pub max_vardata_size : ℕ
max_vardata_size = 0x02000000

abbrev pub max_block_size : ℕ
max_block_size = 1000000

unfoldable pub var_int_size : ℕ → ℕ
var_int_size vec_size =
    if ltb vec_size varint_16bits
    then 1
    else if leb vec_size 0xffff
    then 3
    else if leb vec_size 0xffff_ffff
    then 5
    else 9

-- `ToLittleEndian(obj, data)` on the bytes of an object.
abbrev pub ser_write_data : ℕ → ℕ → List ℕ
ser_write_data size obj = to_little_endian size obj

unfoldable pub ser_write_var_int : ℕ → List ℕ
ser_write_var_int count =
    if ltb count varint_16bits
    then ser_write_data 1 (count % 2 ^ 8)
    else if leb count 0xffff
    then ser_write_data 1 varint_16bits ++ ser_write_data 2 (count % 2 ^ 16)
    else if leb count 0xffff_ffff
    then ser_write_data 1 varint_32bits ++ ser_write_data 4 (count % 2 ^ 32)
    else ser_write_data 1 varint_64bits ++ ser_write_data 8 count

-- For an arithmetic vector of bytes; a string is written the same way.
unfoldable pub serialize_bytes : List ℕ → List ℕ
serialize_bytes bytes = ser_write_var_int (length bytes) ++ bytes

abbrev first : List ℕ → ℕ → ℕ
first [] c = c
first (b ∷ bs) c = b

module _ (stale : ℕ) where
  -- The bytes that `read` does not fill keep what was there.
  unfoldable pub ser_read_data : ℕ → Input → Result (ℕ × Input)
  ser_read_data size s = do
    (bytes, s') ← read size s
    ok (from_little_endian size (bytes ++ drop (length bytes) (to_little_endian size stale)), s')

  -- `SerReadData(reinterpret_cast<uintN_t*>(&varint))` sets the low bytes of the 64 bits.
  abbrev pub overlay : ℕ → ℕ → ℕ
  overlay size low = low + stale % 2 ^ 64 / 256 ^ size * 256 ^ size

  -- One branch of SerReadVarInt: the payload, and the least value that needs its width.
  read_payload : ℕ → ℕ → Input → Result (ℕ × Input)
  read_payload size least s = do
    (low, s') ← ser_read_data size s
    if ltb (overlay size low) least then err non_canonical else ok (overlay size low, s')

  read_varint_after : ℕ → Input → Result (ℕ × Input)
  unfolding read_payload
  read_varint_after count s =
      if ltb count varint_16bits
      then ok (count, s)
      else if count == varint_16bits
      then read_payload 2 varint_16bits s
      else if count == varint_32bits
      then read_payload 4 0x1_0000 s
      else read_payload 8 0x1_0000_0000 s

  unfoldable pub ser_read_var_int : Input → Result (ℕ × Input)
  unfolding read_varint_after
  ser_read_var_int s = do
    (count, s1) ← ser_read_data 1 s
    (varint, s2) ← read_varint_after count s1
    if ltb max_vardata_size varint then err too_large else ok (varint, s2)

  -- The loop over the elements of a resized vector of bytes.
  unfoldable pub read_elements : ℕ → Input → Result (List ℕ × Input)
  read_elements zero s = ok ([], s)
  read_elements (suc n) s = do
    (b, s1) ← ser_read_data 1 s
    (bs, s2) ← read_elements n s1
    ok (b ∷ bs, s2)

  -- For an arithmetic vector of bytes.
  unfoldable pub deserialize_bytes : Input → Result (List ℕ × Input)
  deserialize_bytes s = do
    (count, s1) ← ser_read_var_int s
    read_elements count (interrupt_if (ltb max_block_size (count * 1)) s1)

  -- For a string: `c` is the variable that `read` fills, and keeps its value at the end.
  unfoldable pub read_characters : ℕ → ℕ → Input → Result (List ℕ × Input)
  read_characters zero c s = ok ([], s)
  read_characters (suc n) c s = elim (read 1 s) [
    | err e ↦ err e
    | ok (bytes, s1) ↦
        let c' = first bytes c in
        let rest = read_characters n c' s1 in
        if c' == 0 then ok ([], s1) else (do (cs, s2) ← rest; ok (c' ∷ cs, s2))
  ]

  unfoldable pub deserialize_string : Input → Result (List ℕ × Input)
  deserialize_string s = do (count, s1) ← ser_read_var_int s; read_characters count (stale % 256) s1
