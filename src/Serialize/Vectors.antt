-- ===== src/Serialize/Vectors.antt =====
-- Vectors of bytes, as scripts are: the round trip through the stream.
use mathlib.Core.List.{append_assoc}
use btcdemo.Prelude.{
  ℕ, ◌+◌, ◌*◌, ◌%◌, ◌^◌, ◌≤◌, ◌<◌, ◌≡◌, sym, subst, List, [], ◌∷◌, ◌++◌, length, length-append, ltb,
  arith,
}
use btcdemo.Prelude.Bytes.{IsByte, All}
use btcdemo.Stream.{Input, ok, advance, interrupt_if}
use btcdemo.Stream.Window.{Left, advance-Left}
use btcdemo.Endian.{to_little_endian}
use btcdemo.Serialize.{
  var_int_size, ser_write_var_int, max_vardata_size, max_block_size, serialize_bytes, ser_read_data,
  ser_read_var_int, read_elements, deserialize_bytes,
}
use btcdemo.Serialize.VarInt.{length-ser_write_var_int, ser_read_data-Left, ser_read_var_int-write}

pub length-serialize_bytes :
    (v : List ℕ) → length (serialize_bytes v) ≡ var_int_size (length v) + length v
unfolding serialize_bytes
length-serialize_bytes v =
    omega
      (arith, length-append (ser_write_var_int (length v)) v, length-ser_write_var_int (length v))

module _ (stale : ℕ) where
  byte_form : (b : ℕ) → b < 256 → to_little_endian 1 b ≡ b ∷ []
  unfolding to_little_endian
  byte_form b h = ground arith

  pub read_byte :
      (b : ℕ) (s : Input) (ys : List ℕ)
      → Left s (b ∷ ys)
      → b < 256
      → ser_read_data stale 1 s ≡ ok (b, advance s 1)
  read_byte b s ys h small =
      ser_read_data-Left stale 0 b s ys
        (subst (λ bs. Left s (bs ++ ys)) (sym (byte_form b small)) h) (omega arith)

  pub advance-Left_byte :
      (b : ℕ) (s : Input) (ys : List ℕ) → Left s (b ∷ ys) → Left (advance s 1) ys
  advance-Left_byte b s ys h = advance-Left s (b ∷ []) ys h

  pub read_elements-Left :
      (v : List ℕ) (s : Input) (ys : List ℕ)
      → Left s (v ++ ys)
      → All IsByte v
      → read_elements stale (length v) s ≡ ok (v, advance s (length v))
  unfolding read_elements
  read_elements-Left [] s ys h bytes = ground arith
  read_elements-Left (b ∷ v) s ys h (small, bytes) =
      rw
        (
          read_byte b s (v ++ ys) h small,
          read_elements-Left v (advance s 1) ys (advance-Left_byte b s (v ++ ys) h) bytes,
        )
        (ground arith)

  -- What follows the count of a vector or a string.
  pub counted_body :
      (v : List ℕ) (s : Input) (ys : List ℕ)
      → Left s (serialize_bytes v ++ ys)
      → length v ≤ max_vardata_size
      → stale % 2 ^ 64 < 2 ^ 16
      → (ser_read_var_int stale s ≡ ok (length v, advance s (var_int_size (length v))))
        × Left (advance s (var_int_size (length v))) (v ++ ys)
  unfolding serialize_bytes
  counted_body v s ys h small clean =
      let split : Left s (ser_write_var_int (length v) ++ (v ++ ys)) =
        subst (Left s) (append_assoc (ser_write_var_int (length v)) v ys) h in
      (
        ser_read_var_int-write stale (length v) s (v ++ ys) split small clean,
        rw (length-ser_write_var_int (length v)) at (advance-Left s _ (v ++ ys) split),
      )

  -- A vector of bytes that was written comes back whole, the source stands behind it, and the
  -- interrupt is raised exactly if it was before or the vector is longer than `kMaxBlockSize`.
  pub deserialize-serialize_bytes :
      (v : List ℕ) (s : Input) (ys : List ℕ)
      → Left s (serialize_bytes v ++ ys)
      → All IsByte v
      → length v ≤ max_vardata_size
      → stale % 2 ^ 64 < 2 ^ 16
      → deserialize_bytes stale s
        ≡ ok (
          v,
          interrupt_if (ltb max_block_size (length v)) (advance s (length (serialize_bytes v))),
        )
  unfolding deserialize_bytes serialize_bytes
  deserialize-serialize_bytes v s ys h bytes small clean =
      let (count, body) = counted_body v s ys h small clean in
      let flag = ltb max_block_size (length v * 1) in
      let s' = interrupt_if flag (advance s (var_int_size (length v))) in
      let body' : Left s' (v ++ ys) = record { inside = body.inside; bytes = body.bytes } in
      rw (count, read_elements-Left v s' ys body' bytes) (ground (arith, length-serialize_bytes v))
