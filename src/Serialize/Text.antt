-- ===== src/Serialize/Text.antt =====
-- Strings: the round trip, and what a zero byte does to it.
use mathlib.Core.List.{append_assoc}
use btcdemo.Prelude.{
  ℕ, zero, suc, ◌+◌, ◌%◌, ◌^◌, ◌≤◌, ◌<◌, ◌≡◌, ◌≢◌, subst, List, [], ◌∷◌, ◌++◌, length,
  length-append, arith,
}
use btcdemo.Prelude.Bytes.{All}
use btcdemo.Stream.{Input, ok, ◌>>=◌, advance, read}
use btcdemo.Stream.Window.{Left, read-Left}
use btcdemo.Serialize.{
  var_int_size, max_vardata_size, serialize_bytes, read_characters, deserialize_string,
}
use btcdemo.Serialize.Vectors.{counted_body, advance-Left_byte}

abbrev pub NotNul : ℕ → Type 0
NotNul b = b ≢ 0

module _ (stale : ℕ) where
  read_one :
      (b : ℕ) (s : Input) (ys : List ℕ) → Left s (b ∷ ys) → read 1 s ≡ ok (b ∷ [], advance s 1)
  read_one b s ys h = read-Left s (b ∷ []) ys h (omega arith)

  read_characters-cons :
      (n c b : ℕ) (s : Input) (ys : List ℕ)
      → Left s (b ∷ ys)
      → b ≢ 0
      → read_characters stale (suc n) c s
        ≡ (read_characters stale n b (advance s 1) >>= λ (cs, s2). ok (b ∷ cs, s2))
  unfolding read_characters
  read_characters-cons n c b s ys h some_char =
      rw (read_one b s ys h, read_characters) (ground arith)

  read_characters-nul :
      (n c : ℕ) (s : Input) (ys : List ℕ)
      → Left s (0 ∷ ys)
      → read_characters stale (suc n) c s ≡ ok ([], advance s 1)
  unfolding read_characters
  read_characters-nul n c s ys h = rw (read_one 0 s ys h, read_characters)

  read_characters-Left :
      (v : List ℕ) (c : ℕ) (s : Input) (ys : List ℕ)
      → Left s (v ++ ys)
      → All NotNul v
      → read_characters stale (length v) c s ≡ ok (v, advance s (length v))
  read_characters-Left [] c s ys h chars = unfold read_characters in ground arith
  read_characters-Left (b ∷ v) c s ys h (some_char, chars) =
      rw
        (
          read_characters-cons (length v) c b s (v ++ ys) h some_char,
          read_characters-Left v b (advance s 1) ys (advance-Left_byte 0 b s (v ++ ys) h) chars,
        )
        (ground arith)

  read_characters_cut :
      (pre : List ℕ) (n c : ℕ) (s : Input) (ys : List ℕ)
      → Left s (pre ++ 0 ∷ ys)
      → All NotNul pre
      → length pre < n
      → read_characters stale n c s ≡ ok (pre, advance s (length pre + 1))
  read_characters_cut pre zero c s ys h chars more = absurd (omega arith)
  read_characters_cut [] (suc n) c s ys h chars more = read_characters-nul n c s ys h
  read_characters_cut (b ∷ pre) (suc n) c s ys h (some_char, chars) more =
      rw
        (
          read_characters-cons n c b s (pre ++ 0 ∷ ys) h some_char,
          read_characters_cut pre n b (advance s 1) ys (advance-Left_byte 0 b s _ h) chars
              (omega arith),
        )
        (ground arith)

  -- A string with no zero byte comes back whole, and the source stands behind it.
  pub deserialize-serialize_string :
      (v : List ℕ) (s : Input) (ys : List ℕ)
      → Left s (serialize_bytes v ++ ys)
      → All NotNul v
      → length v ≤ max_vardata_size
      → stale % 2 ^ 64 < 2 ^ 16
      → deserialize_string stale s ≡ ok (v, advance s (var_int_size (length v) + length v))
  unfolding deserialize_string
  deserialize-serialize_string v s ys h chars small clean =
      let (count, body) = counted_body stale v s ys h small clean in
      rw (count, read_characters-Left v (stale % 256) _ ys body chars) (ground arith)

  -- A string with a zero byte comes back cut before it, and the source stands right behind that
  -- zero: what follows it in the string is left to be read as the next object.
  pub deserialize_string_nul :
      (pre post : List ℕ) (s : Input) (ys : List ℕ)
      → Left s (serialize_bytes (pre ++ 0 ∷ post) ++ ys)
      → All NotNul pre
      → length (pre ++ 0 ∷ post) ≤ max_vardata_size
      → stale % 2 ^ 64 < 2 ^ 16
      → deserialize_string stale s
        ≡ ok (pre, advance s (var_int_size (length (pre ++ 0 ∷ post)) + length pre + 1))
  unfolding deserialize_string
  deserialize_string_nul pre post s ys h chars small clean =
      let (count, body) = counted_body stale (pre ++ 0 ∷ post) s ys h small clean in
      let at_pre = subst (Left _) (append_assoc pre (0 ∷ post) ys) body in
      rw
        (
          count,
          read_characters_cut pre (length (pre ++ 0 ∷ post)) (stale % 256) _ (post ++ ys) at_pre
              chars (omega (arith, length-append pre (0 ∷ post))),
        )
        (ground arith)
