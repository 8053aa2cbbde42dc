-- ===== src/Serialize/Canonical.antt =====
-- Only the shortest form of a variable length integer is accepted.
use mathlib.Core.List.{append_assoc}
use btcdemo.Prelude.{
  ℕ, zero, suc, ◌+◌, ◌*◌, ◌/◌, ◌%◌, ◌^◌, ◌≤◌, ◌<◌, ◌≡◌, ◌≢◌, refl, sym, ap, ◌∙◌, subst, List, [],
  ◌∷◌, ◌++◌, length, arith, dec_lt, ℕ_discrete,
}
use btcdemo.Prelude.Bytes.{IsByte, All, pow_suc}
use btcdemo.Stream.{Input, ok, err, non_canonical, advance}
use btcdemo.Stream.Window.{Left}
use btcdemo.Endian.{to_little_endian}
use btcdemo.Serialize.{
  ser_write_var_int, ser_read_var_int, read_payload, read_varint_after, overlay,
}
use btcdemo.Serialize.VarInt.{
  ser_read_data-Left, advance-Left_data, form8, form16, form32, form64, read_short, read_wide16,
  read_wide32, read_wide64, overlay_clean, limited, Wide,
}

-- Any bytes begin with the bytes of a word.
record Begins (n : ℕ) (xs : List ℕ) : Type 0 where
  word : ℕ
  rest : List ℕ
  whole : xs ≡ to_little_endian n word ++ rest
  fits : word < 256 ^ n
  rest_bytes : All IsByte rest
  rest_length : length rest + n ≡ length xs

Begins-intro : (n : ℕ) (xs : List ℕ) → All IsByte xs → n ≤ length xs → Begins n xs
unfolding to_little_endian
Begins-intro zero xs bytes h = record {
  word = 0;
  rest = xs;
  whole = refl;
  fits = omega arith;
  rest_bytes = bytes;
  rest_length = omega arith;
}
Begins-intro (suc n) [] bytes h = absurd (omega arith)
Begins-intro (suc n) (b ∷ xs) (small, bytes) h =
    let w = Begins-intro n xs bytes (omega arith) in
    let low : (b + 256 * w.word) % 256 ≡ b = omega arith in
    let high : (b + 256 * w.word) / 256 ≡ w.word = omega arith in
    record {
      word = b + 256 * w.word;
      rest = w.rest;
      whole = rw (low, high) (ap (◌∷◌ b) w.whole);
      fits = omega (arith, pow_suc n, w.fits);
      rest_bytes = w.rest_bytes;
      rest_length = omega (arith, w.rest_length);
    }

module _ (stale : ℕ) where
  -- A payload below the least value of its form is refused.
  read_payload_low :
      (n v least : ℕ) (s : Input) (ys : List ℕ)
      → Left s (to_little_endian (suc n) v ++ ys)
      → v < 256 ^ suc n
      → overlay stale (suc n) v ≡ v
      → v < least
      → read_payload stale (suc n) least s ≡ err non_canonical
  unfolding read_payload
  read_payload_low n v least s ys h small clean low =
      rw (ser_read_data-Left stale n v s ys h small) (ground arith)

  limited_some : (v n : ℕ) (s s' : Input) → limited stale v s ≡ ok (n, s') → n ≡ v
  limited_some v n s s' e = ground arith

  -- One of the three forms with a marker: what is below its least value is refused, and the rest is
  -- what SerWriteVarInt writes.
  module _ (marker size least : ℕ) (byte : marker < 256) (two : 2 ≤ suc size)
      (dispatch : (s : Input)
        → read_varint_after stale marker s ≡ read_payload stale (suc size) least s)
      (reads : Wide stale marker size least)
      (form : (v : ℕ)
        → least ≤ v
        → v < 256 ^ suc size
        → ser_write_var_int v ≡ to_little_endian 1 marker ++ to_little_endian (suc size) v) where
    refuses :
        (n v : ℕ) (s s' : Input) (ys : List ℕ)
        → Left s (to_little_endian 1 marker ++ (to_little_endian (suc size) v ++ ys))
        → v < 256 ^ suc size
        → v < least
        → stale % 2 ^ 64 < 2 ^ 16
        → ser_read_var_int stale s ≢ ok (n, s')
    unfolding ser_read_var_int
    refuses n v s s' ys h fits low clean e =
        let first =
          ser_read_data-Left stale 0 marker s (to_little_endian (suc size) v ++ ys) h
            (omega arith) in
        let next =
          dispatch (advance s 1)
          ∙ read_payload_low size v least (advance s 1) ys (advance-Left_data stale 1 marker s _ h)
              fits (overlay_clean stale (suc size) v clean two) low in
        cc (rw (first, next) at e)

    wide_canonical :
        (xs zs : List ℕ) (n : ℕ) (s s' : Input)
        → Left s xs
        → xs ≡ to_little_endian 1 marker ++ zs
        → All IsByte zs
        → suc size ≤ length zs
        → stale % 2 ^ 64 < 2 ^ 16
        → ser_read_var_int stale s ≡ ok (n, s')
        → (ys : List ℕ) × (xs ≡ ser_write_var_int n ++ ys)
    wide_canonical xs zs n s s' h split bytes long clean e =
        let w = Begins-intro (suc size) zs bytes long in
        let whole : xs
            ≡ to_little_endian 1 marker ++ (to_little_endian (suc size) w.word ++ w.rest) =
          split ∙ ap (λ t. to_little_endian 1 marker ++ t) w.whole in
        let at_word = subst (Left s) whole h in
        elim (dec_lt w.word least) [
          | yes low ↦ absurd (refuses n w.word s s' w.rest at_word w.fits low clean e)
          | no enough ↦
              let read = reads w.word s w.rest at_word w.fits (omega arith) in
              let same : n ≡ w.word =
                limited_some _ n _ s' (sym read ∙ e)
                ∙ overlay_clean stale (suc size) w.word clean two in
              (w.rest, rw (same, form w.word (omega arith) w.fits, append_assoc) whole)
        ]

  -- What SerReadVarInt accepts of nine bytes or more is what SerWriteVarInt writes for the number
  -- that it returns, when the high 48 bits of the uninitialised variable are zero.
  pub ser_read_var_int_canonical :
      (xs : List ℕ) (n : ℕ) (s s' : Input)
      → Left s xs
      → All IsByte xs
      → 9 ≤ length xs
      → stale % 2 ^ 64 < 2 ^ 16
      → ser_read_var_int stale s ≡ ok (n, s')
      → (ys : List ℕ) × (xs ≡ ser_write_var_int n ++ ys)
  unfolding read_varint_after
  ser_read_var_int_canonical xs n s s' h bytes long clean e =
      let w = Begins-intro 1 xs bytes (omega arith) in
      let at_word = subst (Left s) w.whole h in
      let marked =
        λ (m : ℕ) (k : w.word ≡ m). w.whole ∙ ap (λ (t : ℕ). to_little_endian 1 t ++ w.rest) k in
      elim (dec_lt w.word 0xfd) [
        | yes short ↦
            let same : n ≡ w.word =
              limited_some _ n _ s' (sym (read_short stale w.word s w.rest at_word short) ∙ e) in
            (w.rest, rw (same, form8 w.word short) w.whole)
        | no wide ↦ elim (ℕ_discrete w.word 0xfd) [
          | yes k ↦
              wide_canonical 0xfd 1 0xfd (omega arith) (omega arith) (λ t. refl) (read_wide16 stale)
                (λ v lo hi. form16 v lo (omega arith)) xs w.rest n s s' h (marked 0xfd k)
                w.rest_bytes (omega (arith, w.rest_length)) clean e
          | no not16 ↦ elim (ℕ_discrete w.word 0xfe) [
            | yes k ↦
                wide_canonical 0xfe 3 0x1_0000 (omega arith) (omega arith) (λ t. refl)
                  (read_wide32 stale) (λ v lo hi. form32 v (omega arith) (omega arith)) xs w.rest n
                  s s' h (marked 0xfe k) w.rest_bytes (omega (arith, w.rest_length)) clean e
            | no not32 ↦
                wide_canonical 0xff 7 0x1_0000_0000 (omega arith) (omega arith) (λ t. refl)
                  (read_wide64 stale) (λ v lo hi. form64 v (omega arith)) xs w.rest n s s' h
                  (marked 0xff (omega (arith, w.fits))) w.rest_bytes (omega (arith, w.rest_length))
                  clean e
          ]
        ]
      ]
