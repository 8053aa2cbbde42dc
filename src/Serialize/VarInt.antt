-- ===== src/Serialize/VarInt.antt =====
-- The variable length integers: their size, the round trip, and what goes wrong beside it.
use mathlib.Core.List.{append-nil, append_assoc}
use btcdemo.Prelude.{
  ℕ, suc, ◌*◌, ◌/◌, ◌%◌, ◌^◌, ◌≤◌, ◌<◌, ◌≡◌, ◌≢◌, sym, ap, ◌∙◌, subst, List, [], ◌++◌, length,
  drop_all, drop, ltb, leb, if◌then◌else◌, arith, dec_lt,
}
use native.Mathlib.Nat.{div-eq_of_lt}
use btcdemo.Prelude.Bytes.{pow_mono}
use btcdemo.Stream.{Input, Result, ok, err, too_large, advance, read}
use btcdemo.Stream.Window.{Left, read-Left, advance-Left}
use btcdemo.Endian.{to_little_endian}
use btcdemo.Endian.RoundTrip.{length-to_little_endian, from_little-to_little}
use btcdemo.Serialize.{
  var_int_size, ser_write_var_int, max_vardata_size, ser_read_data, ser_read_var_int, read_payload,
  overlay,
}

-- `VarIntSize` is the number of bytes that `SerWriteVarInt` writes, for every count.
pub length-ser_write_var_int : (n : ℕ) → length (ser_write_var_int n) ≡ var_int_size n
unfolding ser_write_var_int var_int_size to_little_endian
length-ser_write_var_int n = ground arith

-- The four forms that `SerWriteVarInt` writes.
pub form8 : (n : ℕ) → n < 0xfd → ser_write_var_int n ≡ to_little_endian 1 n
unfolding ser_write_var_int
form8 n h = ground arith

pub form16 :
    (n : ℕ)
    → 0xfd ≤ n
    → n ≤ 0xffff
    → ser_write_var_int n ≡ to_little_endian 1 0xfd ++ to_little_endian 2 n
unfolding ser_write_var_int
form16 n lo hi = ground arith

pub form32 :
    (n : ℕ)
    → 0xffff < n
    → n ≤ 0xffff_ffff
    → ser_write_var_int n ≡ to_little_endian 1 0xfe ++ to_little_endian 4 n
unfolding ser_write_var_int
form32 n lo hi = ground arith

pub form64 :
    (n : ℕ)
    → 0xffff_ffff < n
    → ser_write_var_int n ≡ to_little_endian 1 0xff ++ to_little_endian 8 n
unfolding ser_write_var_int
form64 n lo = ground arith

Left_form :
    (s : Input) {xs : List ℕ} (a b ys : List ℕ)
    → xs ≡ a ++ b
    → Left s (xs ++ ys)
    → Left s (a ++ (b ++ ys))
Left_form s a b ys e h = subst (Left s) (append_assoc a b ys) (subst (λ bs. Left s (bs ++ ys)) e h)

-- The number of bytes of the payload that `SerWriteVarInt` chooses.
abbrev pub payload_size : ℕ → ℕ
payload_size n =
    if ltb n 0xfd then 8 else if leb n 0xffff then 2 else if leb n 0xffff_ffff then 4 else 8

module _ (stale : ℕ) where
  -- A word that was written is read back, whatever the buffer held before.
  pub ser_read_data-Left :
      (n v : ℕ) (s : Input) (ys : List ℕ)
      → Left s (to_little_endian (suc n) v ++ ys)
      → v < 256 ^ suc n
      → ser_read_data stale (suc n) s ≡ ok (v, advance s (suc n))
  unfolding ser_read_data
  ser_read_data-Left n v s ys h small =
      let len = length-to_little_endian (suc n) v in
      let filled : read (suc n) s ≡ ok (to_little_endian (suc n) v, advance s (suc n)) =
        rw len at (read-Left s (to_little_endian (suc n) v) ys h (omega (arith, len))) in
      let bytes = to_little_endian (suc n) v in
      let tail : drop (length bytes) (to_little_endian (suc n) stale) ≡ [] =
        drop_all _ (length-to_little_endian (suc n) stale ∙ sym len) in
      rw (filled, tail, append-nil, from_little-to_little (suc n) v small)

  pub advance-Left_data :
      (n v : ℕ) (s : Input) (ys : List ℕ)
      → Left s (to_little_endian n v ++ ys)
      → Left (advance s n) ys
  advance-Left_data n v s ys h =
      rw (length-to_little_endian n v) at (advance-Left s (to_little_endian n v) ys h)

  abbrev pub advance2 : Input → ℕ → ℕ → Input
  advance2 s m n = advance (advance s m) n

  -- The payload of a wide form comes back under the stale bits above it.
  read_payload-Left :
      (n v least : ℕ) (s : Input) (ys : List ℕ)
      → Left s (to_little_endian (suc n) v ++ ys)
      → v < 256 ^ suc n
      → least ≤ v
      → read_payload stale (suc n) least s ≡ ok (overlay stale (suc n) v, advance s (suc n))
  unfolding read_payload
  read_payload-Left n v least s ys h small enough =
      rw (ser_read_data-Left n v s ys h small) (ground arith)

  -- The limit that is tested last.
  abbrev pub limited : ℕ → Input → Result (ℕ × Input)
  limited v s = if ltb max_vardata_size v then err too_large else ok (v, s)

  pub read_short :
      (n : ℕ) (s : Input) (ys : List ℕ)
      → Left s (to_little_endian 1 n ++ ys)
      → n < 0xfd
      → ser_read_var_int stale s ≡ limited n (advance s 1)
  unfolding ser_read_var_int
  read_short n s ys h small = rw (ser_read_data-Left 0 n s ys h (omega arith)) (ground arith)

  abbrev pub Wide : ℕ → ℕ → ℕ → Type 0
  Wide marker size least =
      (n : ℕ) (s : Input) (ys : List ℕ)
      → Left s (to_little_endian 1 marker ++ (to_little_endian (suc size) n ++ ys))
      → n < 256 ^ suc size
      → least ≤ n
      → ser_read_var_int stale s ≡ limited (overlay stale (suc size) n) (advance2 s 1 (suc size))

  pub read_wide16 : Wide 0xfd 1 0xfd
  unfolding ser_read_var_int
  read_wide16 n s ys h fits enough = rw (
    ser_read_data-Left 0 0xfd s (to_little_endian 2 n ++ ys) h (omega arith),
    read_payload-Left 1 n 0xfd (advance s 1) ys (advance-Left_data 1 0xfd s _ h) fits enough,
  )

  pub read_wide32 : Wide 0xfe 3 0x1_0000
  unfolding ser_read_var_int
  read_wide32 n s ys h fits enough = rw (
    ser_read_data-Left 0 0xfe s (to_little_endian 4 n ++ ys) h (omega arith),
    read_payload-Left 3 n 0x1_0000 (advance s 1) ys (advance-Left_data 1 0xfe s _ h) fits enough,
  )

  pub read_wide64 : Wide 0xff 7 0x1_0000_0000
  unfolding ser_read_var_int
  read_wide64 n s ys h fits enough = rw (
    ser_read_data-Left 0 0xff s (to_little_endian 8 n ++ ys) h (omega arith),
    read_payload-Left 7 n 0x1_0000_0000 (advance s 1) ys (advance-Left_data 1 0xff s _ h) fits
        enough,
  )

  -- What SerReadVarInt makes of the bytes that SerWriteVarInt wrote, for every count and every
  -- content of the uninitialised variable.
  pub ser_read_var_int_outcome :
      (n : ℕ) (s : Input) (ys : List ℕ)
      → Left s (ser_write_var_int n ++ ys)
      → n < 2 ^ 64
      → ser_read_var_int stale s
        ≡ limited (overlay stale (payload_size n) n) (advance s (var_int_size n))
  unfolding var_int_size
  ser_read_var_int_outcome n s ys h fits = elim (dec_lt n 0xfd) [
    | yes p ↦ read_short n s ys (subst (λ bs. Left s (bs ++ ys)) (form8 n p) h) p ∙ ground arith
    | no p ↦ elim (dec_lt 0xffff n) [
      | no q ↦
          read_wide16 n s ys (Left_form s _ _ ys (form16 n (omega arith) (omega arith)) h)
            (omega arith) (omega arith)
          ∙ ground arith
      | yes q ↦ elim (dec_lt 0xffff_ffff n) [
        | no r ↦
            read_wide32 n s ys (Left_form s _ _ ys (form32 n q (omega arith)) h) (omega arith)
              (omega arith)
            ∙ ground arith
        | yes r ↦
            read_wide64 n s ys (Left_form s _ _ ys (form64 n r) h) (omega arith) (omega arith)
            ∙ ground arith
      ]
    ]
  ]

  clean_above : (n : ℕ) → stale % 2 ^ 64 < 2 ^ 16 → 2 ≤ n → stale % 2 ^ 64 / 256 ^ n ≡ 0
  clean_above n small h = div-eq_of_lt (omega (arith, pow_mono {i = 2} {j = n} h))

  pub overlay_clean : (size n : ℕ) → stale % 2 ^ 64 < 2 ^ 16 → 2 ≤ size → overlay stale size n ≡ n
  overlay_clean size n clean h =
      omega (arith, ap (λ (t : ℕ). t * 256 ^ size) (clean_above size clean h))

  payload_size_least : (n : ℕ) → 2 ≤ payload_size n
  payload_size_least n = ground arith

  -- When the high 48 bits of the uninitialised variable are zero, SerReadVarInt gives back every
  -- count up to `kMaxVardataSize` that SerWriteVarInt wrote, and moves by `VarIntSize` bytes.
  pub ser_read_var_int-write :
      (n : ℕ) (s : Input) (ys : List ℕ)
      → Left s (ser_write_var_int n ++ ys)
      → n ≤ max_vardata_size
      → stale % 2 ^ 64 < 2 ^ 16
      → ser_read_var_int stale s ≡ ok (n, advance s (var_int_size n))
  ser_read_var_int-write n s ys h small clean =
      ser_read_var_int_outcome n s ys h (omega arith)
      ∙ rw (overlay_clean (payload_size n) n clean (payload_size_least n)) (ground arith)

  -- A count above the limit is written, and refused on reading.
  pub ser_read_var_int_too_large :
      (n : ℕ) (s : Input) (ys : List ℕ)
      → Left s (ser_write_var_int n ++ ys)
      → max_vardata_size < n
      → n < 2 ^ 64
      → ser_read_var_int stale s ≡ err too_large
  ser_read_var_int_too_large n s ys h big fits =
      ser_read_var_int_outcome n s ys h fits ∙ ground arith

  -- Where any of those 48 bits is set, a count that takes the two-byte form never comes back: the
  -- read throws, or returns another number.
  pub ser_read_var_int_stale :
      (n : ℕ) (s s' : Input) (ys : List ℕ)
      → Left s (ser_write_var_int n ++ ys)
      → 0xfd ≤ n
      → n ≤ 0xffff
      → 2 ^ 16 ≤ stale % 2 ^ 64
      → ser_read_var_int stale s ≢ ok (n, s')
  ser_read_var_int_stale n s s' ys h lo hi dirty e =
      ground (arith, ser_read_var_int_outcome n s ys h (omega arith))
