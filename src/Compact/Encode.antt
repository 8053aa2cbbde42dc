-- ===== src/Compact/Encode.antt =====
-- What GetCompact makes of a 256-bit number, in plain arithmetic.
use native.Mathlib.Nat.{div-div-eq-div-mul, div-lt_iff_lt-mul, le-div_iff_mul-le}
use btcdemo.Prelude.{
  ℕ, zero, suc, ◌+◌, ◌-◌, ◌*◌, ◌/◌, ◌%◌, ◌^◌, ◌≤◌, ◌<◌, ◌≡◌, refl, ap, subst, ◌∙◌, bit_and, some,
  leb, if◌then◌else◌, ◌⊎◌, inl, inr, arith, dec_lt,
}
use btcdemo.Prelude.Bits.{bit_and_bit, bit_and_above, bit_or_fields}
use btcdemo.Prelude.Bytes.{pow_suc, pow_pos}
use btcdemo.Compact.{mantissa, pack, get_compact_of, logical_size}
use btcdemo.Compact.Size.{TakesBytes, logical_size-TakesBytes}

-- The number that a mantissa and an exponent stand for.
abbrev pub decoded : ℕ → ℕ → ℕ
decoded word size = if leb size 3 then word / 256 ^ (3 - size) else word * 256 ^ (size - 3)

-- The low `k` bytes of `n` cleared.
abbrev pub cleared : ℕ → ℕ → ℕ
cleared k n = n / 256 ^ k * 256 ^ k

pub record Packed (n : ℕ) : Type 0 where
  pub word : ℕ
  pub size : ℕ
  pub lost : ℕ
  pub packs : get_compact_of n ≡ some (word + size * 2 ^ 24)
  pub word_fits : word < 2 ^ 23
  pub size_fits : size ≤ 33
  pub top_fits : 32 < size → word ≤ 0xffff
  pub stands_for : decoded word size ≡ cleared lost n
  pub precise : (lost ≡ 0) ⊎ (2 ^ 15 * 256 ^ lost ≤ n)

pack_lem :
    (word size : ℕ) → word < 2 ^ 23 → size < 256 → pack word size ≡ some (word + size * 2 ^ 24)
unfolding pack
pack_lem word size h k =
    let free : bit_and word 0xff80_0000 ≡ 0 = bit_and_above 23 word 0x1ff h in
    let small : size * 2 ^ 24 % 2 ^ 64 ≡ size * 2 ^ 24 = omega arith in
    let joined = bit_or_fields 24 word size (omega arith) in rw (free, small, joined) (ground arith)

sign_bit : (word : ℕ) → word < 2 ^ 24 → bit_and word 0x0080_0000 ≡ word / 2 ^ 23 * 2 ^ 23
sign_bit word h = bit_and_bit 23 word ∙ omega arith

module _ (n : ℕ) where
  packs_low :
      (m s : ℕ)
      → logical_size n ≡ s
      → mantissa n s ≡ m
      → m < 2 ^ 23
      → s < 256
      → get_compact_of n ≡ some (m + s * 2 ^ 24)
  unfolding get_compact_of
  packs_low m s es em h k =
      let bit = sign_bit m (omega arith) in rw (es, em) (ground (arith, bit, pack_lem m s h k))

  packs_high :
      (m s : ℕ)
      → logical_size n ≡ s
      → mantissa n s ≡ m
      → 2 ^ 23 ≤ m
      → m < 2 ^ 24
      → s < 255
      → get_compact_of n ≡ some (m / 256 + (s + 1) * 2 ^ 24)
  unfolding get_compact_of
  packs_high m s es em l h k =
      let bit = sign_bit m h in
      rw (es, em) (ground (arith, bit, pack_lem (m / 256) (s + 1) (omega arith) (omega arith)))

  -- Up to three bytes: the number is shifted up into the mantissa.
  small_number : (s : ℕ) → logical_size n ≡ s → TakesBytes n s → s ≤ 2 → Packed n
  small_number zero es t h = record {
    word = 0;
    size = 0;
    lost = 0;
    packs = packs_low 0 0 es (omega (arith, t.below)) (omega arith) (omega arith);
    word_fits = omega arith;
    size_fits = omega arith;
    top_fits = λ p. absurd (omega arith);
    stands_for = omega (arith, t.below);
    precise = inl refl;
  }
  small_number (suc zero) es t h = elim (dec_lt n 128) [
    | yes low ↦ record {
      word = n * 0x1_0000;
      size = 1;
      lost = 0;
      packs = packs_low (n * 0x1_0000) 1 es (omega arith) (omega arith) (omega arith);
      word_fits = omega arith;
      size_fits = omega arith;
      top_fits = λ p. absurd (omega arith);
      stands_for = omega arith;
      precise = inl refl;
    }
    | no high ↦ record {
      word = n * 0x1_0000 / 256;
      size = 2;
      lost = 0;
      packs =
          packs_high (n * 0x1_0000) 1 es (omega (arith, t.below)) (omega arith)
            (omega (arith, t.below)) (omega arith);
      word_fits = omega (arith, t.below);
      size_fits = omega arith;
      top_fits = λ p. absurd (omega arith);
      stands_for = omega arith;
      precise = inl refl;
    }
  ]
  small_number (suc (suc zero)) es t h = elim (dec_lt n 0x8000) [
    | yes low ↦ record {
      word = n * 256;
      size = 2;
      lost = 0;
      packs = packs_low (n * 256) 2 es (omega arith) (omega arith) (omega arith);
      word_fits = omega arith;
      size_fits = omega arith;
      top_fits = λ p. absurd (omega arith);
      stands_for = omega arith;
      precise = inl refl;
    }
    | no high ↦ record {
      word = n * 256 / 256;
      size = 3;
      lost = 0;
      packs =
          packs_high (n * 256) 2 es (omega (arith, t.below)) (omega arith) (omega (arith, t.below))
            (omega arith);
      word_fits = omega (arith, t.below);
      size_fits = omega arith;
      top_fits = λ p. absurd (omega arith);
      stands_for = omega arith;
      precise = inl refl;
    }
  ]
  small_number (suc (suc (suc s))) es t h = absurd (omega arith)

  -- From three bytes on: the top three bytes are the mantissa.
  module _ (k : ℕ) (es : logical_size n ≡ k + 3) (t : TakesBytes n (k + 3))
      (small : k + 3 ≤ 32) where
    top : ℕ
    top = n / 256 ^ k

    split_power : (j : ℕ) → 256 ^ suc j * 256 ≡ 256 * 256 ^ suc j
    split_power j = omega arith

    top_below : top < 2 ^ 24
    unfolding top
    top_below =
        (div-lt_iff_lt-mul {k = 256 ^ k} {x = n} {y = 2 ^ 24} (pow_pos k)).1
          (omega (arith, three, t.below))
      where
        three : 256 ^ (k + 3) ≡ 2 ^ 24 * 256 ^ k
        three =
            let e : k + 3 ≡ suc (suc (suc k)) = omega arith in
            rw e (omega (arith, pow_suc (suc (suc k)), pow_suc (suc k), pow_suc k))

    top_least : 2 ^ 16 * 256 ^ k ≤ n
    top_least = omega (arith, t.least (suc (suc k)) (omega arith), pow_suc (suc k), pow_suc k)

    is_mantissa : mantissa n (k + 3) ≡ top
    unfolding top
    is_mantissa = elim (dec_lt 0 k) [
      | yes p ↦ let e : k + 3 - 3 ≡ k = omega arith in rw e (ground (arith, top_below))
      | no p ↦ let e : k ≡ 0 = omega arith in ground (arith, t.below, ap (λ (j : ℕ). 256 ^ j) e)
    ]

    value_low : decoded top (k + 3) ≡ cleared k n
    unfolding top
    value_low = elim (dec_lt 0 k) [
      | yes p ↦ let e : k + 3 - 3 ≡ k = omega arith in rw e (ground arith)
      | no p ↦ let e : k ≡ 0 = omega arith in ground (arith, ap (λ (j : ℕ). 256 ^ j) e)
    ]

    value_high : decoded (top / 256) (k + 3 + 1) ≡ cleared (suc k) n
    unfolding top
    value_high =
        let e : k + 3 + 1 - 3 ≡ suc k = omega arith in
        let shorter : n / 256 ^ k / 256 ≡ n / 256 ^ suc k =
          div-div-eq-div-mul n (256 ^ k) 256 ∙ ap (λ (j : ℕ). n / j) (omega (arith, pow_suc k)) in
        rw (e, shorter) (ground arith)

    large_number : Packed n
    large_number = elim (dec_lt top (2 ^ 23)) [
      | yes low ↦ record {
        word = top;
        size = k + 3;
        lost = k;
        packs = packs_low top (k + 3) es is_mantissa low (omega arith);
        word_fits = low;
        size_fits = omega arith;
        top_fits = λ p. absurd (omega arith);
        stands_for = value_low;
        precise = inr (omega (arith, top_least));
      }
      | no high ↦ record {
        word = top / 256;
        size = k + 3 + 1;
        lost = suc k;
        packs = packs_high top (k + 3) es is_mantissa (omega arith) top_below (omega arith);
        word_fits = omega (arith, top_below);
        size_fits = omega arith;
        top_fits = λ p. omega (arith, top_below);
        stands_for = value_high;
        precise = inr (
            unfold top in
            omega (
              arith,
              pow_suc k,
              (le-div_iff_mul-le {k = 256 ^ k} {x = 2 ^ 23} {y = n} (pow_pos k)).0 (omega arith),
            ));
      }
    ]

pub packed : (n : ℕ) → n < 2 ^ 256 → Packed n
packed n h =
    let (t, le) = logical_size-TakesBytes n h in
    elim (dec_lt (logical_size n) 3) [
      | yes p ↦ small_number n (logical_size n) refl t (omega arith)
      | no p ↦
          let e : logical_size n ≡ logical_size n - 3 + 3 = omega arith in
          large_number n (logical_size n - 3) e (subst (TakesBytes n) e t) (omega arith)
    ]
