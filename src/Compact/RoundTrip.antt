-- ===== src/Compact/RoundTrip.antt =====
-- A 256-bit number through the compact form and back.
use native.Mathlib.Nat.{div-mul-le_self}
use btcdemo.Prelude.{ℕ, ◌+◌, ◌*◌, ◌^◌, ◌≤◌, ◌<◌, ◌≡◌, refl, ◌∙◌, bit_and, false, some, ◌⊎◌, arith}
use btcdemo.Prelude.Bits.{bit_and_bit, bit_and_mask}
use btcdemo.Compact.{Compact, set_compact, get_compact, from_normal, fresh, compact_size}
use btcdemo.Compact.Encode.{Packed, packed, decoded, cleared}

-- The compact number of a mantissa below the sign bit and an exponent reads as what they stand for.
module _ (word size : ℕ) (fits : word < 2 ^ 23) where
  size_of : compact_size (word + size * 2 ^ 24) ≡ size
  size_of = omega arith

  word_bits : bit_and (word + size * 2 ^ 24) 0x007f_ffff ≡ word
  word_bits = bit_and_mask 23 (word + size * 2 ^ 24) ∙ omega arith

  no_sign : bit_and (word + size * 2 ^ 24) 0x0080_0000 ≡ 0
  no_sign = bit_and_bit 23 (word + size * 2 ^ 24) ∙ omega arith

  set_compact_normal :
      (c : Compact)
      → decoded word size < 2 ^ 256
      → (set_compact (word + size * 2 ^ 24) c).normal ≡ decoded word size
  unfolding set_compact
  set_compact_normal c h = rw (size_of, word_bits) (ground arith)

  set_compact_positive : (c : Compact) → (set_compact (word + size * 2 ^ 24) c).negative ≡ false
  unfolding set_compact
  set_compact_positive c = rw no_sign (ground arith)

  set_compact_in_range :
      (c : Compact)
      → size ≤ 33
      → (32 < size → word ≤ 0xffff)
      → (set_compact (word + size * 2 ^ 24) c).overflowed ≡ false
  unfolding set_compact
  set_compact_in_range c small top = rw (size_of, word_bits) (ground (arith, top))

-- What reading the compact form of `n` gives.
pub record Reads (n : ℕ) (c : Compact) : Type 0 where
  pub lost : ℕ
  pub encodes : (e : Compact) × (from_normal n ≡ some e) × (c ≡ set_compact e.compact fresh)
  pub normal_cleared : c.normal ≡ cleared lost n
  pub precise : (lost ≡ 0) ⊎ (2 ^ 15 * 256 ^ lost ≤ n)
  pub positive : c.negative ≡ false
  pub in_range : c.overflowed ≡ false

encoded :
    {n : ℕ} (p : Packed n)
    → from_normal n
      ≡ some (record {
        normal = n;
        compact = p.word + p.size * 2 ^ 24;
        negative = false;
        overflowed = false;
      })
unfolding from_normal get_compact
encoded p = rw (p.packs, get_compact)

-- Every 256-bit number has a compact form (no assertion fails), and reading it gives the number
-- with its low bytes cleared, not negative and not overflowed; bytes are cleared only from numbers
-- that keep fifteen significant bits or more.
pub from_normal-Reads : (n : ℕ) → n < 2 ^ 256 → (c : Compact) × Reads n c
from_normal-Reads n h =
    let p = packed n h in
    let bits = p.word + p.size * 2 ^ 24 in
    let small : decoded p.word p.size < 2 ^ 256 =
      omega (arith, p.stands_for, div-mul-le_self n (256 ^ p.lost)) in
    (
      set_compact bits fresh,
      record {
        lost = p.lost;
        encodes = (
          record { normal = n; compact = bits; negative = false; overflowed = false },
          encoded p,
          refl,
        );
        normal_cleared = set_compact_normal p.word p.size p.word_fits fresh small ∙ p.stands_for;
        precise = p.precise;
        positive = set_compact_positive p.word p.size p.word_fits fresh;
        in_range = set_compact_in_range p.word p.size p.word_fits fresh p.size_fits p.top_fits;
      },
    )
