-- ===== src/BlockIndex/Status.antt =====
-- IsValid and RaiseValidity.
use btcdemo.Prelude.{
  ℕ, ◌+◌, ◌-◌, ◌*◌, ◌/◌, ◌%◌, ◌^◌, ◌≤◌, ◌<◌, ◌≡◌, ◌≢◌, refl, sym, ap, ◌∙◌, bit_and, bit_or, max,
  true, false, ltb, ◌==◌, none, some, arith, dec_lt, lt→ltb, ltb-false,
}
use btcdemo.Prelude.Bits.{bit_and_mask, bit_and_fields, bit_and-zero, bit_or_fields}
use btcdemo.BlockIndex.{BlockIndex, is_valid, raise_validity, block_valid_mask, block_failed_mask}

-- IsValid fails its assertion for every level of validity above kBlockValidUnknown, the default one
-- included.
pub is_valid_asserts :
    (level : ℕ) (b : BlockIndex) → 0 < level → level ≤ 5 → is_valid level b ≡ none
unfolding is_valid
is_valid_asserts level b pos small =
    let kept : bit_and level block_valid_mask ≡ level % 8 = bit_and_mask 3 level in
    let nonzero : (bit_and level block_valid_mask == 0) ≡ false = ground (arith, kept) in
    rw nonzero refl

module _ (level : ℕ) (b : BlockIndex) (small : level ≤ 5) (fits : b.status < 2 ^ 32) where
  allowed : bit_and level (2 ^ 32 - 1 - block_valid_mask) ≡ 0
  allowed =
      let fields = bit_and_fields 3 0 level (2 ^ 29 - 1) 0 (omega arith) (omega arith) in
      let none_high = bit_and_mask 29 0 in
      ap (λ (s : ℕ). bit_and s (2 ^ 32 - 1 - block_valid_mask)) {x = level} {y = 0 * 2 ^ 3 + level}
        (omega arith)
      ∙ fields
      ∙ omega (arith, none_high, bit_and-zero level)

  -- What RaiseValidity leaves of the status without its level.
  cleared : bit_and b.status (2 ^ 32 - 1 - block_valid_mask) ≡ b.status / 8 * 2 ^ 3
  cleared =
      let split : b.status / 8 * 2 ^ 3 + b.status % 8 ≡ b.status = omega arith in
      let fields =
        bit_and_fields 3 (b.status / 8) (b.status % 8) (2 ^ 29 - 1) 0 (omega arith) (omega arith) in
      let kept = bit_and_mask 29 (b.status / 8) in
      ap (λ (s : ℕ). bit_and s (2 ^ 32 - 1 - block_valid_mask)) (sym split)
      ∙ fields
      ∙ omega (arith, kept, bit_and-zero (b.status % 8))

  joined :
      bit_or level (bit_and b.status (2 ^ 32 - 1 - block_valid_mask)) ≡ level + b.status / 8 * 2 ^ 3
  joined = ap (bit_or level) cleared ∙ bit_or_fields 3 level (b.status / 8) (omega arith)

  -- For a level of validity and a block that has not failed, RaiseValidity passes its assertion, makes
  -- the level of the block the higher of the two, changes no other bit of the status, and returns
  -- whether the level rose; of a block that failed it returns false and leaves it as it is.
  pub raise_validity_lem :
      (bit_and b.status block_failed_mask ≡ 0
        → raise_validity level b
          ≡ some (
            ltb (b.status % 8) level,
            record b { status = max (b.status % 8) level + b.status / 8 * 2 ^ 3 },
          ))
      × (bit_and b.status block_failed_mask ≢ 0 → raise_validity level b ≡ some (false, b))
  unfolding raise_validity
  raise_validity_lem =
      let level_is : bit_and b.status block_valid_mask ≡ b.status % 8 = bit_and_mask 3 b.status in
      (
        λ sound.
            rw (raise_validity, allowed, sound, level_is, joined)
              (elim (dec_lt (b.status % 8) level) [
                | yes lower ↦ rw (lt→ltb (b.status % 8) level lower) (
                    ap (λ (s : ℕ). some (true, record b { status = s }))
                      {x = level + b.status / 8 * 2 ^ 3}
                      {y = max (b.status % 8) level + b.status / 8 * 2 ^ 3} (omega arith))
                | no higher ↦ rw (ltb-false (b.status % 8) level higher) (
                    ap (λ (s : ℕ). some (false, record b { status = s })) {x = b.status}
                      {y = max (b.status % 8) level + b.status / 8 * 2 ^ 3} (omega arith))
              ]),
        λ failed.
            let e : (bit_and b.status block_failed_mask == 0) ≡ false = ground arith in
            rw (raise_validity, allowed, e) refl,
      )
