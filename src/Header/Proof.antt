-- ===== src/Header/Proof.antt =====
-- GetBlockProof is the expected number of hashes, 2 ^ 256 / (target + 1).
use native.Mathlib.Nat.{div-eq-sub-div, div-le_self, div-lt_self, mod-eq_of_lt}
use btcdemo.Prelude.{
  ℕ, suc, ◌+◌, ◌-◌, ◌*◌, ◌/◌, ◌%◌, ◌^◌, ◌<◌, ◌≡◌, ◌≢◌, refl, sym, ap, ◌∙◌, bit_and, false, some,
  arith, dec_lt, ℕ_discrete, Bool-cases, inl, inr,
}
use btcdemo.Prelude.Bits.{bit_and_mask}
use btcdemo.Prelude.Bytes.{pow_suc}
use btcdemo.Compact.{
  Compact, set_compact, get_compact, from_compact, fresh, compact_word, compact_size,
}
use btcdemo.Compact.Encode.{packed}
use btcdemo.Header.{BlockHeader, get_block_proof, proof_of}

shifted_not_max : (word j : ℕ) → word * 256 ^ suc j % 2 ^ 256 + 1 < 2 ^ 256
shifted_not_max word j =
    let e : word * 256 ^ suc j ≡ 256 * (word * 256 ^ j) =
      omega (arith, ap (λ (p : ℕ). word * p) (pow_suc j)) in
    rw e (omega arith)

word_small : (compact : ℕ) → bit_and compact 0x007f_ffff < 2 ^ 23
word_small compact = omega (arith, bit_and_mask 23 compact)

-- No target is the largest number, so the divisor is not zero.
target_not_max : (compact : ℕ) → (set_compact compact fresh).normal + 1 < 2 ^ 256
unfolding set_compact
target_not_max compact = elim (dec_lt 3 (compact_size compact)) [
  | yes p ↦
      let e : compact_size compact - 3 ≡ suc (compact_size compact - 4) = omega arith in
      ground (
        arith,
        ap (λ (j : ℕ). compact_word compact * 256 ^ j % 2 ^ 256) e,
        shifted_not_max (compact_word compact) (compact_size compact - 4),
      )
  | no p ↦ ground (
    arith,
    word_small compact,
    div-le_self (bit_and compact 0x007f_ffff) (256 ^ (3 - compact_size compact)),
  )
]

encodes :
    (compact : ℕ)
    → (c : Compact) × (from_compact compact ≡ some c)
      × (c.normal ≡ (set_compact compact fresh).normal)
      × (c.negative ≡ (set_compact compact fresh).negative)
      × (c.overflowed ≡ (set_compact compact fresh).overflowed)
unfolding from_compact get_compact
encodes compact =
    let t = set_compact compact fresh in
    let p = packed t.normal (omega (arith, target_not_max compact)) in
    (record t { compact = p.word + p.size * 2 ^ 24 }, rw (p.packs, get_compact), refl, refl, refl)

-- ~target / (target + 1) + 1 is 2 ^ 256 / (target + 1).
expected_hashes :
    (target : ℕ)
    → target + 1 < 2 ^ 256
    → target ≢ 0
    → ((2 ^ 256 - 1 - target) / ((target + 1) % 2 ^ 256) + 1) % 2 ^ 256 ≡ 2 ^ 256 / (target + 1)
expected_hashes target h k =
    let fits : (target + 1) % 2 ^ 256 ≡ target + 1 = mod-eq_of_lt h in
    let whole : 2 ^ 256 / (target + 1) ≡ (2 ^ 256 - (target + 1)) / (target + 1) + 1 =
      div-eq-sub-div {m = target + 1} {n = 2 ^ 256} (omega arith) (omega arith) in
    let less : 2 ^ 256 / (target + 1) < 2 ^ 256 =
      div-lt_self {n = 2 ^ 256} {k = target + 1} (omega arith) (omega arith) in
    let apart : 2 ^ 256 - 1 - target ≡ 2 ^ 256 - (target + 1) = omega arith in
    rw (fits, apart) (ap (λ (n : ℕ). n % 2 ^ 256) (sym whole) ∙ mod-eq_of_lt less)

-- The target of a header: its sign, its range and its value decide the proof.
abbrev pub IsHard : Compact → Type 0
IsHard target = (target.negative ≡ false) × (target.overflowed ≡ false) × (target.normal ≢ 0)

proof_of_hard :
    (c : Compact) → IsHard c → c.normal + 1 < 2 ^ 256 → proof_of c ≡ 2 ^ 256 / (c.normal + 1)
unfolding proof_of
proof_of_hard c (positive, in_range, nonzero) small =
    rw (positive, in_range) (ground (arith, expected_hashes c.normal small nonzero))

proof_of_easy : (c : Compact) → ¬ IsHard c → proof_of c ≡ 0
unfolding proof_of
proof_of_easy c easy = elim (Bool-cases c.negative) [
  | inl e ↦ rw e refl
  | inr positive ↦ elim (Bool-cases c.overflowed) [
    | inl e ↦ rw (positive, e) refl
    | inr in_range ↦ elim (ℕ_discrete c.normal 0) [
      | yes e ↦ rw (positive, in_range, e) refl
      | no nonzero ↦ absurd (easy (positive, in_range, nonzero))
    ]
  ]
]

-- GetBlockProof returns for every header: 2 ^ 256 / (target + 1) for the target that SetCompact
-- reads from the header's bits, if it is positive and in range, and 0 if it is negative, overflowed
-- or zero.
pub get_block_proof_lem :
    (h : BlockHeader)
    → let target = set_compact h.bits fresh in
      (IsHard target → get_block_proof h ≡ some (2 ^ 256 / (target.normal + 1)))
      × (¬ IsHard target → get_block_proof h ≡ some 0)
unfolding get_block_proof
get_block_proof_lem h =
    let (c, e, n, negative, overflowed) = encodes h.bits in
    let small : c.normal + 1 < 2 ^ 256 = omega (arith, target_not_max h.bits, n) in
    (
      λ (positive, in_range, nonzero).
          rw (e, get_block_proof)
            (ap some (
              proof_of_hard c (negative ∙ positive, overflowed ∙ in_range, λ z. nonzero (sym n ∙ z))
                small
              ∙ ap (λ (t : ℕ). 2 ^ 256 / (t + 1)) n)),
      λ easy.
          rw (e, get_block_proof)
            (ap some (
              proof_of_easy c (λ (positive, in_range, nonzero).
                easy (sym negative ∙ positive, sym overflowed ∙ in_range, λ z. nonzero (n ∙ z))))),
    )

pub get_block_proof-some : (h : BlockHeader) → (proof : ℕ) × (get_block_proof h ≡ some proof)
unfolding get_block_proof
get_block_proof-some h =
    let (c, e, n, negative, overflowed) = encodes h.bits in
    (proof_of c, rw (e, get_block_proof) refl)
