-- ===== src/Compact/Size.antt =====
-- LogicalSize is the number of bytes of a 256-bit number.
use btcdemo.Prelude.{
  ℕ, zero, suc, ◌+◌, ◌/◌, ◌^◌, ◌≤◌, ◌<◌, ◌≡◌, refl, ◌∙◌, ◌==◌, Bool-cases, inl, inr, arith,
}
use btcdemo.Prelude.Bytes.{pow_suc}
use btcdemo.Compact.{logical_size_loop, logical_size}

-- `s` bytes are needed for `v`, and no fewer.
pub record TakesBytes (v s : ℕ) : Type 0 where
  pub below : v < 256 ^ s
  pub least : (t : ℕ) → s ≡ suc t → 256 ^ t ≤ v

power_at : (t s v : ℕ) → t ≡ s → 256 ^ s ≤ v → 256 ^ t ≤ v
power_at t s v e h = rw e h

TakesBytes-div : (v s : ℕ) → 0 < v → TakesBytes (v / 256) s → TakesBytes v (suc s)
TakesBytes-div v zero pos t = record {
  below = omega (arith, t.below);
  least = λ k e. power_at k 0 v (omega arith) (omega arith);
}
TakesBytes-div v (suc s) pos t = record {
  below = omega (arith, pow_suc (suc s), t.below);
  least = λ k e. power_at k (suc s) v (omega arith) (omega (arith, pow_suc s, t.least s refl));
}

loop-TakesBytes :
    (fuel v byte : ℕ)
    → v < 256 ^ fuel
    → (s : ℕ) × (logical_size_loop fuel v byte ≡ byte + s) × TakesBytes v s × (s ≤ fuel)
unfolding logical_size_loop
loop-TakesBytes zero v byte h =
    (0, omega arith, record { below = h; least = λ t e. absurd (omega arith) }, omega arith)
loop-TakesBytes (suc fuel) v byte h = elim (Bool-cases (v == 0)) [
  | inl done ↦ (
    0,
    rw done (omega arith),
    record { below = ground arith; least = λ t e. absurd (omega arith) },
    omega arith,
  )
  | inr more ↦
      let (s, e, t, le) = loop-TakesBytes fuel (v / 256) (byte + 1) (omega (arith, pow_suc fuel)) in
      (suc s, rw more (e ∙ omega arith), TakesBytes-div v s (ground arith) t, omega arith)
]

-- 32 rounds are enough for a 256-bit number.
pub logical_size-TakesBytes :
    (v : ℕ) → v < 2 ^ 256 → TakesBytes v (logical_size v) × (logical_size v ≤ 32)
unfolding logical_size
logical_size-TakesBytes v h =
    let (s, e, t, le) = loop-TakesBytes 32 v 0 (omega arith) in
    let same : logical_size v ≡ s = e ∙ omega arith in rw same (t, le)
