-- ===== src/Protocol/Cut.antt =====
-- Texts that are cut to a limit.
use btcdemo.Prelude.{
  ℕ, zero, suc, ◌≤◌, ◌<◌, ◌≡◌, refl, ap, false, [], ◌∷◌, length, length-take, take, ltb-false,
  lt→ltb, dec_lt, Bool-cases, inl, inr, arith,
}
use btcdemo.Prelude.Bytes.{All}
use btcdemo.Prelude.Hash.{bytes_eq, bytes_eq_iff}
use btcdemo.Serialize.Text.{NotNul}
use btcdemo.Protocol.{Text, cut}

cut_long : (limit : ℕ) (text : Text) → limit < length text → cut limit text ≡ take limit text
unfolding cut
cut_long limit text h = rw (lt→ltb _ _ h) refl

pub cut_whole : (limit : ℕ) (text : Text) → length text ≤ limit → cut limit text ≡ text
unfolding cut
cut_whole limit text h = rw (ltb-false limit (length text) (λ k. omega (arith, h, k))) refl

pub cut-small : (limit : ℕ) (text : Text) → length (cut limit text) ≤ limit
cut-small limit text = elim (dec_lt limit (length text)) [
  | yes h ↦ rw (cut_long limit text h) (omega (arith, length-take limit text))
  | no h ↦ rw (cut_whole limit text (omega arith)) (omega arith)
]

pub cut-cut : (limit : ℕ) (text : Text) → cut limit (cut limit text) ≡ cut limit text
cut-cut limit text = cut_whole limit (cut limit text) (cut-small limit text)

take-NotNul : (limit : ℕ) (text : Text) → All NotNul text → All NotNul (take limit text)
take-NotNul zero text h = tt
take-NotNul (suc n) [] h = h
take-NotNul (suc n) (c ∷ text) (some_char, h) = (some_char, take-NotNul n text h)

pub cut-NotNul : (limit : ℕ) (text : Text) → All NotNul text → All NotNul (cut limit text)
cut-NotNul limit text h = elim (dec_lt limit (length text)) [
  | yes k ↦ rw (cut_long limit text k) (take-NotNul limit text h)
  | no k ↦ rw (cut_whole limit text (omega arith)) h
]

longer : (text word : Text) → length word < length text → bytes_eq text word ≡ false
longer text word h = elim (Bool-cases (bytes_eq text word)) [
  | inl e ↦ absurd (omega (arith, h, ap length ((bytes_eq_iff text word).0 e)))
  | inr e ↦ e
]

-- Cutting does not change whether a text is a given shorter word.
pub cut-eq :
    (limit : ℕ) (text word : Text)
    → length word < limit
    → bytes_eq (cut limit text) word ≡ bytes_eq text word
cut-eq limit text word h = elim (dec_lt limit (length text)) [
  | yes k ↦
      rw
        (
          cut_long limit text k,
          longer (take limit text) word (omega (arith, length-take limit text)),
          longer text word (omega arith),
        )
        refl
  | no k ↦ rw (cut_whole limit text (omega arith)) refl
]
