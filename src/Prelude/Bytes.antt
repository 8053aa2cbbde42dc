-- ===== src/Prelude/Bytes.antt =====
-- Lists of bytes, powers of 256, and the shifts by whole bytes.
use Prim.Native.Nat.{ℕ, zero, suc, ◌+◌, ◌*◌, ◌%◌, ◌^◌, ◌≤◌, ◌<◌, bit_or}
use mathlib.Core.Path.{◌≡◌, refl}
use mathlib.Core.List.{List, [], ◌∷◌, ◌++◌}
use native.Mathlib.Nat.{pow-suc, pow-le-pow_right, mod-eq_of_lt, one-le-pow, mul-le-mul_right}
use native.Mathlib.Numerals.{towards_suc}
use native.Mathlib.Omega.{arith}
use btcdemo.Prelude.Lists.{drop}
use btcdemo.Prelude.Bits.{bit_or_fields}

abbrev pub IsByte : ℕ → Type 0
IsByte b = b < 256

abbrev pub All {ℓ κ} : {A : Type ℓ} → (A → Type κ) → List A → Type κ
All P [] = Unit
All P (x ∷ xs) = P x × All P xs

pub All-append {ℓ κ} :
    {A : Type ℓ} (P : A → Type κ) (xs ys : List A) → All P xs → All P ys → All P (xs ++ ys)
All-append P [] ys h k = k
All-append P (x ∷ xs) ys h k = (h.0, All-append P xs ys h.1 k)

pub All-map {ℓ κ ι} :
    {A : Type ℓ} {P : A → Type κ} {Q : A → Type ι} (xs : List A)
    → ((x : A) → P x → Q x)
    → All P xs
    → All Q xs
All-map [] f h = tt
All-map (x ∷ xs) f (p, h) = (f x p, All-map xs f h)

pub All-drop {ℓ κ} :
    {A : Type ℓ} (P : A → Type κ) (n : ℕ) (xs : List A) → All P xs → All P (drop n xs)
All-drop P zero xs h = h
All-drop P (suc n) [] h = h
All-drop P (suc n) (x ∷ xs) h = All-drop P n xs h.1

-- The number that bytes stand for, the lowest first.
abbrev pub value : List ℕ → ℕ
value [] = 0
value (b ∷ bs) = b + 256 * value bs

pub pow_suc : (i : ℕ) → 256 ^ suc i ≡ 256 * 256 ^ i
pow_suc i = omega (arith, pow-suc 256 i)

pub pow_pos : (i : ℕ) → 0 < 256 ^ i
pow_pos i = one-le-pow i 256 (omega arith)

pub pow_mono : {i j : ℕ} → i ≤ j → 256 ^ i ≤ 256 ^ j
pow_mono h = pow-le-pow_right (omega arith) h

pub byte-mul-le : (b p : ℕ) → b < 256 → b * p + p ≤ 256 * p
byte-mul-le b p h = let bound : suc b * p ≤ 256 * p = mul-le-mul_right p h in omega (arith, bound)

two_pow_add_eight : (k : ℕ) → 2 ^ (k + 8) ≡ 256 * 2 ^ k
two_pow_add_eight k = simp towards_suc (omega arith)

pub pow_eq : (i : ℕ) → 256 ^ i ≡ 2 ^ (8 * i)
pow_eq zero = refl
pow_eq (suc i) =
    let e : 8 * suc i ≡ 8 * i + 8 = omega arith in
    rw (e) (omega (arith, pow_suc i, pow_eq i, two_pow_add_eight (8 * i)))

-- `a | (q << 8 * i)` is a sum when `a` fits `i` bytes.
pub bit_or_bytes : (i a q : ℕ) → a < 256 ^ i → bit_or a (q * 256 ^ i) ≡ a + q * 256 ^ i
bit_or_bytes i a q h = rw (pow_eq i) (bit_or_fields (8 * i) a q (rw (pow_eq i) at h))

-- A byte shifted inside a word of `n` bytes is not cut.
pub byte_fits : (b : ℕ) {i n : ℕ} → b < 256 → i < n → b * 256 ^ i % 256 ^ n ≡ b * 256 ^ i
byte_fits b {i} {n} hb h = mod-eq_of_lt (
    omega (arith, pow_suc i, pow_pos i, byte-mul-le b (256 ^ i) hb, pow_mono {i = suc i} {j = n} h))
