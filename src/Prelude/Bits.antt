-- ===== src/Prelude/Bits.antt =====
-- `|`, `&` and the low masks as arithmetic, at every width.
use Prim.Native.Nat.{
  ℕ, zero, suc, ◌+◌, ◌-◌, ◌*◌, ◌/◌, ◌%◌, ◌^◌, ◌≤◌, ◌<◌, min, max, bit_and, bit_or, digits,
  bit_and-bitwise, bit_or-bitwise,
}
use mathlib.Core.Path.{◌≡◌, refl, ap, ◌∙◌}
use mathlib.Core.WellFounded
use native.Mathlib.Decide.{dec_le}
use native.Mathlib.Nat.{pow-suc, one-le-pow, mod-lt, div-add-mod'}
use native.Mathlib.Omega.{arith}
use btcdemo.Prelude.Order.{lt_wf}

-- The native operations walk the binary digits of the first number, on fuel: more than the number
-- itself changes nothing.
module _ (rest : ℕ → ℕ) (join : ℕ → ℕ → ℕ) where
  one_more : (n x y : ℕ) → x ≤ n → digits rest join (suc n) x y ≡ digits rest join n x y
  one_more zero zero y h = refl
  one_more zero (suc x) y h = absurd (omega arith)
  one_more (suc n) zero y h = refl
  one_more (suc n) (suc x) y h = rw (one_more n (suc x / 2) (y / 2) (omega arith))

  settled : (n x y : ℕ) → x ≤ n → digits rest join n x y ≡ digits rest join x x y
  settled zero zero y h = refl
  settled zero (suc x) y h = absurd (omega arith)
  settled (suc n) x y h = elim (dec_le x n) [
    | yes below ↦ one_more n x y below ∙ settled n x y below
    | no above ↦ ap (λ (k : ℕ). digits rest join k x y) {x = suc n} {y = x} (omega arith)
  ]

pub bit_and_lowest : (x y : ℕ) → bit_and x y ≡ bit_and (x / 2) (y / 2) * 2 + min (x % 2) (y % 2)
bit_and_lowest zero y = omega (arith, bit_and-bitwise 0 y, bit_and-bitwise 0 (y / 2))
bit_and_lowest (suc x) y =
    let half = settled (λ b. 0) min x (suc x / 2) (y / 2) (omega arith) in
    omega (arith, half, bit_and-bitwise (suc x) y, bit_and-bitwise (suc x / 2) (y / 2))

pub bit_or_lowest : (x y : ℕ) → bit_or x y ≡ bit_or (x / 2) (y / 2) * 2 + max (x % 2) (y % 2)
bit_or_lowest zero y = omega (arith, bit_or-bitwise 0 y, bit_or-bitwise 0 (y / 2))
bit_or_lowest (suc x) y =
    let half = settled (λ b. b) max x (suc x / 2) (y / 2) (omega arith) in
    omega (arith, half, bit_or-bitwise (suc x) y, bit_or-bitwise (suc x / 2) (y / 2))

pub zero-bit_or : (y : ℕ) → bit_or 0 y ≡ y
zero-bit_or y = bit_or-bitwise 0 y

abbrev AtMostMask : ℕ → Type 0
AtMostMask x = (y : ℕ) → bit_and x y ≤ y

bit_and-le_step : (x : ℕ) → ((m : ℕ) → m < x → AtMostMask m) → AtMostMask x
bit_and-le_step zero ih y = omega (arith, bit_and-bitwise 0 y)
bit_and-le_step (suc x) ih y =
    omega (arith, bit_and_lowest (suc x) y, ih (suc x / 2) (omega arith) (y / 2))

-- `&` gives no more than either side.
pub bit_and-le : (x y : ℕ) → bit_and x y ≤ y
bit_and-le x = WellFounded.induction lt_wf {C = AtMostMask} x bit_and-le_step

pub bit_and-zero : (x : ℕ) → bit_and x 0 ≡ 0
bit_and-zero x = omega (arith, bit_and-le x 0)

two_powers : (q k : ℕ) → q * 2 ^ suc k ≡ 2 * (q * 2 ^ k)
two_powers q k = omega (arith, ap (λ (p : ℕ). q * p) (pow-suc 2 k))

halved : (x y : ℕ) → x ≡ 2 * y → x / 2 ≡ y
halved x y e = omega arith

-- `low | (high << k)` is a sum when `low` fits `k` bits.
pub bit_or_fields : (k low high : ℕ) → low < 2 ^ k → bit_or low (high * 2 ^ k) ≡ low + high * 2 ^ k
bit_or_fields zero low high fits =
    let nothing : low ≡ 0 = omega arith in
    omega (arith, ap (λ (x : ℕ). bit_or x (high * 1)) nothing, zero-bit_or (high * 1))
bit_or_fields (suc k) low high fits =
    let shifted = two_powers high k in
    let below = bit_or_fields k (low / 2) high (omega (arith, pow-suc 2 k)) in
    omega (
      arith,
      shifted,
      below,
      pow-suc 2 k,
      bit_or_lowest low (high * 2 ^ suc k),
      ap (λ (x : ℕ). bit_or (low / 2) x) (halved (high * 2 ^ suc k) (high * 2 ^ k) shifted),
    )

-- The mask of `k` ones keeps the field below `k`.
low_field : (k high low : ℕ) → low < 2 ^ k → bit_and (high * 2 ^ k + low) (2 ^ k - 1) ≡ low
low_field zero high low fits = omega (arith, bit_and-zero (high * 1 + low))
low_field (suc k) high low fits =
    let below = low_field k high (low / 2) (omega (arith, pow-suc 2 k)) in
    ground (
      arith,
      below,
      two_powers high k,
      pow-suc 2 k,
      one-le-pow k 2,
      bit_and_lowest (high * 2 ^ suc k + low) (2 ^ suc k - 1),
    )

-- It is the remainder by `2 ^ k`.
pub bit_and_mask : (k x : ℕ) → bit_and x (2 ^ k - 1) ≡ x % 2 ^ k
bit_and_mask k x = ground (arith, one-le-pow k 2, low_field k (x / 2 ^ k) (x % 2 ^ k))

-- `&` goes field by field.
pub bit_and_fields :
    (k h l h' l' : ℕ)
    → l < 2 ^ k
    → l' < 2 ^ k
    → bit_and (h * 2 ^ k + l) (h' * 2 ^ k + l') ≡ bit_and h h' * 2 ^ k + bit_and l l'
bit_and_fields zero h l h' l' fits fits' =
    let e : h * 1 + l ≡ h = omega arith in
    let e' : h' * 1 + l' ≡ h' = omega arith in
    let f : l' ≡ 0 = omega arith in rw (e, e', f) (omega (arith, bit_and-zero l))
bit_and_fields (suc k) h l h' l' fits fits' =
    let x = h * 2 ^ suc k + l in
    let y = h' * 2 ^ suc k + l' in
    let d : x / 2 ≡ h * 2 ^ k + l / 2 = omega (arith, two_powers h k) in
    let d' : y / 2 ≡ h' * 2 ^ k + l' / 2 = omega (arith, two_powers h' k) in
    let below =
      bit_and_fields k h (l / 2) h' (l' / 2) (omega (arith, pow-suc 2 k))
        (omega (arith, pow-suc 2 k)) in
    let m : x % 2 ≡ l % 2 = omega (arith, two_powers h k) in
    let m' : y % 2 ≡ l' % 2 = omega (arith, two_powers h' k) in
    bit_and_lowest x y
    ∙ rw (d, d', m, m', below) (omega (arith, bit_and_lowest l l', two_powers (bit_and h h') k))

-- One bit, and a mask above the number.
pub bit_and_bit : (k x : ℕ) → bit_and x (2 ^ k) ≡ x / 2 ^ k % 2 * 2 ^ k
bit_and_bit k x =
    let pos = one-le-pow k 2 (omega arith) in
    let whole : x / 2 ^ k * 2 ^ k + x % 2 ^ k ≡ x = div-add-mod' x (2 ^ k) in
    let bit : 1 * 2 ^ k + 0 ≡ 2 ^ k = omega arith in
    let split = bit_and_fields k (x / 2 ^ k) (x % 2 ^ k) 1 0 (mod-lt x pos) pos in
    let parts = rw (whole, bit) at split in
    omega (
      arith,
      parts,
      bit_and-zero (x % 2 ^ k),
      ap (λ (t : ℕ). t * 2 ^ k) (bit_and_mask 1 (x / 2 ^ k)),
    )

pub bit_and_above : (k x h : ℕ) → x < 2 ^ k → bit_and x (h * 2 ^ k) ≡ 0
bit_and_above k x h fits =
    let pos = one-le-pow k 2 (omega arith) in
    let split = bit_and_fields k 0 x h 0 fits pos in
    let left : 0 * 2 ^ k + x ≡ x = omega arith in
    let right : h * 2 ^ k + 0 ≡ h * 2 ^ k = omega arith in
    let parts = rw (left, right) at split in
    omega (
      arith,
      parts,
      bit_and-zero x,
      bit_and-bitwise 0 h,
      ap (λ (t : ℕ). t * 2 ^ k) (bit_and-bitwise 0 h),
    )
