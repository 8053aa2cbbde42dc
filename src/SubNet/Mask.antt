-- ===== src/SubNet/Mask.antt =====
-- The masks that the loops of the SubNet constructors leave, byte by byte.
use native.Mathlib.Nat.{mul-div_cancel, one-le-pow}
use btcdemo.Prelude.{
  ℕ, zero, suc, ◌+◌, ◌-◌, ◌*◌, ◌/◌, ◌^◌, ◌≤◌, ◌<◌, ◌≡◌, ◌↔◌, refl, sym, ap, ◌∙◌, Bool, true, false,
  ◌&&◌, List, length, replicate, set, get_or, get_or-set_self, get_or-set_ne, length-set, min, ◌==◌,
  ==_iff, bit_and, ℕ_discrete, arith,
}
use btcdemo.NetAddr.{NetAddr, get_byte, set_byte}
use btcdemo.SubNet.{clear_bits, normalize}

-- A test of the numbers below a bound.
all_below : ℕ → (ℕ → Bool) → Bool
all_below zero test = true
all_below (suc n) test = test n && all_below n test

all_below-at : (n k : ℕ) (test : ℕ → Bool) → all_below n test ≡ true → k < n → test k ≡ true
unfolding all_below
all_below-at zero k test h less = absurd (omega arith)
all_below-at (suc n) k test h less = elim (ℕ_discrete k n) [
  | yes e ↦ ap test e ∙ (both (test n) (all_below n test) h).0
  | no e ↦ all_below-at n k test ((both (test n) (all_below n test) h).1) (omega arith)
]
  where
    both : (p q : Bool) → p && q ≡ true → (p ≡ true) × (q ≡ true)
    both true q h = (refl, h)
    both false q h = cc

-- How many bits of byte `i` are below bit `n`.
pub free_bits : ℕ → ℕ → ℕ
free_bits n i = 8 - min 8 (n - 8 * i)

pub free_bits-le : (n i : ℕ) → free_bits n i ≤ 8
unfolding free_bits
free_bits-le n i = omega arith

mask_test : ℕ → ℕ → Bool
unfolding free_bits clear_bits
mask_test n i = get_or (clear_bits (128 - n) n (replicate 16 255)) i 0 == 256 - 2 ^ free_bits n i

masks_checked : all_below 129 (λ n. all_below 16 (mask_test n)) ≡ true
unfolding all_below mask_test clear_bits free_bits
masks_checked = refl

-- The loop that clears the bits from `n` on leaves the ones above.
pub clear_bits-prefix :
    (n i : ℕ)
    → n ≤ 128
    → i < 16
    → get_or (clear_bits (128 - n) n (replicate 16 255)) i 0 ≡ 256 - 2 ^ free_bits n i
unfolding mask_test
clear_bits-prefix n i small inside = (==_iff _ _).0 (
    all_below-at 16 i (mask_test n)
      (all_below-at 129 n (λ n. all_below 16 (mask_test n)) masks_checked (omega arith)) inside)

and_test : ℕ → ℕ → Bool
and_test x j = bit_and x (256 - 2 ^ j) == x / 2 ^ j * 2 ^ j

ands_checked : all_below 256 (λ x. all_below 9 (and_test x)) ≡ true
unfolding all_below and_test
ands_checked = refl

and_high : (x j : ℕ) → x < 256 → j ≤ 8 → bit_and x (256 - 2 ^ j) ≡ x / 2 ^ j * 2 ^ j
unfolding and_test
and_high x j small inside = (==_iff _ _).0 (
    all_below-at 9 j (and_test x)
      (all_below-at 256 x (λ x. all_below 9 (and_test x)) ands_checked small) (omega arith))

-- Two bytes agree under the mask of their high bits exactly if these agree.
pub same_high :
    (x y j : ℕ)
    → x < 256
    → y < 256
    → j ≤ 8
    → (bit_and x (256 - 2 ^ j) ≡ bit_and y (256 - 2 ^ j)) ↔ (x / 2 ^ j ≡ y / 2 ^ j)
same_high x y j hx hy hj =
    let pos = one-le-pow j 2 (omega arith) in
    rw (and_high x j hx hj, and_high y j hy hj)
      (
        λ e.
            sym (mul-div_cancel (x / 2 ^ j) pos)
            ∙ ap (λ (t : ℕ). t / 2 ^ j) e
            ∙ mul-div_cancel (y / 2 ^ j) pos,
        λ e. ap (λ (t : ℕ). t * 2 ^ j) e,
      )

-- Normalizing leaves the bytes before its start.
normalize_before :
    (rounds x i : ℕ) (netmask : List ℕ) (a : NetAddr)
    → i < x
    → get_byte (normalize rounds x netmask a) i ≡ get_byte a i
unfolding normalize get_byte set_byte
normalize_before zero x i netmask a h = refl
normalize_before (suc rounds) x i netmask a h =
    normalize_before rounds (suc x) i netmask _ (omega arith)
    ∙ get_or-set_ne a.ip _ 0 (λ e. absurd (omega (arith, e)))

-- It puts the mask over each byte from there on.
normalize_inside :
    (rounds x i : ℕ) (netmask : List ℕ) (a : NetAddr)
    → x ≤ i
    → i < x + rounds
    → i < length a.ip
    → get_byte (normalize rounds x netmask a) i ≡ bit_and (get_byte a i) (get_or netmask i 0)
unfolding normalize get_byte set_byte
normalize_inside zero x i netmask a h k size = absurd (omega arith)
normalize_inside (suc rounds) x i netmask a h k size = elim (ℕ_discrete x i) [
  | yes e ↦
      normalize_before rounds (suc x) i netmask _ (omega arith)
      ∙ ap (λ (j : ℕ). get_or (set a.ip j (bit_and (get_or a.ip j 0) (get_or netmask j 0))) i 0) e
      ∙ get_or-set_self a.ip i _ 0 size
  | no e ↦
      normalize_inside rounds (suc x) i netmask _ (omega arith) (omega arith)
        (rw (length-set a.ip x (bit_and (get_or a.ip x 0) (get_or netmask x 0))) size)
      ∙ ap (λ (t : ℕ). bit_and t (get_or netmask i 0)) (get_or-set_ne a.ip _ 0 e)
]

pub normalize-byte :
    (i : ℕ) (netmask : List ℕ) (a : NetAddr)
    → length a.ip ≡ 16
    → i < 16
    → get_byte (normalize 16 0 netmask a) i ≡ bit_and (get_byte a i) (get_or netmask i 0)
normalize-byte i netmask a size h =
    normalize_inside 16 0 i netmask a (omega arith) (omega arith) (omega (arith, size))
