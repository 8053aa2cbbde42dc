-- ===== src/Endian/RoundTrip.antt =====
-- Writing a word and reading it back, in both byte orders.
use mathlib.Core.List.{reverse, reverse-cons, append_assoc}
use native.Mathlib.Nat.{mod-eq_of_lt}
use btcdemo.Prelude.{
  ℕ, zero, suc, ◌+◌, ◌*◌, ◌/◌, ◌%◌, ◌^◌, ◌≤◌, ◌<◌, ◌≡◌, refl, ap, ◌∙◌, List, [], ◌∷◌, ◌++◌, length,
  length-append, arith,
}
use btcdemo.Prelude.Bytes.{
  IsByte, All, All-append, value, pow_suc, pow_mono, byte-mul-le, bit_or_bytes, byte_fits,
}
use btcdemo.Endian.{
  to_little_endian, big_loop, to_big_endian, from_little_loop, from_little_endian, from_big_loop,
  from_big_endian,
}

pub length-to_little_endian : (n v : ℕ) → length (to_little_endian n v) ≡ n
unfolding to_little_endian
length-to_little_endian zero v = refl
length-to_little_endian (suc n) v = ap suc (length-to_little_endian n (v / 256))

pub to_little_endian-All : (n v : ℕ) → All IsByte (to_little_endian n v)
unfolding to_little_endian
to_little_endian-All zero v = tt
to_little_endian-All (suc n) v = (omega arith, to_little_endian-All n (v / 256))

pub value-to_little_endian : (n v : ℕ) → v < 256 ^ n → value (to_little_endian n v) ≡ v
unfolding to_little_endian
value-to_little_endian zero v h = omega arith
value-to_little_endian (suc n) v h =
    omega (arith, pow_suc n, value-to_little_endian n (v / 256) (omega (arith, pow_suc n)))

pub value-lt : (bs : List ℕ) → All IsByte bs → value bs < 256 ^ length bs
value-lt [] h = omega arith
value-lt (b ∷ bs) h = omega (arith, pow_suc (length bs), value-lt bs h.1)

-- With the bytes below `i` read into `out`, the loop adds the rest in their places.
from_little_loop-eq :
    (size : ℕ) (bs : List ℕ) (i out : ℕ)
    → All IsByte bs
    → i + length bs ≤ size
    → out < 256 ^ i
    → from_little_loop size bs i out ≡ out + value bs * 256 ^ i
unfolding from_little_loop
from_little_loop-eq size [] i out hb hs ho = omega arith
from_little_loop-eq size (b ∷ bs) i out (hb, hbs) hs ho =
    let cut = byte_fits b {i = i} {n = size} hb (omega arith) in
    let e = bit_or_bytes i out b ho in
    let next : i + 1 ≡ suc i = omega arith in
    rw (cut, e, next)
      (from_little_loop-eq size bs (suc i) (out + b * 256 ^ i) hbs (omega arith)
          (omega (arith, pow_suc i, byte-mul-le b (256 ^ i) hb))
        ∙ omega (arith, ap (λ (t : ℕ). value bs * t) (pow_suc i)))

pub from_little_endian-value :
    (size : ℕ) (bs : List ℕ)
    → All IsByte bs
    → length bs ≤ size
    → from_little_endian size bs ≡ value bs
unfolding from_little_endian
from_little_endian-value size bs hb hs =
    from_little_loop-eq size bs 0 0 hb (omega arith) (omega arith) ∙ omega arith

-- Reading the bytes of a word gives the word back, for every size.
pub from_little-to_little :
    (size v : ℕ) → v < 256 ^ size → from_little_endian size (to_little_endian size v) ≡ v
from_little-to_little size v h =
    from_little_endian-value size _ (to_little_endian-All size v)
      (omega (arith, length-to_little_endian size v))
    ∙ value-to_little_endian size v h

to_little_endian-value :
    (bs : List ℕ) → All IsByte bs → to_little_endian (length bs) (value bs) ≡ bs
unfolding to_little_endian
to_little_endian-value [] h = refl
to_little_endian-value (b ∷ bs) h =
    let low : (b + 256 * value bs) % 256 ≡ b = omega arith in
    let high : (b + 256 * value bs) / 256 ≡ value bs = omega arith in
    rw (low, high) (ap (◌∷◌ b) (to_little_endian-value bs h.1))

-- Writing the word that bytes were read to gives the bytes back.
pub to_little-from_little :
    (bs : List ℕ)
    → All IsByte bs
    → to_little_endian (length bs) (from_little_endian (length bs) bs) ≡ bs
to_little-from_little bs h =
    rw (from_little_endian-value (length bs) bs h (omega arith)) (to_little_endian-value bs h)

big_loop-eq :
    (n v : ℕ) (above : List ℕ) → big_loop n v above ≡ reverse (to_little_endian n v) ++ above
unfolding big_loop to_little_endian
big_loop-eq zero v above = refl
big_loop-eq (suc n) v above =
    big_loop-eq n (v / 256) (v % 256 ∷ above) ∙ rw (reverse-cons, append_assoc)

append-nil_lem : (xs : List ℕ) → xs ++ [] ≡ xs
append-nil_lem [] = refl
append-nil_lem (x ∷ xs) = ap (◌∷◌ x) (append-nil_lem xs)

-- The two byte orders are each other's reverse.
pub to_big_endian-reverse : (n v : ℕ) → to_big_endian n v ≡ reverse (to_little_endian n v)
unfolding to_big_endian
to_big_endian-reverse n v = big_loop-eq n v [] ∙ append-nil_lem _

-- The number that bytes stand for, the highest first, after `out`.
abbrev big_value : ℕ → List ℕ → ℕ
big_value out [] = out
big_value out (b ∷ bs) = big_value (out * 256 + b) bs

from_big_loop-eq :
    (size : ℕ) (bs : List ℕ) (k out : ℕ)
    → All IsByte bs
    → k + length bs ≤ size
    → out < 256 ^ k
    → from_big_loop size bs out ≡ big_value out bs
unfolding from_big_loop
from_big_loop-eq size [] k out hb hs ho = refl
from_big_loop-eq size (b ∷ bs) k out (hb, hbs) hs ho =
    let small : out * 256 < 256 ^ size =
      omega (arith, pow_suc k, pow_mono {i = suc k} {j = size} (omega arith)) in
    let cut = mod-eq_of_lt small in
    let joined = bit_or_bytes 1 b out hb in
    rw (cut, joined)
      (from_big_loop-eq size bs (suc k) (b + out * 256) hbs (omega arith) (omega (arith, pow_suc k))
        ∙ ap (λ (t : ℕ). big_value t bs) (omega arith))

big_value-append :
    (out : ℕ) (xs : List ℕ) (b : ℕ) → big_value out (xs ++ b ∷ []) ≡ big_value out xs * 256 + b
big_value-append out [] b = refl
big_value-append out (x ∷ xs) b = big_value-append (out * 256 + x) xs b

big_value-reverse : (bs : List ℕ) → big_value 0 (reverse bs) ≡ value bs
big_value-reverse [] = refl
big_value-reverse (b ∷ bs) =
    rw (reverse-cons, big_value-append) (omega (arith, big_value-reverse bs))

reverse-All : (bs : List ℕ) → All IsByte bs → All IsByte (reverse bs)
reverse-All [] h = tt
reverse-All (b ∷ bs) h = rw reverse-cons (All-append IsByte _ _ (reverse-All bs h.1) (h.0, tt))

length-reverse_lem : (bs : List ℕ) → length (reverse bs) ≡ length bs
length-reverse_lem [] = refl
length-reverse_lem (b ∷ bs) =
    rw reverse-cons (omega (arith, length-append (reverse bs) (b ∷ []), length-reverse_lem bs))

-- The same for the big-endian order.
pub from_big-to_big :
    (size v : ℕ) → v < 256 ^ size → from_big_endian size (to_big_endian size v) ≡ v
unfolding from_big_endian
from_big-to_big size v h = rw (to_big_endian-reverse size v) (
    from_big_loop-eq size (reverse (to_little_endian size v)) 0 0
      (reverse-All _ (to_little_endian-All size v))
      (omega (arith, length-reverse_lem (to_little_endian size v), length-to_little_endian size v))
      (omega arith)
    ∙ big_value-reverse (to_little_endian size v)
    ∙ value-to_little_endian size v h)
