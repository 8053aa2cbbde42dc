-- ===== src/SubNet/Match.antt =====
-- What SubNet::Match answers for the subnets that the constructors make.
use btcdemo.Prelude.{
  ℕ, zero, suc, ◌+◌, ◌-◌, ◌*◌, ◌/◌, ◌^◌, ◌≤◌, ◌<◌, ◌≡◌, ◌↔◌, refl, ◌∙◌, Bool, true, false, not,
  List, [], ◌∷◌, get_or, replicate, ==_iff, bit_and, le→leb, leb, subst, ℕ_discrete, arith,
  if◌then◌else◌,
}
use btcdemo.Prelude.Bytes.{IsByte, All}
use btcdemo.NetAddr.{NetAddr, IsIp, get_byte}
use btcdemo.NetAddr.Category.{is_valid}
use btcdemo.SubNet.{SubNet, clear_bits, start_of, of_prefix, match_from, match}
use btcdemo.SubNet.Mask.{free_bits, free_bits-le, clear_bits-prefix, same_high, normalize-byte}

-- The first `n` bits of two addresses are the same.
pub SameBits : ℕ → NetAddr → NetAddr → Type 0
SameBits n a b =
    (i : ℕ) → i < 16 → get_byte b i / 2 ^ free_bits n i ≡ get_byte a i / 2 ^ free_bits n i

abbrev Matches : SubNet → NetAddr → ℕ → Type 0
Matches s addr i = bit_and (get_byte addr i) (get_or s.netmask i 0) ≡ get_byte s.net_addr i

match_from_iff :
    (rounds x : ℕ) (s : SubNet) (addr : NetAddr)
    → (match_from rounds x s addr ≡ true) ↔ ((i : ℕ) → x ≤ i → i < x + rounds → Matches s addr i)
unfolding match_from
match_from_iff zero x s addr = ((λ _ i h k. absurd (omega arith)), (λ _. refl))
match_from_iff (suc rounds) x s addr =
    let (there, back) = match_from_iff rounds (suc x) s addr in
    let (same, equal) =
      ==_iff (bit_and (get_byte addr x) (get_or s.netmask x 0)) (get_byte s.net_addr x) in
    (
      λ e i h k.
          let (head, tail) = passed _ _ e in
          elim (ℕ_discrete x i) [
            | yes z ↦ subst (Matches s addr) z (same head)
            | no z ↦ there tail i (omega arith) (omega arith)
          ],
      λ all.
          rw
            (
              equal (all x (omega arith) (omega arith)),
              back (λ i h k. all i (omega arith) (omega arith)),
            )
            refl,
    )
  where
    passed : (p q : Bool) → (if not p then false else q) ≡ true → (p ≡ true) × (q ≡ true)
    passed true q e = (refl, e)
    passed false q e = cc

start_small : (a : NetAddr) → start_of a ≤ 12
unfolding start_of
start_small a = ground arith

get_byte-lt : (a : NetAddr) (i : ℕ) → IsIp a.ip → get_byte a i < 256
unfolding get_byte
get_byte-lt a i h = element a.ip i h.bytes
  where
    element : (xs : List ℕ) (i : ℕ) → All IsByte xs → get_or xs i 0 < 256
    element [] i h = omega arith
    element (x ∷ xs) zero h = h.0
    element (x ∷ xs) (suc i) h = element xs i h.1

leb-false : (a b : ℕ) → b < a → leb a b ≡ false
leb-false a b h = ground arith

-- One byte of the comparison.
prefix_byte :
    (addr : NetAddr) (mask : ℕ) (other : NetAddr)
    → IsIp addr.ip
    → IsIp other.ip
    → mask ≤ 128 - start_of addr * 8
    → (i : ℕ) → i < 16
    → Matches (of_prefix addr mask) other i ↔ (
        get_byte other i / 2 ^ free_bits (mask + start_of addr * 8) i
        ≡ get_byte addr i / 2 ^ free_bits (mask + start_of addr * 8) i)
unfolding of_prefix
prefix_byte addr mask other h k in_range i small =
    let n = mask + start_of addr * 8 in
    let netmask = clear_bits (128 - n) n (replicate 16 255) in
    let high = clear_bits-prefix n i (omega (arith, start_small addr)) small in
    rw
      (
        le→leb mask (128 - start_of addr * 8) in_range,
        normalize-byte i netmask addr h.size small,
        high,
      )
      (same_high (get_byte other i) (get_byte addr i) (free_bits n i) (get_byte-lt other i k)
        (get_byte-lt addr i h) (free_bits-le n i))

of_prefix-valid :
    (addr : NetAddr) (mask : ℕ) → (of_prefix addr mask).valid ≡ leb mask (128 - start_of addr * 8)
unfolding of_prefix
of_prefix-valid addr mask = refl

match_valid :
    (s : SubNet) (addr : NetAddr)
    → s.valid ≡ true
    → is_valid addr ≡ true
    → match s addr ≡ match_from 16 0 s addr
unfolding match
match_valid s addr h k = rw (h, k) refl

match_invalid : (s : SubNet) (addr : NetAddr) → s.valid ≡ false → match s addr ≡ false
unfolding match
match_invalid s addr h = rw h refl

-- A subnet of an address and a number of bits in range matches a valid address exactly if their
-- first bits agree, as many as the number says, and for IPv4 the 96 bits before them; one whose
-- number is out of range matches nothing.
pub match-of_prefix :
    (addr : NetAddr) (mask : ℕ) (other : NetAddr)
    → IsIp addr.ip
    → IsIp other.ip
    → is_valid other ≡ true
    → (mask ≤ 128 - start_of addr * 8
        → (match (of_prefix addr mask) other ≡ true)
          ↔ SameBits (mask + start_of addr * 8) addr other)
      × (128 - start_of addr * 8 < mask → match (of_prefix addr mask) other ≡ false)
unfolding SameBits
match-of_prefix addr mask other h k valid = (
  λ in_range.
      let (there, back) = match_from_iff 16 0 (of_prefix addr mask) other in
      let agree = prefix_byte addr mask other h k in_range in
      rw
        (match_valid (of_prefix addr mask) other (of_prefix-valid addr mask ∙ le→leb _ _ in_range)
          valid)
        (
          (λ e i small. (agree i small).0 (there e i (omega arith) (omega arith))),
          (λ same. back (λ i _ small. (agree i (omega arith)).1 (same i (omega arith)))),
        ),
  λ out. match_invalid (of_prefix addr mask) other (of_prefix-valid addr mask ∙ leb-false _ _ out),
)
