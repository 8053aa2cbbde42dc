-- ===== src/NetAddr/Ipv4.antt =====
-- SetIpv4 and GetIpv4 of network/src/network_address.cpp together.
use mathlib.Core.List.{append_assoc, append-nil}
use btcdemo.Prelude.{
  ℕ, suc, ◌^◌, ◌≤◌, ◌<◌, ◌≡◌, refl, sym, ap, ◌∙◌, true, List, [], ◌∷◌, ◌++◌, length, length-append,
  length-drop, take, drop, set, set-append, take-append-drop, take_all, drop_all, Bool-cases, inl,
  inr, arith,
}
use btcdemo.Prelude.Bytes.{IsByte, All, All-drop, value}
use btcdemo.Prelude.Hash.{bytes_eq_iff}
use btcdemo.Endian.{to_little_endian}
use btcdemo.Endian.RoundTrip.{length-to_little_endian, value-to_little_endian}
use btcdemo.NetAddr.{
  NetAddr, IsIp, pch_ipv4, set_byte, set_bytes_from, set_n_byte, ip_word, is_ipv4, get_ipv4,
  set_ipv4, set_ipv6, set_last_word,
}

-- The loop of SetNByte writes its bytes over those that stand there.
set_bytes_from-ip :
    (pre vs mid : List ℕ) (a : NetAddr)
    → a.ip ≡ pre ++ mid
    → length vs ≤ length mid
    → (set_bytes_from (length pre) vs a).ip ≡ pre ++ (vs ++ drop (length vs) mid)
unfolding set_bytes_from set_byte
set_bytes_from-ip pre [] mid a e h = e
set_bytes_from-ip pre (v ∷ vs) [] a e h = absurd (omega arith)
set_bytes_from-ip pre (v ∷ vs) (m ∷ mid) a e h =
    let written : set a.ip (length pre) v ≡ (pre ++ v ∷ []) ++ mid =
      rw e (set-append pre m v mid ∙ sym (append_assoc pre (v ∷ []) mid)) in
    let next : suc (length pre) ≡ length (pre ++ v ∷ []) =
      omega (arith, length-append pre (v ∷ [])) in
    ap (λ (i : ℕ). (set_bytes_from i vs (set_byte (length pre) v a)).ip) next
    ∙ set_bytes_from-ip (pre ++ v ∷ []) vs mid (set_byte (length pre) v a) written (omega arith)
    ∙ append_assoc pre (v ∷ []) (vs ++ drop (length vs) mid)

pub set_n_byte-ip :
    (vs : List ℕ) (a : NetAddr)
    → length vs ≤ length a.ip
    → (set_n_byte vs a).ip ≡ vs ++ drop (length vs) a.ip
unfolding set_n_byte
set_n_byte-ip vs a h = set_bytes_from-ip [] vs a.ip a refl h

pub set_bytes_from-rest :
    (i : ℕ) (vs : List ℕ) (a : NetAddr)
    → set_bytes_from i vs a ≡ record a { ip = (set_bytes_from i vs a).ip }
unfolding set_bytes_from set_byte
set_bytes_from-rest i [] a = refl
set_bytes_from-rest i (v ∷ vs) a = set_bytes_from-rest (suc i) vs (set_byte i v a)

pub begins_take : (a : NetAddr) → is_ipv4 a ≡ true → take 12 a.ip ≡ pch_ipv4
unfolding is_ipv4
begins_take a h = (bytes_eq_iff (take 12 a.ip) pch_ipv4).0 h

-- SetIpv4 writes the prefix and the word, whatever stood there, and nothing else of the address.
pub set_ipv4-eq :
    (v : ℕ) (a : NetAddr)
    → length a.ip ≡ 16
    → set_ipv4 v a ≡ record a { ip = pch_ipv4 ++ to_little_endian 4 v }
unfolding set_ipv4 set_n_byte
set_ipv4-eq v a size = elim (Bool-cases (is_ipv4 a)) [
  | inl e ↦ rw (e, begins_take a e) refl
  | inr e ↦
      let written = set_n_byte-ip pch_ipv4 a (omega (arith, size)) in
      let whole = set_bytes_from-rest 0 pch_ipv4 a in
      rw e (
        ap (set_last_word v) (unfold set_n_byte in (whole ∙ ap (λ x. record a { ip = x }) written)))
]

last_word :
    (bs : List ℕ) (a : NetAddr)
    → length bs ≡ 4
    → ip_word (record a { ip = pch_ipv4 ++ bs }) 3 ≡ value bs
unfolding ip_word
last_word [] a h = absurd (omega arith)
last_word (x ∷ []) a h = absurd (omega arith)
last_word (x ∷ y ∷ []) a h = absurd (omega arith)
last_word (x ∷ y ∷ z ∷ []) a h = absurd (omega arith)
last_word (x ∷ y ∷ z ∷ w ∷ []) a h = omega arith
last_word (x ∷ y ∷ z ∷ w ∷ v ∷ bs) a h = absurd (omega arith)

-- After SetIpv4 of any address GetIpv4 returns the same word, the address is IPv4, and its port,
-- scope, services and time are what they were.
pub get_ipv4-set_ipv4 :
    (v : ℕ) (a : NetAddr)
    → length a.ip ≡ 16
    → v < 2 ^ 32
    → (get_ipv4 (set_ipv4 v a) ≡ v)
      × (is_ipv4 (set_ipv4 v a) ≡ true)
      × (set_ipv4 v a ≡ record a { ip = (set_ipv4 v a).ip })
unfolding get_ipv4 is_ipv4
get_ipv4-set_ipv4 v a size small =
    let e = set_ipv4-eq v a size in
    let word =
      last_word (to_little_endian 4 v) a (length-to_little_endian 4 v)
      ∙ value-to_little_endian 4 v small in
    rw e (word, refl, refl)

list4 :
    {x y z w x' y' z' w' : ℕ}
    → x ≡ x'
    → y ≡ y'
    → z ≡ z'
    → w ≡ w'
    → x ∷ y ∷ z ∷ w ∷ [] ≡ x' ∷ y' ∷ z' ∷ w' ∷ []
list4 e f g h = rw (e, f, g, h) refl

word_bytes :
    (bs : List ℕ) (a : NetAddr)
    → length bs ≡ 4
    → All IsByte bs
    → a.ip ≡ pch_ipv4 ++ bs
    → bs ≡ to_little_endian 4 (ip_word a 3)
unfolding ip_word to_little_endian
word_bytes [] a h k e = absurd (omega arith)
word_bytes (x ∷ []) a h k e = absurd (omega arith)
word_bytes (x ∷ y ∷ []) a h k e = absurd (omega arith)
word_bytes (x ∷ y ∷ z ∷ []) a h k e = absurd (omega arith)
word_bytes (x ∷ y ∷ z ∷ w ∷ []) a h (kx, (ky, (kz, (kw, _)))) e =
    rw e (list4 (omega arith) (omega arith) (omega arith) (omega arith))
word_bytes (x ∷ y ∷ z ∷ w ∷ v ∷ bs) a h k e = absurd (omega arith)

-- The bytes of an IPv4 address are its prefix and the word that GetIpv4 returns.
pub get_ipv4-bytes :
    (a : NetAddr)
    → IsIp a.ip
    → is_ipv4 a ≡ true
    → a.ip ≡ pch_ipv4 ++ to_little_endian 4 (get_ipv4 a)
unfolding get_ipv4 to_little_endian
get_ipv4-bytes a h v4 =
    let front = begins_take a v4 in
    let whole : a.ip ≡ pch_ipv4 ++ drop 12 a.ip =
      sym (take-append-drop 12 a.ip) ∙ ap (λ xs. xs ++ drop 12 a.ip) front in
    rw v4 (
      whole
      ∙ ap (◌++◌ pch_ipv4) (
          word_bytes (drop 12 a.ip) a (omega (arith, h.size, length-drop 12 a.ip))
            (All-drop IsByte 12 a.ip h.bytes) whole))

-- SetIpv6 writes the 16 bytes and nothing else.
pub set_ipv6-eq :
    (src : List ℕ) (a : NetAddr)
    → length src ≡ 16
    → length a.ip ≡ 16
    → set_ipv6 src a ≡ record a { ip = src }
unfolding set_ipv6 set_n_byte
set_ipv6-eq src a size size' =
    let whole = take_all 16 src size in
    let none_left : drop (length src) a.ip ≡ [] = drop_all a.ip (omega (arith, size, size')) in
    rw whole (
      set_bytes_from-rest 0 src a
      ∙ ap (λ x. record a { ip = x })
          (set_bytes_from-ip [] src a.ip a refl (omega (arith, size, size'))
            ∙ ap (◌++◌ src) none_left
            ∙ append-nil src))
