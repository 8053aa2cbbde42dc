-- ===== src/NetAddr/Group/Laws.antt =====
-- What GetGroup tells apart.
use btcdemo.Prelude.{
  ◌≡◌, ◌↔◌, refl, sym, ap, ◌∙◌, Bool, true, false, not, ◌&&◌, ◌||◌, [], ◌∷◌, get_or, Bool-cases,
  inl, inr,
}
use btcdemo.NetAddr.{NetAddr, get_byte, is_ipv4}
use btcdemo.NetAddr.Category.{
  is_internal, is_routable, is_local, is_rfc1918, is_rfc2544, is_rfc3927, is_rfc4862, is_rfc6598,
  is_rfc5737, is_rfc4193, is_rfc4843, is_tor, is_valid,
}
use btcdemo.NetAddr.Group.{group_of, whole_bytes, last_bits, get_group}

drop_first : (v p q : Bool) → (v && not (p || q)) ≡ true → (v && not q) ≡ true
drop_first true true q h = cc
drop_first true false q h = h
drop_first false p q h = h

last_two : (v l i : Bool) → (v && not (l || i)) ≡ true → (l ≡ false) × (i ≡ false)
last_two true true i h = cc
last_two true false true h = cc
last_two true false false h = (refl, refl)
last_two false l i h = cc

-- A routable address is neither local nor internal.
pub routable_outside :
    (a : NetAddr) → is_routable a ≡ true → (is_local a ≡ false) × (is_internal a ≡ false)
unfolding is_routable
routable_outside a h =
    let v = is_valid a in
    let q9 = is_local a || is_internal a in
    let p9 = is_rfc4193 a && not (is_tor a) in
    let q8 = p9 || q9 in
    let q7 = is_rfc4843 a || q8 in
    let q6 = is_rfc4193 a || q7 in
    let q5 = is_rfc5737 a || q6 in
    let q4 = is_rfc6598 a || q5 in
    let q3 = is_rfc4862 a || q4 in
    let q2 = is_rfc3927 a || q3 in
    let q1 = is_rfc2544 a || q2 in
    let h1 = drop_first v (is_rfc1918 a) q1 h in
    let h2 = drop_first v (is_rfc2544 a) q2 h1 in
    let h3 = drop_first v (is_rfc3927 a) q3 h2 in
    let h4 = drop_first v (is_rfc4862 a) q4 h3 in
    let h5 = drop_first v (is_rfc6598 a) q5 h4 in
    let h6 = drop_first v (is_rfc5737 a) q6 h5 in
    let h7 = drop_first v (is_rfc4193 a) q7 h6 in
    let h8 = drop_first v (is_rfc4843 a) q8 h7 in
    last_two v (is_local a) (is_internal a) (drop_first v p9 q9 h8)

pub get_group_ipv4 :
    (a : NetAddr)
    → is_routable a ≡ true
    → is_ipv4 a ≡ true
    → get_group a ≡ 1 ∷ get_byte a 12 ∷ get_byte a 13 ∷ []
unfolding get_group group_of whole_bytes last_bits
get_group_ipv4 a routable v4 =
    let (local, internal) = routable_outside a routable in rw (local, internal, routable, v4) refl

-- Two routable IPv4 addresses are of one group exactly if their first two bytes agree.
pub get_group_ipv4_iff :
    (a b : NetAddr)
    → is_routable a ≡ true
    → is_ipv4 a ≡ true
    → is_routable b ≡ true
    → is_ipv4 b ≡ true
    → (get_group a ≡ get_group b)
      ↔ ((get_byte a 12 ≡ get_byte b 12) × (get_byte a 13 ≡ get_byte b 13))
get_group_ipv4_iff a b ra va rb vb =
    let ea = get_group_ipv4 a ra va in
    let eb = get_group_ipv4 b rb vb in
    (
      λ e.
          let same : 1 ∷ get_byte a 12 ∷ get_byte a 13 ∷ []
              ≡ 1 ∷ get_byte b 12 ∷ get_byte b 13 ∷ [] =
            sym ea ∙ e ∙ eb in
          (ap (λ g. get_or g 1 0) same, ap (λ g. get_or g 2 0) same),
      λ (e, f). ea ∙ rw (e, f) (sym eb),
    )

-- Every unroutable address that is not internal is of the one group [kAfUnroutable].
pub get_group_unroutable :
    (a : NetAddr) → is_routable a ≡ false → is_internal a ≡ false → get_group a ≡ 0 ∷ []
unfolding get_group group_of whole_bytes last_bits
get_group_unroutable a h k = rw (k, h) refl

-- The value 255 that GetGroup gives to a local address is never in a group.
pub get_group_local :
    (a : NetAddr) → is_local a ≡ true → is_internal a ≡ false → get_group a ≡ 0 ∷ []
get_group_local a h k = elim (Bool-cases (is_routable a)) [
  | inl e ↦ absurd (let (l, i) = routable_outside a e in cc)
  | inr e ↦ get_group_unroutable a e k
]
