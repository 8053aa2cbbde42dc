-- ===== src/BlockIndex/Ancestor.antt =====
-- GetAncestor against the walk along `pprev`.
use btcdemo.Prelude.{
  ℕ, zero, suc, ◌+◌, ◌-◌, ◌≤◌, ◌<◌, ◌≡◌, refl, sym, ap, ◌∙◌, subst, true, ltb, if◌then◌else◌, none,
  some, get_elem?, inl, inr, arith, dec_lt, Bool-cases, Option-cases, lt→ltb, ltb-false,
}
use btcdemo.BlockIndex.{
  Pointer, BlockIndex, Arena, get_skip_height, follow_skip, walk_to, get_ancestor_loop,
  get_ancestor,
}
use btcdemo.BlockIndex.Skip.{get_skip_height-lt}

-- `count` steps to the parent.
unfoldable pub back : Arena → ℕ → ℕ → Pointer
back arena zero p = some p
back arena (suc count) p = elim (get_elem? arena p) [
  | none ↦ none
  | some b ↦ elim b.pprev [ none ↦ none | some q ↦ back arena count q ]
]

abbrev pub Stands : Arena → ℕ → BlockIndex → Type 0
Stands arena p b = get_elem? arena p ≡ some b

pub record HasParent (arena : Arena) (b : BlockIndex) : Type 0 where
  pub address : ℕ
  pub parent : BlockIndex
  pub points : b.pprev ≡ some address
  pub stands : Stands arena address parent
  pub one_below : parent.height + 1 ≡ b.height

-- A block above height zero has a parent one below it, a block at height zero has none, and a skip
-- pointer leads to the ancestor at the skip height.
pub record IsLinked (arena : Arena) : Type 0 where
  pub parent : (p : ℕ) (b : BlockIndex) → Stands arena p b → 0 < b.height → HasParent arena b
  pub root : (p : ℕ) (b : BlockIndex) → Stands arena p b → b.height ≡ 0 → b.pprev ≡ none
  pub skip :
      (p : ℕ) (b : BlockIndex)
      → Stands arena p b
      → (q : ℕ) → b.pskip ≡ some q
      → back arena (b.height - get_skip_height b.height) p ≡ some q

pub record Reaches (arena : Arena) (count p height : ℕ) : Type 0 where
  pub address : ℕ
  pub block : BlockIndex
  pub leads : back arena count p ≡ some address
  pub stands : Stands arena address block
  pub below : block.height + count ≡ height

pub back-suc :
    (arena : Arena) (count p : ℕ) (b : BlockIndex) (q : ℕ)
    → Stands arena p b
    → b.pprev ≡ some q
    → back arena (suc count) p ≡ back arena count q
unfolding back
back-suc arena count p b q h k = rw (back, h, k) refl

some_inj : {a b : ℕ} → some a ≡ some b → a ≡ b
some_inj e = cc

module _ {arena : Arena} (linked : IsLinked arena) where
  pub back-Reaches :
      (count p : ℕ) (b : BlockIndex)
      → Stands arena p b
      → count ≤ b.height
      → Reaches arena count p b.height
  unfolding back
  back-Reaches zero p b h le = record {
    address = p;
    block = b;
    leads = refl;
    stands = h;
    below = omega arith;
  }
  back-Reaches (suc count) p b h le =
      let up = linked.parent p b h (omega arith) in
      let rest = back-Reaches count up.address up.parent up.stands (omega (arith, up.one_below)) in
      record {
        address = rest.address;
        block = rest.block;
        leads = back-suc arena count p b up.address h up.points ∙ rest.leads;
        stands = rest.stands;
        below = omega (arith, rest.below, up.one_below);
      }

  pub back-add :
      (j k p : ℕ) (b : BlockIndex) (q : ℕ)
      → Stands arena p b
      → j ≤ b.height
      → back arena j p ≡ some q
      → back arena (j + k) p ≡ back arena k q
  unfolding back
  back-add zero k p b q h le e =
      ap (λ (n : ℕ). back arena n p) {x = zero + k} {y = k} (omega arith)
      ∙ ap (back arena k) (some_inj e)
  back-add (suc j) k p b q h le e =
      let up = linked.parent p b h (omega arith) in
      ap (λ (n : ℕ). back arena n p) {x = suc j + k} {y = suc (j + k)} (omega arith)
      ∙ back-suc arena (j + k) p b up.address h up.points
      ∙ back-add j k up.address up.parent q up.stands (omega (arith, up.one_below))
          (sym (back-suc arena j p b up.address h up.points) ∙ e)

  follow_skip_enough :
      (height walk : ℕ) → follow_skip arena height walk ≡ true → height ≤ get_skip_height walk
  follow_skip_enough height walk h = ground arith

  abbrev Works : ℕ → ℕ → Type 0
  Works height fuel =
      (p : ℕ) (b : BlockIndex)
      → Stands arena p b
      → height ≤ b.height
      → b.height ≤ height + fuel
      → get_ancestor_loop arena fuel height p b.height ≡ some (back arena (b.height - height) p)

  module _ (height : ℕ) where
    arrived :
        (fuel p : ℕ) (b : BlockIndex)
        → b.height ≡ height
        → get_ancestor_loop arena fuel height p b.height ≡ some (back arena (b.height - height) p)
    unfolding back get_ancestor_loop
    arrived zero p b e = ground arith
    arrived (suc fuel) p b e = ground arith

    module _ (fuel p : ℕ) (b : BlockIndex) (stands : Stands arena p b) (higher : height < b.height)
        (enough : b.height ≤ height + suc fuel) (rest : Works height fuel) where
      by_prev :
          walk_to arena b.pprev (λ q. get_ancestor_loop arena fuel height q (b.height - 1))
          ≡ some (back arena (b.height - height) p)
      by_prev =
          let up = linked.parent p b stands (omega arith) in
          let below : b.height - 1 ≡ up.parent.height = omega (arith, up.one_below) in
          let steps : b.height - height ≡ suc (up.parent.height - height) =
            omega (arith, up.one_below) in
          rw (up.points, below)
            (rest up.address up.parent up.stands (omega (arith, up.one_below))
                (omega (arith, up.one_below))
              ∙ ap some (
                  sym (back-suc arena (up.parent.height - height) p b up.address stands up.points)
                  ∙ ap (λ (n : ℕ). back arena n p) (sym steps)))

      by_skip :
          (q : ℕ)
          → b.pskip ≡ some q
          → height ≤ get_skip_height b.height
          → get_ancestor_loop arena fuel height q (get_skip_height b.height)
            ≡ some (back arena (b.height - height) p)
      by_skip q e above =
          let lower = get_skip_height-lt b.height (omega arith) in
          let jump = b.height - get_skip_height b.height in
          let lands = linked.skip p b stands q e in
          let r = back-Reaches jump p b stands (omega arith) in
          let same : r.address ≡ q = some_inj (sym r.leads ∙ lands) in
          let level : r.block.height ≡ get_skip_height b.height = omega (arith, r.below, lower) in
          let total : b.height - height ≡ jump + (r.block.height - height) =
            omega (arith, r.below, lower, above) in
          ap (get_ancestor_loop arena fuel height q) (sym level)
          ∙ rest q r.block (subst (λ (a : ℕ). Stands arena a r.block) same r.stands)
              (omega (arith, level, above)) (omega (arith, level, lower))
          ∙ ap some (
              sym (back-add jump (r.block.height - height) p b q stands (omega arith) lands)
              ∙ ap (λ (n : ℕ). back arena n p) (sym total))

      round :
          get_ancestor_loop arena (suc fuel) height p b.height
          ≡ some (back arena (b.height - height) p)
      unfolding get_ancestor_loop
      round = elim (Option-cases b.pskip) [
        | inl e ↦ rw (stands, lt→ltb height b.height higher, e) by_prev
        | inr (q, e) ↦ elim (Bool-cases (follow_skip arena height b.height)) [
          | inl f ↦
              rw (stands, lt→ltb height b.height higher, e, f)
                (by_skip q e (follow_skip_enough height b.height f))
          | inr f ↦ rw (stands, lt→ltb height b.height higher, e, f) by_prev
        ]
      ]

    works : (fuel : ℕ) → Works height fuel
    works zero p b h le enough = arrived zero p b (omega arith)
    works (suc fuel) p b h le enough = elim (dec_lt height b.height) [
      | yes higher ↦ round fuel p b h higher enough (works fuel)
      | no e ↦ arrived (suc fuel) p b (omega arith)
    ]

  -- In a tree of linked blocks GetAncestor, with its jumps along `pskip`, returns what as many
  -- steps to the parent as the heights differ reach, and `nullptr` for a height above the block's;
  -- it ends and no assertion of it fails.
  pub get_ancestor-back :
      (height p : ℕ) (b : BlockIndex)
      → Stands arena p b
      → get_ancestor arena height p
        ≡ some (if ltb b.height height then none else back arena (b.height - height) p)
  unfolding get_ancestor
  get_ancestor-back height p b h = elim (dec_lt b.height height) [
    | yes e ↦ rw (get_ancestor, h, lt→ltb b.height height e) refl
    | no e ↦
        rw (get_ancestor, h)
          (ground (arith, works height b.height p b h (omega arith) (omega arith)))
  ]

  pub get_ancestor_below :
      (height p : ℕ) (b : BlockIndex)
      → Stands arena p b
      → height ≤ b.height
      → get_ancestor arena height p ≡ some (back arena (b.height - height) p)
  get_ancestor_below height p b h le =
      let within = ltb-false b.height height (omega arith) in
      let e = get_ancestor-back height p b h in rw within at e
