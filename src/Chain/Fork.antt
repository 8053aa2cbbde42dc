-- ===== src/Chain/Fork.antt =====
-- FindFork finds the last common block of the chain and a branch.
use btcdemo.Prelude.{
  ℕ, zero, suc, ◌+◌, ◌-◌, ◌≤◌, ◌<◌, ◌^◌, ◌≡◌, refl, sym, ap, ◌∙◌, subst, true, false, Option, none,
  some, length, get_or, get_elem?, arith, dec_lt, ℕ_discrete, Bool-cases, lt→ltb, ltb-false, inl,
  inr,
}
use btcdemo.BlockIndex.{Pointer, BlockIndex, Arena, get_ancestor}
use btcdemo.BlockIndex.Ancestor.{
  back, back-suc, back-add, back-Reaches, Stands, HasParent, IsLinked, get_ancestor_below,
}
use btcdemo.Chain.{
  ActiveChain, points_to, get_block_index, chain_height, is_exist, find_fork_loop, find_fork,
}
use btcdemo.Chain.Path.{
  get_or-get_elem?, get_elem?-get_or, get_elem?-lt, points_to-true, points_to_self,
}

pub is_exist-true :
    (chain : ActiveChain) (p : ℕ) (b : BlockIndex)
    → is_exist chain p b ≡ true
    → get_elem? chain b.height ≡ some (some p)
unfolding is_exist get_block_index
is_exist-true chain p b e = elim (dec_lt b.height (length chain)) [
  | yes inside ↦
      let here : points_to (get_or chain b.height none) p ≡ true = ground arith in
      get_elem?-get_or chain b.height p (points_to-true (get_or chain b.height none) p here)
  | no outside ↦ absurd (ground arith)
]

pub is_exist-stands :
    (chain : ActiveChain) (p : ℕ) (b : BlockIndex)
    → get_elem? chain b.height ≡ some (some p)
    → is_exist chain p b ≡ true
unfolding is_exist get_block_index
is_exist-stands chain p b e =
    let inside = get_elem?-lt chain b.height (some p) e in
    let here = get_or-get_elem? chain b.height (some p) e in ground (arith, here, points_to_self p)

module _ (arena : Arena) (chain : ActiveChain) (p h : ℕ) where
  -- The chain and the branch of `p`, a block of the height `h`, have the same block at the height `i`.
  abbrev pub Shares : ℕ → Type 0
  Shares i = get_elem? chain i ≡ some (back arena (h - i) p)

  -- The highest block of the branch that the chain shares, or `nullptr` if it shares none.
  abbrev pub IsFork : Pointer → Type 0
  IsFork none = (j : ℕ) → j ≤ h → ¬ Shares j
  IsFork (some q) =
      (i : ℕ) × (i ≤ h)
      × (back arena (h - i) p ≡ some q)
      × Shares i
      × ((j : ℕ) → i < j → j ≤ h → ¬ Shares j)

module _ {arena : Arena} (linked : IsLinked arena) (chain : ActiveChain) (p : ℕ) (b : BlockIndex)
    (at_p : Stands arena p b) where
  abbrev Unshared : ℕ → Type 0
  Unshared m = (j : ℕ) → m < j → j ≤ b.height → ¬ Shares arena chain p b.height j

  module _ (q : ℕ) (c : BlockIndex) (le : c.height ≤ b.height)
      (leads : back arena (b.height - c.height) p ≡ some q) where
    missed : is_exist chain q c ≡ false → ¬ Shares arena chain p b.height c.height
    missed e shares = let there = is_exist-stands chain q c (shares ∙ ap some leads) in cc

    missed_too :
        Unshared c.height
        → is_exist chain q c ≡ false
        → (j : ℕ) → c.height ≤ j
        → j ≤ b.height
        → ¬ Shares arena chain p b.height j
    missed_too over e j le' small = elim (ℕ_discrete c.height j) [
      | yes same ↦ subst (λ (i : ℕ). ¬ Shares arena chain p b.height i) same (missed e)
      | no apart ↦ over j (omega arith) small
    ]

    parent_leads :
        (up : HasParent arena c)
        → Stands arena q c
        → back arena (b.height - up.parent.height) p ≡ some up.address
    unfolding back
    parent_leads up stands =
        ap (λ (n : ℕ). back arena n p) {x = b.height - up.parent.height}
          {y = b.height - c.height + 1} (omega (arith, up.one_below))
        ∙ back-add linked (b.height - c.height) 1 p b q at_p (omega arith) leads
        ∙ back-suc arena 0 q c up.address stands up.points

    found : Unshared c.height → is_exist chain q c ≡ true → IsFork arena chain p b.height (some q)
    found over e = (c.height, le, leads, is_exist-true chain q c e ∙ ap some (sym leads), over)

    fork_here :
        (fuel : ℕ)
        → Stands arena q c
        → is_exist chain q c ≡ true
        → find_fork_loop arena chain (suc fuel) (some q) ≡ some (some q)
    unfolding find_fork_loop
    fork_here fuel stands e = rw (find_fork_loop, stands, e) refl

    fork_below :
        (fuel : ℕ)
        → Stands arena q c
        → is_exist chain q c ≡ false
        → find_fork_loop arena chain (suc fuel) (some q) ≡ find_fork_loop arena chain fuel c.pprev
    unfolding find_fork_loop
    fork_below fuel stands e = rw (find_fork_loop, stands, e) refl

  abbrev Returns : Option Pointer → Type 0
  Returns o = (r : Pointer) × (o ≡ some r) × IsFork arena chain p b.height r

  fork :
      (fuel q : ℕ) (c : BlockIndex)
      → Stands arena q c
      → c.height < fuel
      → c.height ≤ b.height
      → back arena (b.height - c.height) p ≡ some q
      → Unshared c.height
      → Returns (find_fork_loop arena chain fuel (some q))
  unfolding find_fork_loop
  fork zero q c stands enough le leads over = absurd (omega arith)
  fork (suc fuel) q c stands enough le leads over = elim (Bool-cases (is_exist chain q c)) [
    | inl e ↦ (some q, fork_here q c le leads fuel stands e, found q c le leads over e)
    | inr e ↦ elim (ℕ_discrete c.height 0) [
      | yes bottom ↦ (
        none,
        fork_below q c le leads fuel stands e
            ∙ ap (find_fork_loop arena chain fuel) (linked.root q c stands bottom),
        λ j small. missed_too q c le leads over e j (omega arith) small,
      )
      | no inside ↦
          let up = linked.parent q c stands (omega arith) in
          let (r, e', is_fork) =
            fork fuel up.address up.parent up.stands (omega (arith, up.one_below))
              (omega (arith, up.one_below)) (parent_leads q c le leads up stands)
              (λ j above. missed_too q c le leads over e j (omega (arith, up.one_below))) in
          (
            r,
            fork_below q c le leads fuel stands e
                ∙ ap (find_fork_loop arena chain fuel) up.points
                ∙ e',
            is_fork,
          )
    ]
  ]

  -- Of a block of the tree and a chain that is not empty and has at most 2^32 blocks, FindFork
  -- returns the highest block of the branch down from it that the chain has at the same height, and
  -- `nullptr` if there is none; it ends and no assertion of it fails.
  pub find_fork-IsFork :
      0 < length chain
      → length chain ≤ 2 ^ 32
      → (r : Pointer) × (find_fork arena chain (some p) ≡ some r) × IsFork arena chain p b.height r
  unfolding find_fork chain_height back
  find_fork-IsFork nonempty small = elim (dec_lt (chain_height chain) b.height) [
    | yes higher ↦
        let top : chain_height chain ≡ length chain - 1 = omega arith in
        let r = back-Reaches linked (b.height - chain_height chain) p b at_p (omega arith) in
        let low : r.block.height ≡ chain_height chain = omega (arith, r.below) in
        let reached : get_ancestor arena (chain_height chain) p ≡ some (some r.address) =
          get_ancestor_below linked (chain_height chain) p b at_p (omega arith) ∙ ap some r.leads in
        let (f, e, is_fork) =
          fork (b.height + 1) r.address r.block r.stands (omega (arith, low)) (omega (arith, low))
            (ap (λ (n : ℕ). back arena n p) {x = b.height - r.block.height}
                {y = b.height - chain_height chain} (omega (arith, low))
              ∙ r.leads)
            (λ j above le shares. absurd (omega (arith, low, get_elem?-lt chain j _ shares))) in
        (f, rw (find_fork, at_p, lt→ltb (chain_height chain) b.height higher, reached) e, is_fork)
    | no low ↦
        let (f, e, is_fork) =
          fork (b.height + 1) p b at_p (omega arith) (omega arith)
            (ap (λ (n : ℕ). back arena n p) {x = b.height - b.height} {y = 0} (omega arith))
            (λ j above le. absurd (omega arith)) in
        (f, rw (find_fork, at_p, ltb-false (chain_height chain) b.height low) e, is_fork)
  ]
