-- ===== src/ChainState/Made.antt =====
-- The block that AddToBlockIndex makes.
use btcdemo.Prelude.{
  ℕ, suc, ◌+◌, ◌-◌, ◌≤◌, ◌%◌, ◌^◌, ◌≡◌, refl, sym, ap, ◌∙◌, [], ◌∷◌, ◌++◌, length, none, some,
  arith,
}
use btcdemo.Prelude.Hash.{Hash256}
use btcdemo.Header.{BlockHeader, get_block_proof}
use btcdemo.BlockIndex.{
  Pointer, BlockIndex, Arena, get_skip_height, get_ancestor, build_skip, new_block_index,
  raise_validity,
}
use btcdemo.BlockIndex.Skip.{get_skip_height-lt}
use btcdemo.BlockIndex.Ancestor.{back, back-suc, Stands, HasParent, IsLinked, get_ancestor_below}
use btcdemo.ChainState.{hashed_block, link_to, work_at, make_block}
use btcdemo.ChainState.Valid.{get_elem?-append_left, get_elem?_last, back-append, append-IsLinked}

module _ (hash : Hash256) (header : BlockHeader) where
  -- Without a known parent.
  abbrev pub rootless : ℕ → BlockIndex
  rootless proof = record (hashed_block hash header) {
    chain_work = (0 + proof) % 2 ^ 256;
    status = 2;
  }

  -- Below the parent `c` at `q`.
  abbrev pub child : ℕ → BlockIndex → Pointer → ℕ → BlockIndex
  child q c skip proof = record (hashed_block hash header) {
    pprev = some q;
    pskip = skip;
    height = c.height + 1;
    chain_work = (c.chain_work + proof) % 2 ^ 256;
    status = 2;
  }

  abbrev unskipped : ℕ → BlockIndex → BlockIndex
  unskipped q c = record (hashed_block hash header) { pprev = some q; height = c.height + 1 }

  module _ {arena : Arena} (linked : IsLinked arena) (proof : ℕ)
      (e : get_block_proof header ≡ some proof) where
    pub make_block-rootless : make_block arena none hash header ≡ some (rootless proof)
    unfolding make_block link_to new_block_index raise_validity
    make_block-rootless = rw (make_block, e) refl

    pub rootless-IsLinked : IsLinked (arena ++ (rootless proof ∷ []))
    unfolding new_block_index
    rootless-IsLinked =
        append-IsLinked linked (rootless proof) (λ pos. absurd (omega arith)) (λ z. refl)
          (λ q h. absurd cc)

    module _ (q : ℕ) (c : BlockIndex) (at_q : Stands arena q c) where
      abbrev pub skip_height : ℕ
      skip_height = get_skip_height (c.height + 1)

      skips : skip_height ≤ c.height
      skips = omega (arith, get_skip_height-lt (c.height + 1) (omega arith))

      abbrev pub skip_to : Pointer
      skip_to = back arena (c.height - skip_height) q

      parent_of : (b : BlockIndex) → b.pprev ≡ some q → b.height ≡ c.height + 1 → HasParent arena b
      parent_of b at_parent level = record {
        address = q;
        parent = c;
        points = at_parent;
        stands = at_q;
        one_below = sym level;
      }

      unskipped-IsLinked : IsLinked (arena ++ (unskipped q c ∷ []))
      unfolding new_block_index
      unskipped-IsLinked =
          append-IsLinked linked (unskipped q c) (λ pos. parent_of (unskipped q c) refl refl)
            (λ z. absurd (omega arith)) (λ r h. absurd cc)

      link_to_parent :
          link_to arena (some q) (hashed_block hash header)
          ≡ some (record (unskipped q c) { pskip = skip_to })
      unfolding link_to build_skip
      link_to_parent =
          let there = get_elem?-append_left arena (hashed_block hash header ∷ []) q c at_q in
          let still = get_elem?-append_left arena (unskipped q c ∷ []) q c at_q in
          let skip : get_ancestor (arena ++ (unskipped q c ∷ [])) skip_height q ≡ some skip_to =
            get_ancestor_below unskipped-IsLinked skip_height q c still skips
            ∙ ap some (
                back-append linked (unskipped q c) (c.height - skip_height) q c at_q
                  (omega arith)) in
          rw (link_to, there, build_skip, skip) refl

      pub make_block-child : make_block arena (some q) hash header ≡ some (child q c skip_to proof)
      unfolding make_block raise_validity new_block_index
      make_block-child =
          let b = record (unskipped q c) { pskip = skip_to } in
          let still = get_elem?-append_left arena (b ∷ []) q c at_q in
          rw (make_block, link_to_parent, e, work_at, still) refl

      pub child-IsLinked : IsLinked (arena ++ (child q c skip_to proof ∷ []))
      unfolding new_block_index
      child-IsLinked =
          let new = child q c skip_to proof in
          append-IsLinked linked new (λ pos. parent_of new refl refl) (λ z. absurd (omega arith))
            (λ r h.
              ap (λ (n : ℕ). back (arena ++ (new ∷ [])) n (length arena))
                {x = c.height + 1 - skip_height} {y = suc (c.height - skip_height)}
                (omega (arith, skips))
              ∙ back-suc (arena ++ (new ∷ [])) (c.height - skip_height) (length arena) new q
                  (get_elem?_last arena new) refl
              ∙ back-append linked new (c.height - skip_height) q c at_q (omega arith)
              ∙ h)
