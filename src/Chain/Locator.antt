-- ===== src/Chain/Locator.antt =====
-- GetLocator lists the hashes of a branch at heights that fall ever faster.
use mathlib.Core.List.{append_assoc}
use btcdemo.Prelude.{
  ℕ, zero, suc, ◌+◌, ◌-◌, ◌*◌, ◌≤◌, ◌<◌, ◌≡◌, refl, sym, ap, ap₂, ◌∙◌, true, false, ltb, ◌==◌,
  if◌then◌else◌, none, some, List, [], ◌∷◌, ◌++◌, map, length, length-append, get_elem?, arith,
  ℕ_discrete, Bool-cases, inl, inr,
}
use btcdemo.Prelude.Hash.{Hash256, null_hash}
use btcdemo.BlockIndex.{Pointer, BlockIndex, Arena}
use btcdemo.BlockIndex.Ancestor.{back, back-add, back-Reaches, Stands, IsLinked, get_ancestor_below}
use btcdemo.Chain.{ActiveChain, get_block_index, is_exist, get_locator_loop, get_locator}
use btcdemo.Chain.Path.{IsPath, get_or-get_elem?, get_elem?-lt}
use btcdemo.Chain.Fork.{is_exist-true}

-- The heights of a locator from the height `h` down: after ten entries the step doubles each time.
abbrev pub locator_heights : ℕ → ℕ → ℕ → ℕ → List ℕ
locator_heights zero step count h = []
locator_heights (suc fuel) step count h =
    let rest =
      locator_heights fuel (if ltb 10 (count + 1) then step * 2 else step) (count + 1) (h - step) in
    h ∷ (if h == 0 then [] else rest)

abbrev pub hash_of : Arena → Pointer → Hash256
hash_of arena none = null_hash
hash_of arena (some q) = elim (get_elem? arena q) [ none ↦ null_hash | some c ↦ c.block_hash ]

heights_bottom : (fuel step count h : ℕ) → h ≡ 0 → locator_heights (suc fuel) step count h ≡ h ∷ []
heights_bottom fuel step count h e = ground arith

abbrev doubled : ℕ → ℕ → ℕ
doubled step count = if ltb 10 count then step * 2 else step

heights_above :
    (fuel step count h : ℕ)
    → 0 < h
    → locator_heights (suc fuel) step count h
      ≡ h ∷ locator_heights fuel (doubled step (count + 1)) (count + 1) (h - step)
heights_above fuel step count h pos = ground arith

hash_of-Stands :
    (arena : Arena) (q : ℕ) (c : BlockIndex)
    → Stands arena q c
    → hash_of arena (some q) ≡ c.block_hash
hash_of-Stands arena q c h = rw (hash_of, h) refl

module _ {arena : Arena} (linked : IsLinked arena) (chain : ActiveChain) (path : IsPath arena chain)
    (p : ℕ) (b : BlockIndex) (at_p : Stands arena p b) where
  abbrev hash_at : ℕ → Hash256
  hash_at i = hash_of arena (back arena (b.height - i) p)

  module _ (q : ℕ) (c : BlockIndex) (at_q : Stands arena q c) where
    by_index :
        (height r : ℕ)
        → height ≤ c.height
        → back arena (c.height - height) q ≡ some r
        → is_exist chain q c ≡ true
        → get_block_index chain height ≡ some r
    unfolding get_block_index
    by_index height r le leads e =
        let there = path.ancestors c.height q (is_exist-true chain q c e) height le in
        let inside = get_elem?-lt chain height _ there in
        let value = get_or-get_elem? chain height _ there in ground (arith, inside, value, leads)

    last_round :
        (fuel step : ℕ) (out : List Hash256)
        → c.height ≡ 0
        → get_locator_loop arena chain (suc fuel) step out (some q)
          ≡ some (out ++ (c.block_hash ∷ []))
    unfolding get_locator_loop
    last_round fuel step out bottom = rw (get_locator_loop, at_q, bottom) refl

    further :
        (fuel step r : ℕ) (out : List Hash256)
        → 0 < c.height
        → back arena (c.height - (c.height - step)) q ≡ some r
        → get_locator_loop arena chain (suc fuel) step out (some q) ≡ (
            let out' = out ++ (c.block_hash ∷ []) in
            get_locator_loop arena chain fuel (doubled step (length out')) out' (some r))
    unfolding get_locator_loop
    further fuel step r out inside leads =
        let low : c.height - step ≤ c.height = omega arith in
        let above : (c.height == 0) ≡ false = ground arith in
        elim (Bool-cases (is_exist chain q c)) [
          | inl e ↦
              rw (get_locator_loop, at_q, above, e, by_index (c.height - step) r low leads e) refl
          | inr e ↦
              rw
                (
                  get_locator_loop,
                  at_q,
                  above,
                  e,
                  get_ancestor_below linked (c.height - step) q c at_q low,
                  leads,
                )
                refl
        ]

  located :
      (fuel step : ℕ) (out : List Hash256) (q : ℕ) (c : BlockIndex)
      → Stands arena q c
      → c.height < fuel
      → c.height ≤ b.height
      → 0 < step
      → back arena (b.height - c.height) p ≡ some q
      → get_locator_loop arena chain fuel step out (some q)
        ≡ some (out ++ map hash_at (locator_heights fuel step (length out) c.height))
  located zero step out q c at_q enough le pos leads = absurd (omega arith)
  located (suc fuel) step out q c at_q enough le pos leads =
      let hash : hash_at c.height ≡ c.block_hash =
        ap (hash_of arena) leads ∙ hash_of-Stands arena q c at_q in
      elim (ℕ_discrete c.height 0) [
        | yes bottom ↦
            last_round q c at_q fuel step out bottom
            ∙ ap (λ t. some (out ++ t))
                (ap (λ h. h ∷ []) (sym hash)
                  ∙ ap (map hash_at) (sym (heights_bottom fuel step (length out) c.height bottom)))
        | no apart ↦
            let r = back-Reaches linked (c.height - (c.height - step)) q c at_q (omega arith) in
            let level : r.block.height ≡ c.height - step = omega (arith, r.below) in
            let there : back arena (b.height - r.block.height) p ≡ some r.address =
              ap (λ (n : ℕ). back arena n p) {x = b.height - r.block.height}
                {y = b.height - c.height + (c.height - (c.height - step))} (omega (arith, level))
              ∙ back-add linked (b.height - c.height) (c.height - (c.height - step)) p b q at_p
                  (omega arith) leads
              ∙ r.leads in
            let out' = out ++ (c.block_hash ∷ []) in
            let step' = doubled step (length out') in
            let count : length out' ≡ length out + 1 = length-append out (c.block_hash ∷ []) in
            further q c at_q fuel step r.address out (omega arith) r.leads
            ∙ located fuel step' out' r.address r.block r.stands (omega (arith, level))
                (omega (arith, level)) (ground arith) there
            ∙ ap some (
                append_assoc out (c.block_hash ∷ []) _
                ∙ ap (λ t. out ++ t)
                    (ap₂ (λ h hs. h ∷ map hash_at hs) (sym hash) (rw (count, level) refl)
                      ∙ ap (map hash_at)
                          (sym (heights_above fuel step (length out) c.height (omega arith)))))
      ]

  -- GetLocator for a block of the tree returns, whether or not the block is on the active chain,
  -- the hashes of its ancestors at the heights of `locator_heights` from its own down: one lower
  -- each time for the first ten, then with a step that doubles, down to height zero. It ends and no
  -- assertion fails.
  pub get_locator_lem :
      get_locator arena chain (some p)
      ≡ some (
          map
            (λ i. hash_of arena (back arena (b.height - i) p))
            (locator_heights (b.height + 1) 1 0 b.height))
  unfolding get_locator back
  get_locator_lem =
      rw (get_locator, at_p)
        (located (b.height + 1) 1 [] p b at_p (omega arith) (omega arith) (omega arith)
          (ap (λ (n : ℕ). back arena n p) {x = b.height - b.height} {y = 0} (omega arith)))
