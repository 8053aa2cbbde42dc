-- ===== src/Chain/Path.antt =====
-- SetTip makes the active chain the path from the genesis block to its tip.
use btcdemo.Prelude.{
  ℕ, zero, suc, ◌+◌, ◌-◌, ◌≤◌, ◌<◌, ◌≡◌, refl, sym, ap, ◌∙◌, subst, true, false, none, some, [],
  ◌∷◌, length, set, get_or, get_elem?, length-set, get_elem?-set_self, get_elem?-set_ne, arith,
  dec_lt, Bool-cases, inl, inr,
}
use btcdemo.BlockIndex.{Pointer, BlockIndex, Arena}
use btcdemo.BlockIndex.Ancestor.{back, back-suc, back-add, back-Reaches, Stands, IsLinked}
use btcdemo.Chain.{ActiveChain, resize, points_to, set_tip_loop, set_tip}

-- Whatever block the chain holds at a height stands at that height, and below it the chain holds
-- the block's ancestors.
pub record IsPath (arena : Arena) (chain : ActiveChain) : Type 0 where
  pub level :
      (j q : ℕ)
      → get_elem? chain j ≡ some (some q)
      → (b : BlockIndex) × Stands arena q b × (b.height ≡ j)
  pub ancestors :
      (j q : ℕ)
      → get_elem? chain j ≡ some (some q)
      → (i : ℕ) → i ≤ j
      → get_elem? chain i ≡ some (back arena (j - i) q)

pub length-resize : (n : ℕ) (xs : ActiveChain) → length (resize n xs) ≡ n
unfolding resize
length-resize zero xs = refl
length-resize (suc n) [] = ap suc (length-resize n [])
length-resize (suc n) (x ∷ xs) = ap suc (length-resize n xs)

get_elem?-resize :
    (n : ℕ) (xs : ActiveChain) (i : ℕ) → i < n → get_elem? (resize n xs) i ≡ some (get_or xs i none)
unfolding resize
get_elem?-resize zero xs i h = elim h [ ]
get_elem?-resize (suc n) [] zero h = refl
get_elem?-resize (suc n) [] (suc i) h = get_elem?-resize n [] i (omega arith)
get_elem?-resize (suc n) (x ∷ xs) zero h = refl
get_elem?-resize (suc n) (x ∷ xs) (suc i) h = get_elem?-resize n xs i (omega arith)

pub get_or-get_elem? :
    (xs : ActiveChain) (i : ℕ) (v : Pointer) → get_elem? xs i ≡ some v → get_or xs i none ≡ v
get_or-get_elem? [] i v h = cc
get_or-get_elem? (x ∷ xs) zero v h = cc
get_or-get_elem? (x ∷ xs) (suc i) v h = get_or-get_elem? xs i v h

pub get_elem?-get_or :
    (xs : ActiveChain) (i q : ℕ) → get_or xs i none ≡ some q → get_elem? xs i ≡ some (some q)
get_elem?-get_or [] i q h = cc
get_elem?-get_or (x ∷ xs) zero q h = ap some h
get_elem?-get_or (x ∷ xs) (suc i) q h = get_elem?-get_or xs i q h

pub get_elem?-lt :
    (xs : ActiveChain) (i : ℕ) (v : Pointer) → get_elem? xs i ≡ some v → i < length xs
get_elem?-lt [] i v h = absurd cc
get_elem?-lt (x ∷ xs) zero v h = omega arith
get_elem?-lt (x ∷ xs) (suc i) v h = omega (arith, get_elem?-lt xs i v h)

some_inj : {v w : Pointer} → some v ≡ some w → v ≡ w
some_inj e = cc

pub points_to-true : (v : Pointer) (p : ℕ) → points_to v p ≡ true → v ≡ some p
points_to-true none p e = absurd cc
points_to-true (some q) p e = ap some (ground arith)

pub points_to_self : (p : ℕ) → points_to (some p) p ≡ true
points_to_self p = ground arith

-- The part of the chain up to the height `m` is a path.
abbrev Below : Arena → ActiveChain → ℕ → Type 0
Below arena chain m =
    (j q : ℕ)
    → j ≤ m
    → get_elem? chain j ≡ some (some q)
    → (i : ℕ) → i ≤ j
    → get_elem? chain i ≡ some (back arena (j - i) q)

resize-Below :
    (arena : Arena) (chain : ActiveChain) (n : ℕ)
    → IsPath arena chain
    → Below arena (resize (n + 1) chain) n
resize-Below arena chain n path j q le e i le' =
    let here : get_or chain j none ≡ some q =
      some_inj (sym (get_elem?-resize (n + 1) chain j (omega arith)) ∙ e) in
    let there = path.ancestors j q (get_elem?-get_or chain j q here) i le' in
    get_elem?-resize (n + 1) chain i (omega arith) ∙ ap some (get_or-get_elem? chain i _ there)

-- What the loop makes of the chain from the block `q` at the height `m` down.
record Filled (arena : Arena) (fuel m q : ℕ) (chain : ActiveChain) : Type 0 where
  result : ActiveChain
  returns : set_tip_loop arena fuel (some q) chain ≡ some result
  same_length : length result ≡ length chain
  path : (i : ℕ) → i ≤ m → get_elem? result i ≡ some (back arena (m - i) q)
  above : (i : ℕ) → m < i → get_elem? result i ≡ get_elem? chain i

module _ (arena : Arena) (q : ℕ) (b : BlockIndex) (chain : ActiveChain) (stands : Stands arena q b)
    (inside : b.height < length chain) where
  stops :
      (fuel : ℕ)
      → points_to (get_or chain b.height none) q ≡ true
      → set_tip_loop arena (suc fuel) (some q) chain ≡ some chain
  unfolding set_tip_loop
  stops fuel e = rw (set_tip_loop, stands, e) (ground arith)

  goes_on :
      (fuel : ℕ)
      → points_to (get_or chain b.height none) q ≡ false
      → set_tip_loop arena (suc fuel) (some q) chain
        ≡ set_tip_loop arena fuel b.pprev (set chain b.height (some q))
  unfolding set_tip_loop
  goes_on fuel e = rw (set_tip_loop, stands, e) (ground arith)

  already_there :
      (fuel : ℕ)
      → Below arena chain b.height
      → points_to (get_or chain b.height none) q ≡ true
      → Filled arena (suc fuel) b.height q chain
  already_there fuel below e = record {
    result = chain;
    returns = stops fuel e;
    same_length = refl;
    path =
        below b.height q (omega arith)
          (get_elem?-get_or chain b.height q (points_to-true (get_or chain b.height none) q e));
    above = λ i h. refl;
  }

  set-Below :
      (m : ℕ)
      → m < b.height
      → Below arena chain b.height
      → Below arena (set chain b.height (some q)) m
  set-Below m h below j r le e i le' =
      get_elem?-set_ne chain (some q) (omega arith)
      ∙ below j r (omega arith) (sym (get_elem?-set_ne chain (some q) (omega arith)) ∙ e) i le'

  at_top :
      (i : ℕ)
      → i ≡ b.height
      → get_elem? (set chain b.height (some q)) i ≡ some (back arena (b.height - i) q)
  unfolding back
  at_top i e =
      ap (get_elem? (set chain b.height (some q))) e
      ∙ get_elem?-set_self chain b.height (some q) inside
      ∙ ap (λ (n : ℕ). some (back arena n q)) {x = 0} {y = b.height - i} (omega arith)

module _ {arena : Arena} (linked : IsLinked arena) where
  filled :
      (m q : ℕ) (b : BlockIndex) (chain : ActiveChain)
      → Stands arena q b
      → b.height ≡ m
      → b.height < length chain
      → Below arena chain b.height
      → Filled arena (suc m) b.height q chain
  unfolding back set_tip_loop
  filled zero q b chain stands level inside below =
      elim (Bool-cases (points_to (get_or chain b.height none) q)) [
        | inl e ↦ already_there arena q b chain stands inside zero below e
        | inr e ↦ record {
          result = set chain b.height (some q);
          returns =
              goes_on arena q b chain stands inside zero e
              ∙ ap (λ (v : Pointer). set_tip_loop arena zero v (set chain b.height (some q)))
                  (linked.root q b stands level);
          same_length = length-set chain b.height (some q);
          path = λ i le. at_top arena q b chain stands inside i (omega (arith, level));
          above = λ i h. get_elem?-set_ne chain (some q) (omega arith);
        }
      ]
  filled (suc m) q b chain stands level inside below =
      elim (Bool-cases (points_to (get_or chain b.height none) q)) [
        | inl e ↦ already_there arena q b chain stands inside (suc m) below e
        | inr e ↦
            let up = linked.parent q b stands (omega (arith, level)) in
            let written = set chain b.height (some q) in
            let rest =
              filled m up.address up.parent written up.stands (omega (arith, up.one_below, level))
                (omega (arith, up.one_below, length-set chain b.height (some q)))
                (set-Below arena q b chain stands inside up.parent.height
                  (omega (arith, up.one_below)) below) in
            record {
              result = rest.result;
              returns =
                  goes_on arena q b chain stands inside (suc m) e
                  ∙ ap (λ (v : Pointer). set_tip_loop arena (suc m) v written) up.points
                  ∙ rest.returns;
              same_length = rest.same_length ∙ length-set chain b.height (some q);
              path = λ i le. elim (dec_lt up.parent.height i) [
                | yes over ↦
                    rest.above i over
                    ∙ at_top arena q b chain stands inside i (omega (arith, up.one_below))
                | no under ↦
                    rest.path i (omega arith)
                    ∙ ap some (
                        sym (back-suc arena (up.parent.height - i) q b up.address stands up.points)
                        ∙ ap (λ (n : ℕ). back arena n q) {x = suc (up.parent.height - i)}
                            {y = b.height - i} (omega (arith, up.one_below)))
              ];
              above = λ i h.
                  rest.above i (omega (arith, up.one_below))
                  ∙ get_elem?-set_ne chain (some q) (omega arith);
            }
      ]

-- The chain whose tip is the block `p`.
pub record HasTip (arena : Arena) (p : ℕ) (b : BlockIndex) (chain : ActiveChain) : Type 0 where
  pub size : length chain ≡ b.height + 1
  pub path : (i : ℕ) → i ≤ b.height → get_elem? chain i ≡ some (back arena (b.height - i) p)
  pub is_path : IsPath arena chain

module _ {arena : Arena} (linked : IsLinked arena) where
  pub IsPath-intro :
      (p : ℕ) (b : BlockIndex) (chain : ActiveChain)
      → Stands arena p b
      → length chain ≡ b.height + 1
      → ((i : ℕ) → i ≤ b.height → get_elem? chain i ≡ some (back arena (b.height - i) p))
      → IsPath arena chain
  IsPath-intro p b chain stands size path = record {
    level = λ j q e.
        let le : j ≤ b.height = omega (arith, get_elem?-lt chain j _ e, size) in
        let r = back-Reaches linked (b.height - j) p b stands (omega arith) in
        let same : r.address ≡ q = some_inj' (sym r.leads ∙ some_inj (sym (path j le) ∙ e)) in
        (
          r.block,
          subst (λ (a : ℕ). Stands arena a r.block) same r.stands,
          omega (arith, r.below, le),
        );
    ancestors = λ j q e i le'.
        let le : j ≤ b.height = omega (arith, get_elem?-lt chain j _ e, size) in
        path i (omega arith)
        ∙ ap some (
            ap (λ (n : ℕ). back arena n p) {x = b.height - i} {y = b.height - j + (j - i)}
              (omega arith)
            ∙ back-add linked (b.height - j) (j - i) p b q stands (omega arith)
                (some_inj (sym (path j le) ∙ e)));
  }
    where
      some_inj' : {m n : ℕ} → some m ≡ some n → m ≡ n
      some_inj' e = cc

  -- Whatever path the chain was, SetTip with a block of the tree ends and makes it the path from
  -- height zero to that block: it has the block's height plus one entries, the entry at each height
  -- is the block's ancestor there, and it is a path again.
  pub set_tip-HasTip :
      (p : ℕ) (b : BlockIndex) (chain : ActiveChain)
      → Stands arena p b
      → IsPath arena chain
      → (result : ActiveChain) × (set_tip arena (some p) chain ≡ some result)
        × HasTip arena p b result
  unfolding set_tip
  set_tip-HasTip p b chain stands old =
      let start = resize (b.height + 1) chain in
      let f =
        filled linked b.height p b start stands refl
          (omega (arith, length-resize (b.height + 1) chain))
          (resize-Below arena chain b.height old) in
      let size : length f.result ≡ b.height + 1 =
        f.same_length ∙ length-resize (b.height + 1) chain in
      (
        f.result,
        rw (set_tip, stands)
            (ap (λ (n : ℕ). set_tip_loop arena n (some p) start) {x = b.height + 1}
                {y = suc b.height} (omega arith)
              ∙ f.returns),
        record {
          size = size;
          path = f.path;
          is_path = IsPath-intro p b f.result stands size f.path;
        },
      )
