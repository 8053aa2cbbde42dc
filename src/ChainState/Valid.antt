-- ===== src/ChainState/Valid.antt =====
-- The tree of blocks stays linked when a block is put behind the others.
use btcdemo.Prelude.{
  ℕ, zero, suc, ◌-◌, ◌≤◌, ◌<◌, ◌≡◌, refl, sym, ap, ◌∙◌, subst, List, [], ◌∷◌, ◌++◌, length,
  get_elem?, none, some, arith, ◌⊎◌, inl, inr,
}
use btcdemo.BlockIndex.{BlockIndex, Arena, get_skip_height}
use btcdemo.BlockIndex.Ancestor.{back, back-suc, Stands, HasParent, IsLinked}

module _ {ℓ} {A : Type ℓ} where
  pub get_elem?-append_left :
      (xs ys : List A) (i : ℕ) (v : A) → get_elem? xs i ≡ some v → get_elem? (xs ++ ys) i ≡ some v
  get_elem?-append_left [] ys i v h = absurd cc
  get_elem?-append_left (x ∷ xs) ys zero v h = h
  get_elem?-append_left (x ∷ xs) ys (suc i) v h = get_elem?-append_left xs ys i v h

  pub get_elem?_last : (xs : List A) (v : A) → get_elem? (xs ++ (v ∷ [])) (length xs) ≡ some v
  get_elem?_last [] v = refl
  get_elem?_last (x ∷ xs) v = get_elem?_last xs v

  -- An element of the longer list is the new one or one of the old.
  pub get_elem?-append_cases :
      (xs : List A) (v w : A) (i : ℕ)
      → get_elem? (xs ++ (v ∷ [])) i ≡ some w
      → ((i ≡ length xs) × (v ≡ w)) ⊎ (get_elem? xs i ≡ some w)
  get_elem?-append_cases [] v w zero h = inl (refl, cc)
  get_elem?-append_cases [] v w (suc i) h = absurd cc
  get_elem?-append_cases (x ∷ xs) v w zero h = inr h
  get_elem?-append_cases (x ∷ xs) v w (suc i) h = elim (get_elem?-append_cases xs v w i h) [
    | inl (e, f) ↦ inl (ap suc e, f)
    | inr e ↦ inr e
  ]

module _ {arena : Arena} (linked : IsLinked arena) (new : BlockIndex) where
  abbrev longer : Arena
  longer = arena ++ (new ∷ [])

  pub back-append :
      (count p : ℕ) (b : BlockIndex)
      → Stands arena p b
      → count ≤ b.height
      → back longer count p ≡ back arena count p
  unfolding back
  back-append zero p b h le = refl
  back-append (suc count) p b h le =
      let up = linked.parent p b h (omega arith) in
      back-suc longer count p b up.address (get_elem?-append_left arena (new ∷ []) p b h) up.points
      ∙ back-append count up.address up.parent up.stands (omega (arith, up.one_below))
      ∙ sym (back-suc arena count p b up.address h up.points)

  still-HasParent : (b : BlockIndex) → HasParent arena b → HasParent longer b
  still-HasParent b up = record {
    address = up.address;
    parent = up.parent;
    points = up.points;
    stands = get_elem?-append_left arena (new ∷ []) up.address up.parent up.stands;
    one_below = up.one_below;
  }

  -- A new block may stand behind a tree if it has its parent there, one below it, and its skip
  -- pointer, if any, leads to the ancestor at its skip height.
  pub append-IsLinked :
      (0 < new.height → HasParent arena new)
      → (new.height ≡ 0 → new.pprev ≡ none)
      → ((q : ℕ)
          → new.pskip ≡ some q
          → back longer (new.height - get_skip_height new.height) (length arena) ≡ some q)
      → IsLinked longer
  append-IsLinked up bottom jump = record {
    parent = λ p b h pos. elim (get_elem?-append_cases arena new b p h) [
      | inl (at, same) ↦
          subst (λ (c : BlockIndex). 0 < c.height → HasParent longer c) same
            (λ k. still-HasParent new (up k)) pos
      | inr old ↦ still-HasParent b (linked.parent p b old pos)
    ];
    root = λ p b h z. elim (get_elem?-append_cases arena new b p h) [
      | inl (at, same) ↦ subst (λ (c : BlockIndex). c.height ≡ 0 → c.pprev ≡ none) same bottom z
      | inr old ↦ linked.root p b old z
    ];
    skip = λ p b h q e. elim (get_elem?-append_cases arena new b p h) [
      | inl (at, same) ↦
          subst
            (λ (c : BlockIndex).
              c.pskip ≡ some q → back longer (c.height - get_skip_height c.height) p ≡ some q)
            same
            (subst
              (λ (a : ℕ).
                new.pskip ≡ some q
                → back longer (new.height - get_skip_height new.height) a ≡ some q)
              (sym at) (jump q))
            e
      | inr old ↦
          back-append (b.height - get_skip_height b.height) p b old (omega arith)
          ∙ linked.skip p b old q e
    ];
  }
