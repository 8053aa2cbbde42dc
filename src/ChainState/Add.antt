-- ===== src/ChainState/Add.antt =====
-- AddToBlockIndex keeps the tree, the hash table and the active chain sound.
use btcdemo.Prelude.{
  ℕ, ◌+◌, ◌-◌, ◌%◌, ◌^◌, ◌≡◌, ◌≢◌, refl, sym, ap, ◌∙◌, subst, Bool, false, List, [], ◌∷◌, ◌++◌,
  length, Option, none, some, Bool-cases, Option-cases, if◌then◌else◌, inl, inr, arith,
}
use btcdemo.Prelude.Hash.{Hash256, bytes_eq, bytes_eq_iff, bytes_eq_refl}
use btcdemo.Header.{BlockHeader, get_hash, get_block_proof}
use btcdemo.Header.Proof.{get_block_proof-some}
use btcdemo.BlockIndex.{Pointer, BlockIndex, Arena, new_block_index}
use btcdemo.BlockIndex.Ancestor.{Stands, IsLinked}
use btcdemo.Chain.{ActiveChain}
use btcdemo.Chain.Path.{IsPath}
use btcdemo.ChainState.{ChainState, find, make_block, store_block, work_at, add_to_block_index}
use btcdemo.ChainState.Valid.{get_elem?-append_left, get_elem?_last, back-append}
use btcdemo.ChainState.Made.{
  rootless, child, skip_to, make_block-rootless, rootless-IsLinked, make_block-child,
  child-IsLinked,
}

-- The blocks are linked, a hash of the table leads to a block with that hash, and the active chain is
-- a path.
pub record IsValidState (st : ChainState) : Type 0 where
  pub linked : IsLinked st.arena
  pub mapped :
      (hash : Hash256) (p : ℕ)
      → find st.map_block_index hash ≡ some p
      → (b : BlockIndex) × Stands st.arena p b × (b.block_hash ≡ hash)
  pub path : IsPath st.arena st.active_chain

abbrev or_entry : Pointer → Hash256 → ℕ → Hash256 → Pointer
or_entry none k p h = if bytes_eq k h then some p else none
or_entry (some q) k p h = some q

find-append :
    (xs : List (Hash256 × ℕ)) (k : Hash256) (p : ℕ) (h : Hash256)
    → find (xs ++ ((k, p) ∷ [])) h ≡ or_entry (find xs h) k p h
unfolding find
find-append [] k p h = refl
find-append (x ∷ xs) k p h = elim (Bool-cases (bytes_eq x.0 h)) [
  | inl f ↦ rw (find, f) refl
  | inr f ↦ rw (find, f) (find-append xs k p h)
]

some_inj : {a b : ℕ} → some a ≡ some b → a ≡ b
some_inj e = cc

none-some : {a : ℕ} → ¬ (Option.none ≡ some a)
none-some e = cc

pub apart : (k h : Hash256) → k ≢ h → bytes_eq k h ≡ false
apart k h ne = elim (Bool-cases (bytes_eq k h)) [
  | inl e ↦ absurd (ne ((bytes_eq_iff k h).0 e))
  | inr e ↦ e
]

-- What AddToBlockIndex did when the hash was not in the table.
pub record IsAdded (hash : Hash256) (header : BlockHeader) (st : ChainState) (p : ℕ)
    (st' : ChainState) : Type 0 where
  pub block : BlockIndex
  pub proof : ℕ
  pub proves : get_block_proof header ≡ some proof
  pub stands : Stands st'.arena p block
  pub older : (q : ℕ) (b : BlockIndex) → Stands st.arena q b → Stands st'.arena q b
  pub found : find st'.map_block_index hash ≡ some p
  pub header_is : block.header ≡ header
  pub parent_is : block.pprev ≡ find st.map_block_index header.prev_block_hash
  pub work_is : block.chain_work ≡ (work_at st.arena block.pprev + proof) % 2 ^ 256
  pub valid : IsValidState st'

-- The chain keeps to its path when a block is put behind the others.
IsPath-append :
    {arena : Arena} (linked : IsLinked arena) (new : BlockIndex) (chain : ActiveChain)
    → IsPath arena chain
    → IsPath (arena ++ (new ∷ [])) chain
IsPath-append {arena} linked new chain path = record {
  level = λ j q e.
      let (b, stands, at) = path.level j q e in
      (b, get_elem?-append_left arena (new ∷ []) q b stands, at);
  ancestors = λ j q e i le.
      let (b, stands, at) = path.level j q e in
      path.ancestors j q e i le
      ∙ ap some (sym (back-append linked new (j - i) q b stands (omega (arith, at))));
}

module _ (hash : Hash256) (header : BlockHeader) (st : ChainState) (valid : IsValidState st)
    (new : find st.map_block_index hash ≡ none) where
  abbrev stored : BlockIndex → ChainState
  stored b = store_block st hash b

  found_new : (b : BlockIndex) → find (stored b).map_block_index hash ≡ some (length st.arena)
  found_new b =
      find-append st.map_block_index hash (length st.arena) hash
      ∙ ap (λ (v : Pointer). or_entry v hash (length st.arena) hash) new
      ∙ ap (λ (v : Bool). if v then some (length st.arena) else none) (bytes_eq_refl hash)

  abbrev Named : BlockIndex → Hash256 → ℕ → Type 0
  Named b h p = (b' : BlockIndex) × Stands (st.arena ++ (b ∷ [])) p b' × (b'.block_hash ≡ h)

  still_mapped :
      (b : BlockIndex)
      → b.block_hash ≡ hash
      → (h : Hash256) (p : ℕ) → find (stored b).map_block_index h ≡ some p
      → Named b h p
  still_mapped b named h p e =
      let split = sym (find-append st.map_block_index hash (length st.arena) h) ∙ e in
      elim (Option-cases (find st.map_block_index h)) [
        | inr (q, f) ↦
            let same : q ≡ p =
              some_inj
                (ap (λ (v : Pointer). or_entry v hash (length st.arena) h) (sym f) ∙ split) in
            let (b', stands, name) = valid.mapped h q f in
            subst (Named b h) same (b', get_elem?-append_left st.arena (b ∷ []) q b' stands, name)
        | inl f ↦
            let fresh : (if bytes_eq hash h then some (length st.arena) else none) ≡ some p =
              ap (λ (v : Pointer). or_entry v hash (length st.arena) h) (sym f) ∙ split in
            elim (Bool-cases (bytes_eq hash h)) [
              | inl g ↦
                  let at = some_inj (
                    ap (λ (v : Bool). if v then some (length st.arena) else none) (sym g)
                    ∙ fresh) in
                  subst (Named b h) at
                    (b, get_elem?_last st.arena b, named ∙ (bytes_eq_iff hash h).0 g)
              | inr g ↦ absurd (
                  none-some
                    (ap (λ (v : Bool). if v then some (length st.arena) else none) (sym g) ∙ fresh))
            ]
      ]

  stored-IsValidState :
      (b : BlockIndex)
      → b.block_hash ≡ hash
      → IsLinked (st.arena ++ (b ∷ []))
      → IsValidState (stored b)
  stored-IsValidState b named linked = record {
    linked = linked;
    mapped = still_mapped b named;
    path = IsPath-append valid.linked b st.active_chain valid.path;
  }

  added :
      (b : BlockIndex) (proof : ℕ)
      → get_block_proof header ≡ some proof
      → b.block_hash ≡ hash
      → b.header ≡ header
      → b.pprev ≡ find st.map_block_index header.prev_block_hash
      → b.chain_work ≡ (work_at st.arena b.pprev + proof) % 2 ^ 256
      → IsLinked (st.arena ++ (b ∷ []))
      → IsAdded hash header st (length st.arena) (stored b)
  added b proof proves named headed parent work linked = record {
    block = b;
    proof = proof;
    proves = proves;
    stands = get_elem?_last st.arena b;
    older = λ q c h. get_elem?-append_left st.arena (b ∷ []) q c h;
    found = found_new b;
    header_is = headed;
    parent_is = parent;
    work_is = work;
    valid = stored-IsValidState b named linked;
  }

  looked_up :
      hash ≢ header.prev_block_hash
      → find (st.map_block_index ++ ((hash, length st.arena) ∷ [])) header.prev_block_hash
        ≡ find st.map_block_index header.prev_block_hash
  looked_up ne = elim (Option-cases (find st.map_block_index header.prev_block_hash)) [
    | inl f ↦
        find-append st.map_block_index hash (length st.arena) header.prev_block_hash
        ∙ ap (λ (v : Pointer). or_entry v hash (length st.arena) header.prev_block_hash) f
        ∙ ap (λ (v : Bool). if v then some (length st.arena) else none)
            (apart hash header.prev_block_hash ne)
        ∙ sym f
    | inr (q, f) ↦
        find-append st.map_block_index hash (length st.arena) header.prev_block_hash
        ∙ ap (λ (v : Pointer). or_entry v hash (length st.arena) header.prev_block_hash) f
        ∙ sym f
  ]

  made :
      (b : BlockIndex) × (make_block st.arena
          (find st.map_block_index header.prev_block_hash)
          hash
          header
        ≡ some b)
      × IsAdded hash header st (length st.arena) (stored b)
  unfolding new_block_index
  made =
      let (proof, e) = get_block_proof-some header in
      elim (Option-cases (find st.map_block_index header.prev_block_hash)) [
        | inl f ↦
            let b = rootless hash header proof in
            (
              b,
              ap (λ (v : Pointer). make_block st.arena v hash header) f
                  ∙ make_block-rootless hash header valid.linked proof e,
              added b proof e refl refl (sym f) refl
                  (rootless-IsLinked hash header valid.linked proof e),
            )
        | inr (q, f) ↦
            let (c, at_q, _) = valid.mapped header.prev_block_hash q f in
            let b =
              child hash header q c (skip_to hash header valid.linked proof e q c at_q) proof in
            (
              b,
              ap (λ (v : Pointer). make_block st.arena v hash header) f
                  ∙ make_block-child hash header valid.linked proof e q c at_q,
              added b proof e refl refl (sym f)
                  (ap (λ (w : ℕ). (w + proof) % 2 ^ 256) (sym (rw (work_at, at_q) refl)))
                  (child-IsLinked hash header valid.linked proof e q c at_q),
            )
      ]

module _ (double_sha256 : List ℕ → Hash256) (header : BlockHeader) (st : ChainState)
    (valid : IsValidState st) where
  -- On a sound state, AddToBlockIndex returns for every header whose hash the table does not have and
  -- is not its own previous hash. The new block then has the header, is found by its hash, has the
  -- block that the table has for the previous hash as its parent and its work added to the parent's;
  -- no older block is changed, and the state is sound again.
  pub add_to_block_index-IsAdded :
      let hash = get_hash double_sha256 header in
      find st.map_block_index hash ≡ none
      → hash ≢ header.prev_block_hash
      → (p : ℕ) × (st' : ChainState) × (add_to_block_index double_sha256 header st ≡ some (p, st'))
        × IsAdded hash header st p st'
  unfolding add_to_block_index
  add_to_block_index-IsAdded new ne =
      let hash = get_hash double_sha256 header in
      let (b, e, is_added) = made hash header st valid new in
      (
        length st.arena,
        stored hash header st valid new b,
        rw (add_to_block_index, new, looked_up hash header st valid new ne, e) refl,
        is_added,
      )
