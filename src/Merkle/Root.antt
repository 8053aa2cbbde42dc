-- ===== src/Merkle/Root.antt =====
-- The root that ComputeMerkleRoot ends with, against the tree of the leaves row by row.
use btcdemo.Prelude.{
  ℕ, zero, suc, ◌+◌, ◌-◌, ◌*◌, ◌/◌, ◌%◌, ◌≤◌, ◌<◌, ◌≡◌, refl, sym, ap, ap₂, ◌∙◌, min, List, [], ◌∷◌,
  length, get_or, some, ◌==◌, Bool-cases, inl, inr, arith, lt→ltb,
}
use btcdemo.Prelude.Hash.{Hash256, null_hash}
use btcdemo.Merkle.{push_last, parent, pair_up, level_up, front, merkle_loop, compute_merkle_root}

length-push_last :
    (h : Hash256) (hs : List Hash256) → length (push_last (h ∷ hs)) ≡ suc (suc (length hs))
unfolding push_last
length-push_last h [] = refl
length-push_last h (k ∷ hs) = ap suc (length-push_last k hs)

-- The element behind the end is the last one.
get_or-push_last :
    (h : Hash256) (hs : List Hash256) (j : ℕ)
    → j ≤ suc (length hs)
    → get_or (push_last (h ∷ hs)) j null_hash ≡ get_or (h ∷ hs) (min j (length hs)) null_hash
unfolding push_last
get_or-push_last h [] zero small = refl
get_or-push_last h [] (suc zero) small = refl
get_or-push_last h [] (suc (suc j)) small = absurd (omega (arith, small))
get_or-push_last h (k ∷ hs) zero small =
    ap (λ i. get_or (h ∷ k ∷ hs) i null_hash) {x = zero} (omega arith)
get_or-push_last h (k ∷ hs) (suc j) small =
    get_or-push_last k hs j (omega (arith, small))
    ∙ ap (λ i. get_or (h ∷ k ∷ hs) i null_hash) {x = suc (min j (length hs))} (omega arith)

read_past_end :
    (h : Hash256) (hs : List Hash256) (j k : ℕ)
    → j ≤ suc (length hs)
    → min j (length hs) ≡ k
    → get_or (push_last (h ∷ hs)) j null_hash ≡ get_or (h ∷ hs) k null_hash
read_past_end h hs j k small e =
    get_or-push_last h hs j small ∙ ap (λ i. get_or (h ∷ hs) i null_hash) e

-- The number of hashes in a row, by its height above `n` leaves.
unfoldable pub width : ℕ → ℕ → ℕ
width zero n = n
width (suc k) n = (width k n + 1) / 2

width-suc : (k n : ℕ) → width k ((n + 1) / 2) ≡ width (suc k) n
unfolding width
width-suc zero n = refl
width-suc (suc k) n = ap (λ (w : ℕ). (w + 1) / 2) (width-suc k n)

width_pos : (k n : ℕ) → 0 < n → 0 < width k n
unfolding width
width_pos zero n pos = pos
width_pos (suc k) n pos = omega (arith, width_pos k n pos)

-- The height at which the tree has one hash.
pub record IsHeight (d n : ℕ) : Type 0 where
  pub one : width d n ≡ 1
  pub least : (e : ℕ) → e < d → 1 < width e n

module _ (double_sha256 : List ℕ → Hash256) where
  -- The hash at a place of a row: the leaf, or the hash of the two below it, of which the second is
  -- the first again where the row below ends.
  unfoldable pub tree : ℕ → List Hash256 → ℕ → Hash256
  tree zero leaves i = get_or leaves i null_hash
  tree (suc k) leaves i =
      parent double_sha256 (tree k leaves (2 * i))
        (tree k leaves (min (2 * i + 1) (width k (length leaves) - 1)))

  -- What a round makes of `leaves`.
  record IsRow (leaves above : List Hash256) : Type 0 where
    size : length above ≡ (length leaves + 1) / 2
    at :
        (i : ℕ)
        → i < length above
        → get_or above i null_hash
          ≡ parent double_sha256
              (get_or leaves (2 * i) null_hash)
              (get_or leaves (min (2 * i + 1) (length leaves - 1)) null_hash)

  record IsPaired (leaves above : List Hash256) : Type 0 where
    size : length above ≡ length leaves / 2
    at :
        (i : ℕ)
        → i < length above
        → get_or above i null_hash
          ≡ parent double_sha256
              (get_or leaves (2 * i) null_hash)
              (get_or leaves (2 * i + 1) null_hash)

  pair_up-IsPaired :
      (hs : List Hash256)
      → length hs % 2 ≡ 0
      → (above : List Hash256) × (pair_up double_sha256 hs ≡ some above) × IsPaired hs above
  unfolding pair_up
  pair_up-IsPaired [] even =
      ([], refl, record { size = omega arith; at = λ i h. absurd (omega (arith, h)) })
  pair_up-IsPaired (a ∷ []) even = absurd (omega (arith, even))
  pair_up-IsPaired (a ∷ b ∷ hs) even =
      let (above, e, p) = pair_up-IsPaired hs (omega (arith, even)) in
      (
        parent double_sha256 a b ∷ above,
        rw e refl,
        record { size = omega (arith, p.size); at = at p },
      )
    where
      at :
          {above : List Hash256}
          → IsPaired hs above
          → (i : ℕ) → i < suc (length above)
          → get_or (parent double_sha256 a b ∷ above) i null_hash
            ≡ parent double_sha256
                (get_or (a ∷ b ∷ hs) (2 * i) null_hash)
                (get_or (a ∷ b ∷ hs) (2 * i + 1) null_hash)
      at p zero h = refl
      at p (suc i) h =
          p.at i (omega (arith, h))
          ∙ ap₂ (parent double_sha256) (place (suc (suc (2 * i))) (2 * suc i) (omega arith))
              (place (suc (suc (2 * i + 1))) (2 * suc i + 1) (omega arith))
        where
          place :
              (j k : ℕ) → j ≡ k → get_or (a ∷ b ∷ hs) j null_hash ≡ get_or (a ∷ b ∷ hs) k null_hash
          place j k e = ap (λ l. get_or (a ∷ b ∷ hs) l null_hash) e

  level_up-IsRow :
      (h : Hash256) (hs : List Hash256)
      → (above : List Hash256) × (level_up double_sha256 (h ∷ hs) ≡ some above)
        × IsRow (h ∷ hs) above
  unfolding level_up
  level_up-IsRow h hs = elim (Bool-cases (length (h ∷ hs) % 2 == 0)) [
    | inl e ↦ rw e (
        let (above, paired, p) = pair_up-IsPaired (h ∷ hs) (ground (arith, e)) in
        (
          above,
          paired,
          record {
            size = ground (arith, e, p.size);
            at = λ i small.
                p.at i small
                ∙ ap
                    (λ (j : ℕ).
                      parent double_sha256 (get_or (h ∷ hs) (2 * i) null_hash)
                        (get_or (h ∷ hs) j null_hash))
                    (ground (arith, e, p.size, small));
          },
        ))
    | inr e ↦ rw e (
        let longer = length-push_last h hs in
        let (above, paired, p) =
          pair_up-IsPaired (push_last (h ∷ hs)) (ground (arith, e, longer)) in
        (
          above,
          paired,
          record {
            size = ground (arith, e, p.size, longer);
            at = λ i small.
                p.at i small
                ∙ ap₂ (parent double_sha256)
                    (read_past_end h hs (2 * i) (2 * i) (omega (arith, p.size, longer, small))
                      (ground (arith, e, p.size, longer, small)))
                    (read_past_end h hs (2 * i + 1) (min (2 * i + 1) (length (h ∷ hs) - 1))
                      (omega (arith, p.size, longer, small)) (omega arith));
          },
        ))
  ]

  -- A row above the row above is a row above by one more.
  tree-level_up :
      (k : ℕ) (leaves above : List Hash256) (i : ℕ)
      → IsRow leaves above
      → i < width k (length above)
      → tree k above i ≡ tree (suc k) leaves i
  unfolding tree width
  tree-level_up zero leaves above i row small = row.at i small
  tree-level_up (suc k) leaves above i row small =
      let same : width k (length above) ≡ width (suc k) (length leaves) =
        ap (width k) row.size ∙ width-suc k (length leaves) in
      ap₂ (parent double_sha256) (tree-level_up k leaves above (2 * i) row (omega (arith, small))) (
        tree-level_up k leaves above (min (2 * i + 1) (width k (length above) - 1)) row
          (omega (arith, small))
        ∙ ap (λ (w : ℕ). tree (suc k) leaves (min (2 * i + 1) (w - 1))) same)

  merkle_loop-tree :
      (fuel : ℕ) (leaves : List Hash256)
      → 0 < length leaves
      → length leaves < fuel
      → (d : ℕ) × IsHeight d (length leaves)
        × (merkle_loop double_sha256 fuel leaves ≡ some (tree d leaves 0))
  unfolding merkle_loop front width tree
  merkle_loop-tree zero leaves pos enough = absurd (omega (arith, enough))
  merkle_loop-tree (suc fuel) [] pos enough = absurd (omega (arith, pos))
  merkle_loop-tree (suc fuel) (h ∷ []) pos enough =
      (0, record { one = refl; least = λ e small. absurd (omega (arith, small)) }, refl)
  merkle_loop-tree (suc fuel) (h ∷ k ∷ hs) pos enough =
      let leaves = h ∷ k ∷ hs in
      let (above, e, row) = level_up-IsRow h (k ∷ hs) in
      let (d, height, root) =
        merkle_loop-tree fuel above (omega (arith, row.size)) (omega (arith, row.size, enough)) in
      (
        suc d,
        record {
          one = sym (width-suc d (length leaves)) ∙ ap (width d) (sym row.size) ∙ height.one;
          least = least d above row height;
        },
        rw (merkle_loop, lt→ltb 1 (length leaves) (omega arith), e)
            (root ∙ ap some (tree-level_up d leaves above 0 row (omega (arith, height.one)))),
      )
    where
      least :
          (d : ℕ) (above : List Hash256)
          → IsRow (h ∷ k ∷ hs) above
          → IsHeight d (length above)
          → (e : ℕ) → e < suc d
          → 1 < width e (length (h ∷ k ∷ hs))
      least d above row height zero small = omega arith
      least d above row height (suc e) small =
          let below = height.least e (omega (arith, small)) in
          omega (arith, below, ap (width e) row.size, width-suc e (length (h ∷ k ∷ hs)))

  -- ComputeMerkleRoot of one transaction or more ends and reads no missing element; the root is the
  -- top of the tree over the hashes of the transactions, the first row with one hash, where a hash is
  -- that of the two below it, and of the last one twice where a row has an odd number.
  pub compute_merkle_root_lem :
      (leaves : List Hash256)
      → 0 < length leaves
      → (d : ℕ) × IsHeight d (length leaves)
        × (compute_merkle_root double_sha256 leaves ≡ some (tree d leaves 0))
  unfolding compute_merkle_root
  compute_merkle_root_lem leaves pos = merkle_loop-tree (length leaves + 1) leaves pos (omega arith)
