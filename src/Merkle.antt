-- ===== src/Merkle.antt =====
-- Block::ComputeMerkleRoot of consensus/src/block.cpp, from the hashes of the transactions on.
-- The double SHA-256 of a text is a parameter; `none` is undefined behaviour: the
-- `front` of an empty vector, or an element behind the end.
pub mod Root
mod Runs
use btcdemo.Prelude.{
  ℕ, zero, suc, ◌+◌, ◌%◌, Bool, true, false, not, List, [], ◌∷◌, ◌++◌, length, Option, none, some,
  ltb, ◌==◌, if◌then◌else◌,
}
use btcdemo.Prelude.Hash.{Hash256}
use btcdemo.Hex.{encode_hex}

unfoldable pub reversed : List ℕ → List ℕ
reversed [] = []
reversed (x ∷ xs) = reversed xs ++ (x ∷ [])

-- `leaves.push_back(leaves.back())`
unfoldable pub push_last : List Hash256 → List Hash256
push_last [] = []
push_last (h ∷ []) = h ∷ h ∷ []
push_last (h ∷ k ∷ hs) = h ∷ push_last (k ∷ hs)

module _ (double_sha256 : List ℕ → Hash256) where
  unfoldable pub parent : Hash256 → Hash256 → Hash256
  parent a b = double_sha256 (encode_hex false (reversed a) ++ encode_hex false (reversed b))

  -- The loop by two; of a last leaf without a second one, `it[1]` is behind the end.
  unfoldable pub pair_up : List Hash256 → Option (List Hash256)
  pair_up [] = some []
  pair_up (a ∷ []) = none
  pair_up (a ∷ b ∷ hs) = elim (pair_up hs) [ none ↦ none | some above ↦ some (parent a b ∷ above) ]

  unfoldable pub level_up : List Hash256 → Option (List Hash256)
  level_up leaves = pair_up (if length leaves % 2 == 0 then leaves else push_last leaves)

  unfoldable pub front : List Hash256 → Option Hash256
  front [] = none
  front (h ∷ hs) = some h

  -- On fuel: every round leaves fewer leaves.
  unfoldable pub merkle_loop : ℕ → List Hash256 → Option Hash256
  merkle_loop zero leaves = none
  merkle_loop (suc fuel) leaves =
      let more : Option Hash256 = (elim (level_up leaves) [
        | none ↦ none
        | some above ↦ merkle_loop fuel above
      ]) in
      if ltb 1 (length leaves) then more else front leaves

  unfoldable pub compute_merkle_root : List Hash256 → Option Hash256
  compute_merkle_root leaves = merkle_loop (length leaves + 1) leaves
