-- ===== src/Merkle/Runs.antt =====
-- Three leaves, with a stand-in for the hash.
use btcdemo.Prelude.{ℕ, ◌≡◌, List, [], ◌∷◌, length, some, arith, replicate}
use btcdemo.Prelude.Hash.{Hash256}
use btcdemo.Merkle.{compute_merkle_root}
use btcdemo.Merkle.Root.{IsHeight, tree, compute_merkle_root_lem}

abbrev hash : List ℕ → Hash256
hash text = replicate 32 (length text)

abbrev leaves : List Hash256
leaves = (1 ∷ []) ∷ (2 ∷ []) ∷ (3 ∷ []) ∷ []

compute_merkle_root_lem_example :
    (d : ℕ) × IsHeight d (length leaves)
    × (compute_merkle_root hash leaves ≡ some (tree hash d leaves 0))
compute_merkle_root_lem_example = compute_merkle_root_lem hash leaves (omega arith)
