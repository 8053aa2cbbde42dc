-- ===== src/ChainState/Runs.antt =====
-- Two blocks, the second below the first, with a stand-in for the hash.
use btcdemo.Prelude.{
  ℕ, zero, suc, ◌+◌, ◌-◌, ◌≤◌, ◌≡◌, ◌≢◌, refl, ap, ltb, true, false, if◌then◌else◌, List, [], ◌∷◌,
  map, replicate, none, some, get_elem?, ◌⊎◌, arith,
}
use btcdemo.Prelude.Hash.{Hash256, null_hash}
use btcdemo.Header.{BlockHeader, get_hash, get_block_proof}
use btcdemo.Header.Proof.{get_block_proof-some}
use btcdemo.BlockIndex.{Pointer, BlockIndex, Arena, get_ancestor, work_less, new_block_index}
use btcdemo.BlockIndex.Work.{work_less_order}
use btcdemo.BlockIndex.Ancestor.{back, IsLinked, get_ancestor-back}
use btcdemo.Chain.{ActiveChain, set_tip, find_fork, get_locator}
use btcdemo.Chain.Path.{IsPath, HasTip, IsPath-intro, set_tip-HasTip}
use btcdemo.Chain.Fork.{IsFork, find_fork-IsFork}
use btcdemo.Chain.Locator.{hash_of, locator_heights, get_locator_lem}
use btcdemo.ChainState.{ChainState, empty_state, find, add_to_block_index, load_genesis_block}
use btcdemo.ChainState.Made.{rootless, child, rootless-IsLinked, child-IsLinked, skip_to}
use btcdemo.ChainState.Add.{IsValidState, IsAdded, add_to_block_index-IsAdded}
use btcdemo.ChainState.Genesis.{loaded, load_genesis_block_lem}

abbrev ones : List ℕ → Hash256
ones bytes = replicate 32 1

-- `bits` stays zero, so the target and the proof are zero.
abbrev header : BlockHeader
header = record {
  version = 1;
  prev_block_hash = null_hash;
  merkle_root_hash = null_hash;
  time = 7;
  bits = 0;
  nonce = 0;
}

empty-IsLinked : IsLinked []
empty-IsLinked = record {
  parent = λ p b h pos. absurd cc;
  root = λ p b h z. absurd cc;
  skip = λ p b h q e. absurd cc;
}

empty-IsPath : (arena : Arena) → IsPath arena []
empty-IsPath arena = record { level = λ j q e. absurd cc; ancestors = λ j q e i le. absurd cc }

empty-IsValidState : IsValidState empty_state
unfolding find
empty-IsValidState = record {
  linked = empty-IsLinked;
  mapped = λ hash p e. absurd cc;
  path = empty-IsPath [];
}

differs : get_hash ones header ≢ header.prev_block_hash
unfolding get_hash
differs e = absurd (omega (arith, ap (λ (xs : List ℕ). length_of_first xs) e))
  where
    length_of_first : List ℕ → ℕ
    length_of_first [] = 0
    length_of_first (x ∷ xs) = x

add_to_block_index-IsAdded_example :
    (p : ℕ) × (st' : ChainState) × (add_to_block_index ones header empty_state ≡ some (p, st'))
    × IsAdded (get_hash ones header) header empty_state p st'
unfolding find
add_to_block_index-IsAdded_example =
    add_to_block_index-IsAdded ones header empty_state empty-IsValidState refl differs

load_genesis_block_lem_example :
    (proof : ℕ) × (get_block_proof header ≡ some proof)
    × (load_genesis_block ones header 1 empty_state
        ≡ some (true, loaded (get_hash ones header) header 1 proof))
load_genesis_block_lem_example = load_genesis_block_lem ones header 1 differs

-- The first block, and one below it.
abbrev proof : ℕ
proof = (get_block_proof-some header).0

abbrev first_block : BlockIndex
first_block = rootless null_hash header proof

abbrev one_block : Arena
one_block = first_block ∷ []

one_block-IsLinked : IsLinked one_block
one_block-IsLinked =
    rootless-IsLinked null_hash header empty-IsLinked proof (get_block_proof-some header).1

abbrev second_block : BlockIndex
second_block =
    child (ones []) header 0 first_block
      (skip_to (ones []) header one_block-IsLinked proof (get_block_proof-some header).1 0
        first_block refl)
      proof

abbrev two_blocks : Arena
two_blocks = first_block ∷ second_block ∷ []

two_blocks-IsLinked : IsLinked two_blocks
two_blocks-IsLinked =
    child-IsLinked (ones []) header one_block-IsLinked proof (get_block_proof-some header).1 0
      first_block refl

get_ancestor-back_example :
    get_ancestor two_blocks 0 1
    ≡ some (if ltb second_block.height 0 then none else back two_blocks (second_block.height - 0) 1)
get_ancestor-back_example = get_ancestor-back two_blocks-IsLinked 0 1 second_block refl

set_tip-HasTip_example :
    (result : ActiveChain) × (set_tip two_blocks (some 1) [] ≡ some result)
    × HasTip two_blocks 1 second_block result
set_tip-HasTip_example =
    set_tip-HasTip two_blocks-IsLinked 1 second_block [] refl (empty-IsPath two_blocks)

abbrev both : ActiveChain
both = some 0 ∷ some 1 ∷ []

both_path : (i : ℕ) → i ≤ 1 → get_elem? both i ≡ some (back two_blocks (1 - i) 1)
unfolding back new_block_index
both_path zero le = refl
both_path (suc zero) le = refl
both_path (suc (suc i)) le = absurd (omega arith)

both-IsPath : IsPath two_blocks both
unfolding new_block_index
both-IsPath = IsPath-intro two_blocks-IsLinked 1 second_block both refl refl both_path

find_fork-IsFork_example :
    (r : Pointer) × (find_fork two_blocks both (some 1) ≡ some r)
    × IsFork two_blocks both 1 second_block.height r
find_fork-IsFork_example =
    find_fork-IsFork two_blocks-IsLinked both 1 second_block refl (omega arith) (omega arith)

get_locator_lem_example :
    get_locator two_blocks both (some 1)
    ≡ some (
        map
          (λ i. hash_of two_blocks (back two_blocks (second_block.height - i) 1))
          (locator_heights (second_block.height + 1) 1 0 second_block.height))
get_locator_lem_example = get_locator_lem two_blocks-IsLinked both both-IsPath 1 second_block refl

work_less_order_example :
    (work_less first_block 0 first_block 0 ≡ false)
    × (work_less first_block 0 second_block 1 ≡ true
        → work_less second_block 1 second_block 2 ≡ true
        → work_less first_block 0 second_block 2 ≡ true)
    × (◌≢◌ {A = ℕ} 0 1
        → (work_less first_block 0 second_block 1 ≡ true)
          ⊎ (work_less second_block 1 first_block 0 ≡ true))
work_less_order_example = work_less_order first_block 0 second_block 1 second_block 2
