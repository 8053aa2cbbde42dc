-- ===== src/Chain.antt =====
-- class Chain of chain/include/chain_state.h and chain/src/chain_state.cpp: the active chain.
-- `none` in the chain is `nullptr`; a result `none` is undefined behaviour or a failed assertion.
pub mod Path
pub mod Fork
pub mod Locator
use btcdemo.Prelude.{
  ℕ, zero, suc, ◌+◌, ◌-◌, ◌*◌, ◌%◌, ◌^◌, Bool, true, false, List, [], ◌∷◌, ◌++◌, length, set,
  get_or, get_elem?, Option, none, some, ltb, leb, ◌==◌, if◌then◌else◌,
}
use btcdemo.Prelude.Hash.{Hash256}
use btcdemo.BlockIndex.{Pointer, BlockIndex, Arena, get_ancestor}

abbrev pub ActiveChain : Type 0
ActiveChain = List Pointer

-- `resize` of a vector of pointers.
unfoldable pub resize : ℕ → ActiveChain → ActiveChain
resize zero xs = []
resize (suc n) [] = none ∷ resize n []
resize (suc n) (x ∷ xs) = x ∷ resize n xs

abbrev pub points_to : Pointer → ℕ → Bool
points_to none p = false
points_to (some q) p = q == p

unfoldable pub get_block_index : ActiveChain → ℕ → Pointer
get_block_index chain height = if leb (length chain) height then none else get_or chain height none

unfoldable pub genesis : ActiveChain → Pointer
genesis chain = if ltb 0 (length chain) then get_or chain 0 none else none

unfoldable pub tip : ActiveChain → Pointer
tip chain = if ltb 0 (length chain) then get_or chain (length chain - 1) none else none

-- `operator==`, for two chains that are not empty.
pointer_eq : Pointer → Pointer → Bool
pointer_eq none none = true
pointer_eq none (some q) = false
pointer_eq (some p) none = false
pointer_eq (some p) (some q) = p == q

unfoldable pub chain_eq : ActiveChain → ActiveChain → Bool
unfolding pointer_eq
chain_eq a b =
    if length a == length b
    then pointer_eq (get_or a (length a - 1) none) (get_or b (length b - 1) none)
    else false

-- `Height` is `size() - 1` of a size_t, as uint32_t.
unfoldable pub chain_height : ActiveChain → ℕ
chain_height chain = (length chain + (2 ^ 64 - 1)) % 2 ^ 64 % 2 ^ 32

-- The block `b` at the address `p`.
unfoldable pub is_exist : ActiveChain → ℕ → BlockIndex → Bool
is_exist chain p b = points_to (get_block_index chain b.height) p

unfoldable pub next : ActiveChain → BlockIndex → Pointer
next chain b = get_block_index chain (b.height + 1)

module _ (arena : Arena) where
  -- The loop, on fuel: it goes to the parent on every round.
  unfoldable pub set_tip_loop : ℕ → Pointer → ActiveChain → Option ActiveChain
  set_tip_loop fuel none chain = some chain
  set_tip_loop zero (some p) chain = none
  set_tip_loop (suc fuel) (some p) chain = elim (get_elem? arena p) [
    | none ↦ none
    | some b ↦
        let rest = set_tip_loop fuel b.pprev (set chain b.height (some p)) in
        if leb (length chain) b.height
        then none
        else if points_to (get_or chain b.height none) p
        then some chain
        else rest
  ]

  unfoldable pub set_tip : Pointer → ActiveChain → Option ActiveChain
  set_tip none chain = some []
  set_tip (some p) chain = elim (get_elem? arena p) [
    | none ↦ none
    | some b ↦ set_tip_loop (b.height + 1) (some p) (resize (b.height + 1) chain)
  ]

  unfoldable pub find_fork_loop : ActiveChain → ℕ → Pointer → Option Pointer
  find_fork_loop chain fuel none = some none
  find_fork_loop chain zero (some p) = none
  find_fork_loop chain (suc fuel) (some p) = elim (get_elem? arena p) [
    | none ↦ none
    | some b ↦
        let rest = find_fork_loop chain fuel b.pprev in
        if is_exist chain p b then some (some p) else rest
  ]

  unfoldable pub find_fork : ActiveChain → Pointer → Option Pointer
  find_fork chain none = some none
  find_fork chain (some p) = elim (get_elem? arena p) [
    | none ↦ none
    | some b ↦
        if ltb (chain_height chain) b.height
        then elim (get_ancestor arena (chain_height chain) p) [
          | none ↦ none
          | some pindex ↦ find_fork_loop chain (b.height + 1) pindex
        ]
        else find_fork_loop chain (b.height + 1) (some p)
  ]

  -- The loop of GetLocator, on fuel; the caller's `out` is not null.
  unfoldable pub get_locator_loop :
      ActiveChain → ℕ → ℕ → List Hash256 → Pointer → Option (List Hash256)
  get_locator_loop chain fuel step out none = some out
  get_locator_loop chain zero step out (some p) = none
  get_locator_loop chain (suc fuel) step out (some p) = elim (get_elem? arena p) [
    | none ↦ none
    | some b ↦
        let out' = out ++ (b.block_hash ∷ []) in
        let step' = if ltb 10 (length out') then step * 2 else step in
        let rest = get_locator_loop chain fuel step' out' in
        if b.height == 0
        then some out'
        else if is_exist chain p b
        then rest (get_block_index chain (b.height - step))
        else elim (get_ancestor arena (b.height - step) p) [
          | none ↦ none
          | some pindex ↦ rest pindex
        ]
  ]

  abbrev pub or_tip : ActiveChain → Pointer → Pointer
  or_tip chain none = tip chain
  or_tip chain (some p) = some p

  unfoldable pub get_locator : ActiveChain → Pointer → Option (List Hash256)
  get_locator chain pindex = elim (or_tip chain pindex) [
    | none ↦ some []
    | some p ↦ elim (get_elem? arena p) [
      | none ↦ none
      | some b ↦ get_locator_loop chain (b.height + 1) 1 [] (some p)
    ]
  ]
