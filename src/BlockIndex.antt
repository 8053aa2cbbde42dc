-- ===== src/BlockIndex.antt =====
-- chain/include/block_index.h and chain/src/block_index.cpp: the tree of blocks.
-- The objects that `new BlockIndex` makes stand in an arena, a list; a pointer is an index into it
-- and `nullptr` is `none`. Heights are below 2 ^ 31, so their conversions to int change nothing.
-- A result `none` is a failed assertion or a pointer that leads out of the arena.
pub mod Status
pub mod Work
pub mod Skip
pub mod Ancestor
use btcdemo.Prelude.{
  ℕ, zero, suc, ◌+◌, ◌-◌, ◌*◌, ◌/◌, ◌%◌, ◌^◌, bit_and, bit_or, Bool, true, false, not, ◌&&◌, ◌||◌,
  List, Option, none, some, get_elem?, ltb, leb, ◌==◌, if◌then◌else◌,
}
use btcdemo.Prelude.Hash.{Hash256, null_hash}
use btcdemo.Header.{BlockHeader}

-- enum BlockStatus
abbrev pub block_valid_tree : ℕ
block_valid_tree = 2

abbrev pub block_valid_transactions : ℕ
block_valid_transactions = 3

-- kBlockValidMask is 1 | 2 | 3 | 4 | 5.
abbrev pub block_valid_mask : ℕ
block_valid_mask = 7

abbrev pub block_have_data : ℕ
block_have_data = 8

-- kBlockFailedMask is 32 | 64.
abbrev pub block_failed_mask : ℕ
block_failed_mask = 96

abbrev pub Pointer : Type 0
Pointer = Option ℕ

-- `sequence_id_` is signed; it only takes values from 0 up.
pub record BlockIndex : Type 0 where
  pub header : BlockHeader
  pub block_hash : Hash256
  pub pprev : Pointer
  pub pskip : Pointer
  pub height : ℕ
  pub chain_work : ℕ
  pub tx_num : ℕ
  pub chain_tx_num : ℕ
  pub status : ℕ
  pub sequence_id : ℕ

abbrev pub Arena : Type 0
Arena = List BlockIndex

-- The default values of the members.
unfoldable pub new_block_index : BlockHeader → BlockIndex
new_block_index header = record {
  header = header;
  block_hash = null_hash;
  pprev = none;
  pskip = none;
  height = 0;
  chain_work = 0;
  tx_num = 0;
  chain_tx_num = 0;
  status = 0;
  sequence_id = 0;
}

-- `assert(!(upto & kBlockValidMask))`
unfoldable pub is_valid : ℕ → BlockIndex → Option Bool
is_valid upto b =
    if not (bit_and upto block_valid_mask == 0)
    then none
    else if not (bit_and b.status block_failed_mask == 0)
    then some false
    else some (leb upto (bit_and b.status block_valid_mask))

-- `assert(!(up_to & ~kBlockValidMask))`; clearing the mask's bits is taking them away.
unfoldable pub raise_validity : ℕ → BlockIndex → Option (Bool × BlockIndex)
raise_validity up_to b =
    let level = bit_and b.status block_valid_mask in
    if not (bit_and up_to (2 ^ 32 - 1 - block_valid_mask) == 0)
    then none
    else if not (bit_and b.status block_failed_mask == 0)
    then some (false, b)
    else if ltb level up_to
    then some (
      true,
      record b { status = bit_or up_to (bit_and b.status (2 ^ 32 - 1 - block_valid_mask)) },
    )
    else some (false, b)

abbrev pub invert_lowest_one : ℕ → ℕ
invert_lowest_one n = bit_and n (n - 1)

unfoldable pub get_skip_height : ℕ → ℕ
get_skip_height height =
    if ltb height 2
    then 0
    else if not (bit_and height 1 == 0)
    then invert_lowest_one (invert_lowest_one (height - 1)) + 1
    else invert_lowest_one height

module _ (arena : Arena) where
  -- The test of the loop of GetAncestor, for a `pskip` that is not null.
  abbrev pub follow_skip : ℕ → ℕ → Bool
  follow_skip height height_walk =
      let height_skip = get_skip_height height_walk in
      let height_skip_prev = get_skip_height (height_walk - 1) in
      (height_skip == height)
      || (ltb height height_skip
          && not (ltb height_skip_prev (height_skip - 2) && leb height height_skip_prev))

  abbrev pub walk_to : Pointer → (ℕ → Option Pointer) → Option Pointer
  walk_to none next = none
  walk_to (some p) next = next p

  -- The loop, on fuel: `height_walk` falls on every round.
  unfoldable pub get_ancestor_loop : ℕ → ℕ → ℕ → ℕ → Option Pointer
  get_ancestor_loop zero height p height_walk =
      if ltb height height_walk then none else some (some p)
  get_ancestor_loop (suc fuel) height p height_walk =
      let by_prev = λ (q : ℕ). get_ancestor_loop fuel height q (height_walk - 1) in
      let by_skip = λ (q : ℕ). get_ancestor_loop fuel height q (get_skip_height height_walk) in
      if ltb height height_walk
      then elim (get_elem? arena p) [
        | none ↦ none
        | some b ↦ elim b.pskip [
          | none ↦ walk_to b.pprev by_prev
          | some q ↦ if follow_skip height height_walk then by_skip q else walk_to b.pprev by_prev
        ]
      ]
      else some (some p)

  -- `height < 0` never holds of a size_t.
  unfoldable pub get_ancestor : ℕ → ℕ → Option Pointer
  unfolding get_ancestor_loop
  get_ancestor height p = elim (get_elem? arena p) [
    | none ↦ none
    | some b ↦
        if ltb b.height height then some none else get_ancestor_loop b.height height p b.height
  ]

  -- `new_block` is the object whose `pskip_` is set.
  unfoldable pub build_skip : BlockIndex → Option BlockIndex
  build_skip new_block = elim new_block.pprev [
    | none ↦ some new_block
    | some p ↦ elim (get_ancestor (get_skip_height new_block.height) p) [
      | none ↦ none
      | some skip ↦ some (record new_block { pskip = skip })
    ]
  ]

-- BlockIndexWorkComparator; of two objects the one allocated first has the lower address.
unfoldable pub work_less : BlockIndex → ℕ → BlockIndex → ℕ → Bool
work_less a pa b pb =
    if ltb b.chain_work a.chain_work
    then false
    else if ltb a.chain_work b.chain_work
    then true
    else if ltb a.sequence_id b.sequence_id
    then false
    else if ltb b.sequence_id a.sequence_id
    then true
    else if ltb pa pb
    then false
    else if ltb pb pa
    then true
    else false
