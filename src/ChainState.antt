-- ===== src/ChainState.antt =====
-- class ChainState of chain/include/chain_state.h and chain/src/chain_state.cpp: the tree of all
-- known blocks with its hash table, and the active chain. Locks and logging change nothing here.
-- `none` is a failed assertion or undefined behaviour. The double SHA-256 is a parameter.
pub mod Valid
pub mod Made
pub mod Add
pub mod Genesis
mod Runs
use btcdemo.Prelude.{
  ℕ, zero, suc, ◌+◌, ◌%◌, ◌^◌, bit_or, Bool, true, false, not, List, [], ◌∷◌, ◌++◌, length, set,
  get_elem?, Option, none, some, ltb, ◌==◌, if◌then◌else◌,
}
use btcdemo.Prelude.Hash.{Hash256, bytes_eq}
use btcdemo.Header.{BlockHeader, get_hash, get_block_proof}
use btcdemo.BlockIndex.{
  Pointer, BlockIndex, Arena, new_block_index, raise_validity, build_skip, work_less,
  block_valid_tree, block_valid_transactions, block_have_data,
}
use btcdemo.Chain.{ActiveChain, tip, set_tip}

-- `block_sequence_id` is the static variable of ReceivedBlockTransactions, from 1 on. The two sets
-- are lists, `set_block_index_candidates` in the order of its comparator.
pub record ChainState : Type 0 where
  pub arena : Arena
  pub active_chain : ActiveChain
  pub map_block_index : List (Hash256 × ℕ)
  pub set_dirty_block_index : List ℕ
  pub set_block_index_candidates : List ℕ
  pub pindex_best_header : Pointer
  pub block_sequence_id : ℕ

abbrev pub empty_state : ChainState
empty_state = record {
  arena = [];
  active_chain = [];
  map_block_index = [];
  set_dirty_block_index = [];
  set_block_index_candidates = [];
  pindex_best_header = none;
  block_sequence_id = 1;
}

-- `map_block_index_.find`
unfoldable pub find : List (Hash256 × ℕ) → Hash256 → Pointer
find [] hash = none
find (entry ∷ entries) hash = if bytes_eq entry.0 hash then some entry.1 else find entries hash

unfoldable pub insert_dirty : ℕ → List ℕ → List ℕ
insert_dirty p [] = p ∷ []
insert_dirty p (q ∷ qs) = if q == p then q ∷ qs else q ∷ insert_dirty p qs

-- The members that depend on the parent: pprev_, height_ and pskip_. The new object stands behind
-- the others all the time.
unfoldable pub link_to : Arena → Pointer → BlockIndex → Option BlockIndex
link_to arena none b = some b
link_to arena (some prev) b = elim (get_elem? (arena ++ (b ∷ [])) prev) [
  | none ↦ none
  | some parent ↦
      let linked = record b { pprev = some prev; height = parent.height + 1 } in
      build_skip (arena ++ (linked ∷ [])) linked
]

-- `pprev() ? pprev()->chain_work() : 0`
abbrev pub work_at : Arena → Pointer → ℕ
work_at arena none = 0
work_at arena (some p) = elim (get_elem? arena p) [ none ↦ 0 | some b ↦ b.chain_work ]

abbrev pub weigh : Arena → BlockHeader → BlockIndex → Option BlockIndex
weigh arena header b = elim (get_block_proof header) [
  | none ↦ none
  | some proof ↦
      some (record b { chain_work = (work_at (arena ++ (b ∷ [])) b.pprev + proof) % 2 ^ 256 })
]

abbrev pub hashed_block : Hash256 → BlockHeader → BlockIndex
hashed_block hash header = record (new_block_index header) { sequence_id = 0; block_hash = hash }

-- The members of the new object, given the address that the parent's hash was found at.
unfoldable pub make_block : Arena → Pointer → Hash256 → BlockHeader → Option BlockIndex
make_block arena prev hash header = elim (link_to arena prev (hashed_block hash header)) [
  | none ↦ none
  | some b ↦ elim (weigh arena header b) [
    | none ↦ none
    | some weighed ↦ elim (raise_validity block_valid_tree weighed) [
      | none ↦ none
      | some raised ↦ some raised.1
    ]
  ]
]

abbrev pub is_better : Arena → Pointer → ℕ → Bool
is_better arena none work = true
is_better arena (some best) work = ltb (work_at arena (some best)) work

abbrev pub store_block : ChainState → Hash256 → BlockIndex → ChainState
store_block st hash b =
    let p = length st.arena in
    record st {
      arena = st.arena ++ (b ∷ []);
      map_block_index = st.map_block_index ++ ((hash, p) ∷ []);
      set_dirty_block_index = insert_dirty p st.set_dirty_block_index;
      pindex_best_header =
          if is_better st.arena st.pindex_best_header b.chain_work
          then some p
          else st.pindex_best_header;
    }

module _ (double_sha256 : List ℕ → Hash256) where
  -- The new entry is in the map already when the parent is looked up.
  unfoldable pub add_to_block_index : BlockHeader → ChainState → Option (ℕ × ChainState)
  add_to_block_index header st =
      let hash = get_hash double_sha256 header in
      let entries = st.map_block_index ++ ((hash, length st.arena) ∷ []) in
      elim (find st.map_block_index hash) [
        | some p ↦ some (p, st)
        | none ↦ elim (make_block st.arena (find entries header.prev_block_hash) hash header) [
          | none ↦ none
          | some b ↦ some (length st.arena, store_block st hash b)
        ]
      ]

-- The comparator on two addresses of the arena.
abbrev less_at : Arena → ℕ → ℕ → Bool
less_at arena p q = elim (get_elem? arena p) [
  | none ↦ false
  | some a ↦ elim (get_elem? arena q) [ none ↦ false | some b ↦ work_less a p b q ]
]

unfoldable pub insert_candidate : Arena → ℕ → List ℕ → List ℕ
insert_candidate arena p [] = p ∷ []
insert_candidate arena p (q ∷ qs) =
    let rest = insert_candidate arena p qs in
    if less_at arena p q then p ∷ q ∷ qs else if less_at arena q p then q ∷ rest else q ∷ qs

-- The transactions of the parent, none without one.
abbrev txs_at : Arena → Pointer → ℕ
txs_at arena none = 0
txs_at arena (some p) = elim (get_elem? arena p) [ none ↦ 0 | some b ↦ b.chain_tx_num ]

abbrev is_candidate : Arena → ActiveChain → ℕ → Bool
is_candidate arena chain p = elim (tip chain) [ none ↦ true | some t ↦ not (less_at arena p t) ]

-- The queue holds the block itself and nothing is put behind it, so the loop runs once.
unfoldable pub connect_block : ℕ → BlockIndex → ChainState → ChainState
connect_block p b st =
    let counted = record b {
      chain_tx_num = (txs_at st.arena b.pprev + b.tx_num) % 2 ^ 32;
      sequence_id = st.block_sequence_id;
    } in
    let arena = set st.arena p counted in
    record st {
      arena = arena;
      block_sequence_id = st.block_sequence_id + 1;
      set_block_index_candidates =
          if is_candidate arena st.active_chain p
          then insert_candidate arena p st.set_block_index_candidates
          else st.set_block_index_candidates;
    }

abbrev has_transactions : Arena → Pointer → Bool
has_transactions arena none = true
has_transactions arena (some p) = not (txs_at arena (some p) == 0)

unfoldable pub received_block_transactions : ℕ → ℕ → ChainState → Option (Bool × ChainState)
received_block_transactions transactions p st = elim (get_elem? st.arena p) [
  | none ↦ none
  | some b ↦
      elim (raise_validity block_valid_transactions (record b {
        tx_num = transactions % 2 ^ 32;
        chain_tx_num = 0;
        status = bit_or b.status block_have_data;
      })) [
        | none ↦ none
        | some raised ↦
            let b' = raised.1 in
            let st' = record st {
              arena = set st.arena p b';
              set_dirty_block_index = insert_dirty p st.set_dirty_block_index;
            } in
            some (true, if has_transactions st'.arena b'.pprev then connect_block p b' st' else st')
      ]
]

abbrev same_pointer : Pointer → Pointer → Bool
same_pointer none none = true
same_pointer none (some q) = false
same_pointer (some p) none = false
same_pointer (some p) (some q) = p == q

unfoldable pub connect_tip : ℕ → ChainState → Option (Bool × ChainState)
connect_tip p st = elim (get_elem? st.arena p) [
  | none ↦ none
  | some b ↦
      if same_pointer b.pprev (tip st.active_chain)
      then elim (set_tip st.arena (some p) st.active_chain) [
        | none ↦ none
        | some chain ↦ some (true, record st { active_chain = chain })
      ]
      else none
]

module _ (double_sha256 : List ℕ → Hash256) where
  -- A block is its header and the number of its transactions here.
  unfoldable pub load_genesis_block : BlockHeader → ℕ → ChainState → Option (Bool × ChainState)
  load_genesis_block header transactions st =
      elim (find st.map_block_index (get_hash double_sha256 header)) [
        | some p ↦ some (true, st)
        | none ↦ elim (add_to_block_index double_sha256 header st) [
          | none ↦ none
          | some added ↦ elim (received_block_transactions transactions added.0 added.1) [
            | none ↦ none
            | some received ↦
                if received.0 then connect_tip added.0 received.1 else some (false, received.1)
          ]
        ]
      ]
