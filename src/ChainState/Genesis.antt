-- ===== src/ChainState/Genesis.antt =====
-- LoadGenesisBlock on the state that a ChainState starts in.
use btcdemo.Prelude.{ℕ, ◌+◌, ◌%◌, ◌^◌, ◌≡◌, ◌≢◌, refl, true, List, [], ◌∷◌, none, some}
use btcdemo.Prelude.Hash.{Hash256}
use btcdemo.Header.{BlockHeader, get_hash, get_block_proof}
use btcdemo.Header.Proof.{get_block_proof-some}
use btcdemo.BlockIndex.{BlockIndex, new_block_index, raise_validity}
use btcdemo.Chain.{tip, set_tip, set_tip_loop, resize}
use btcdemo.ChainState.{
  ChainState, empty_state, find, insert_dirty, make_block, link_to, add_to_block_index,
  received_block_transactions, connect_block, insert_candidate, connect_tip, load_genesis_block,
}
use btcdemo.ChainState.Add.{apart}

-- The only block, with all its transactions, and the state around it.
abbrev pub genesis_block : Hash256 → BlockHeader → ℕ → ℕ → BlockIndex
genesis_block hash header transactions proof = record {
  header = header;
  block_hash = hash;
  pprev = none;
  pskip = none;
  height = 0;
  chain_work = (0 + proof) % 2 ^ 256;
  tx_num = transactions % 2 ^ 32;
  chain_tx_num = (0 + transactions % 2 ^ 32) % 2 ^ 32;
  status = 11;
  sequence_id = 1;
}

abbrev pub loaded : Hash256 → BlockHeader → ℕ → ℕ → ChainState
loaded hash header transactions proof = record {
  arena = genesis_block hash header transactions proof ∷ [];
  active_chain = some 0 ∷ [];
  map_block_index = (hash, 0) ∷ [];
  set_dirty_block_index = 0 ∷ [];
  set_block_index_candidates = 0 ∷ [];
  pindex_best_header = some 0;
  block_sequence_id = 2;
}

module _ (double_sha256 : List ℕ → Hash256) (header : BlockHeader) (transactions : ℕ) where
  -- From the empty state, LoadGenesisBlock succeeds with every block whose hash is not its own
  -- previous hash: the block is then the only one, at height zero, with its proof as the work of the
  -- chain, valid up to its transactions and with data (status 8 | 3), the tip of the active chain, the
  -- only candidate and the best header.
  pub load_genesis_block_lem :
      get_hash double_sha256 header ≢ header.prev_block_hash
      → (proof : ℕ) × (get_block_proof header ≡ some proof)
        × (load_genesis_block double_sha256 header transactions empty_state
            ≡ some (true, loaded (get_hash double_sha256 header) header transactions proof))
  unfolding load_genesis_block add_to_block_index received_block_transactions connect_tip
      connect_block find insert_dirty make_block link_to new_block_index raise_validity tip set_tip
      set_tip_loop resize insert_candidate
  load_genesis_block_lem ne =
      let (proof, e) = get_block_proof-some header in
      let hash = get_hash double_sha256 header in
      (
        proof,
        e,
        rw (load_genesis_block, add_to_block_index, find, apart hash header.prev_block_hash ne, e)
            refl,
      )
