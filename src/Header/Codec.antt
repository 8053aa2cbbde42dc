-- ===== src/Header/Codec.antt =====
-- A block header through its 80 bytes and back.
use btcdemo.Prelude.{ℕ, ◌^◌, ◌<◌, ◌≡◌, List, ◌++◌, arith}
use btcdemo.Prelude.Hash.{IsHash}
use btcdemo.Stream.{Input, ok, advance}
use btcdemo.Stream.Window.{Left}
use btcdemo.Serialize.{ser_write_data}
use btcdemo.Serialize.Steps.{regroup, word_step, array_step}
use btcdemo.Header.{BlockHeader, serialize, deserialize}

-- The fields fit their types.
pub record IsHeader (h : BlockHeader) : Type 0 where
  pub version_fits : h.version < 2 ^ 32
  pub prev_block : IsHash h.prev_block_hash
  pub merkle_root : IsHash h.merkle_root_hash
  pub time_fits : h.time < 2 ^ 32
  pub bits_fit : h.bits < 2 ^ 32
  pub nonce_fits : h.nonce < 2 ^ 32

module _ (stale : ℕ) where
  -- A header that was serialized comes back field by field, whatever stood in the buffers, and the
  -- source is 80 bytes further, if the fields fit their types.
  pub deserialize-serialize :
      (h : BlockHeader) (s : Input) (ys : List ℕ)
      → IsHeader h
      → Left s (serialize h ++ ys)
      → deserialize stale s ≡ ok (h, advance s 80)
  unfolding deserialize serialize
  deserialize-serialize h s ys fits l =
      let (e1, l1) =
        word_step stale 3 h.version s _ fits.version_fits
          (regroup (ser_write_data 4 h.version) _ ys l) in
      let (e2, l2) =
        array_step stale 32 h.prev_block_hash _ _ fits.prev_block.size fits.prev_block.bytes
          (regroup h.prev_block_hash _ ys l1) in
      let (e3, l3) =
        array_step stale 32 h.merkle_root_hash _ _ fits.merkle_root.size fits.merkle_root.bytes
          (regroup h.merkle_root_hash _ ys l2) in
      let (e4, l4) =
        word_step stale 3 h.time _ _ fits.time_fits (regroup (ser_write_data 4 h.time) _ ys l3) in
      let (e5, l5) =
        word_step stale 3 h.bits _ _ fits.bits_fit (regroup (ser_write_data 4 h.bits) _ ys l4) in
      let (e6, l6) = word_step stale 3 h.nonce _ ys fits.nonce_fits l5 in
      rw (e1, e2, e3, e4, e5, e6) (ground arith)
