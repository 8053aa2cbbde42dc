-- ===== src/Block.antt =====
-- class Block of consensus/include/block.h and consensus/src/block.cpp: a header and transactions.
mod Runs
use mathlib.Core.List.{append_assoc}
use btcdemo.Prelude.{
  ℕ, ◌+◌, ◌%◌, ◌^◌, ◌≤◌, ◌<◌, ◌≡◌, refl, sym, ap, ◌∙◌, List, [], ◌++◌, map, length, length-append,
  arith,
}
use btcdemo.Prelude.Bytes.{All, All-map}
use btcdemo.Prelude.Hash.{Hash256, IsHash, null_hash}
use btcdemo.Endian.RoundTrip.{length-to_little_endian}
use btcdemo.Stream.{Input, Result, ok, ◌>>=◌, advance}
use btcdemo.Stream.Window.{Left, advance-Left}
use btcdemo.Serialize.{ser_write_data, max_vardata_size}
use btcdemo.Serialize.Steps.{regroup}
use btcdemo.Serialize.Objects.{
  serialize_vector, deserialize_vector, Reads, ReadsBack, deserialize_vector-part,
}
use btcdemo.Header.{BlockHeader}
use btcdemo.Header.{
  clear as clear_header, serialize as serialize_header, deserialize as deserialize_header,
  get_hash as header_hash,
}
use btcdemo.Header.Codec.{IsHeader, deserialize-serialize}
use btcdemo.Transaction.{Transaction, new}
use btcdemo.Transaction.{serialize as serialize_transaction}
use btcdemo.Transaction.Codec.{
  IsTransaction, bare_inputs, serialize-bare_inputs, deserialize-serialize_transaction,
}
use btcdemo.Transaction.Codec.{deserialize as deserialize_transaction}

pub record Block : Type 0 where
  pub header : BlockHeader
  pub transactions : List Transaction

unfoldable pub clear : Block → Block
clear b = record { header = clear_header; transactions = [] }

unfoldable pub get_hash : (List ℕ → Hash256) → Block → Hash256
get_hash double_sha256 b = header_hash double_sha256 b.header

unfoldable pub serialize : Block → List ℕ
unfolding serialize_vector
serialize b = serialize_header b.header ++ serialize_vector serialize_transaction b.transactions

-- The elements of the resized vector are new transactions.
unfoldable pub deserialize : ℕ → ℕ → Input → Result (Block × Input)
deserialize stale returned s = do
  (header, s1) ← deserialize_header stale s
  (transactions, s2) ←
      deserialize_vector stale (deserialize_transaction stale returned new) returned s1
  ok (record { header = header; transactions = transactions }, s2)

-- What comes back of a transaction of a block: no witness and no cached hash.
abbrev pub read_back : Transaction → Transaction
read_back tx = record (bare_inputs tx) { hash_cache = null_hash }

serialize-read_back :
    (tx : Transaction) → serialize_transaction (read_back tx) ≡ serialize_transaction tx
unfolding serialize_transaction
serialize-read_back tx = serialize-bare_inputs tx

header_size : (h : BlockHeader) → IsHeader h → length (serialize_header h) ≡ 80
unfolding serialize_header
header_size h fits =
    let time = ser_write_data 4 h.time in
    let bits = ser_write_data 4 h.bits in
    let nonce = ser_write_data 4 h.nonce in
    omega (
      arith,
      length-append (ser_write_data 4 h.version)
          (h.prev_block_hash ++ (h.merkle_root_hash ++ (time ++ (bits ++ nonce)))),
      length-append h.prev_block_hash (h.merkle_root_hash ++ (time ++ (bits ++ nonce))),
      length-append h.merkle_root_hash (time ++ (bits ++ nonce)),
      length-append time (bits ++ nonce),
      length-append bits nonce,
      length-to_little_endian 4 h.version,
      length-to_little_endian 4 h.time,
      length-to_little_endian 4 h.bits,
      length-to_little_endian 4 h.nonce,
      fits.prev_block.size,
      fits.merkle_root.size,
    )

module _ (stale : ℕ) (clean : stale % 2 ^ 64 < 2 ^ 16) (returned : ℕ) where
  read_transaction :
      (tx : Transaction)
      → IsTransaction tx
      → ReadsBack serialize_transaction (deserialize_transaction stale returned new) (read_back tx)
  unfolding new
  read_transaction tx fits s ys l =
      deserialize-serialize_transaction stale clean returned tx new s ys fits
        (rw (serialize-read_back tx) at l)

  -- If the uninitialised variable of SerReadVarInt holds a number below 2^16, a block whose fields
  -- fit their types and that was serialized comes back with its header and all its transactions, but
  -- with no witness and no cached hash, and the source stands behind it.
  pub deserialize-serialize_block :
      (b : Block) (s : Input) (ys : List ℕ)
      → IsHeader b.header
      → All IsTransaction b.transactions
      → length b.transactions ≤ max_vardata_size
      → Left s (serialize b ++ ys)
      → Reads
          (deserialize stale returned)
          (record b { transactions = map read_back b.transactions })
          s
          ys
  unfolding serialize deserialize
  deserialize-serialize_block b s ys fits all small l =
      let l0 = regroup (serialize_header b.header) _ ys l in
      let e1 = deserialize-serialize stale b.header s _ fits l0 in
      let l1 = rw (header_size b.header fits) at (
        advance-Left s (serialize_header b.header)
          (serialize_vector serialize_transaction b.transactions ++ ys) l0) in
      let (s2, e2, l2) =
        deserialize_vector-part serialize_transaction read_back serialize-read_back stale
          (deserialize_transaction stale returned new) returned b.transactions (advance s 80) ys
          (All-map b.transactions read_transaction all) small clean l1 in
      (s2, rw (e1, e2) refl, l2)
