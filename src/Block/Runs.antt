-- ===== src/Block/Runs.antt =====
-- A block of one transaction.
use btcdemo.Prelude.{false, refl, [], ◌∷◌, ◌++◌, map, arith}
use btcdemo.Prelude.Hash.{null_hash, IsHash}
use btcdemo.Stream.{Input}
use btcdemo.Serialize.Objects.{Reads}
use btcdemo.Header.Codec.{IsHeader}
use btcdemo.Transaction.{Transaction}
use btcdemo.Transaction.Codec.{IsTransaction}
use btcdemo.Block.{Block, read_back, serialize, deserialize, deserialize-serialize_block}

abbrev coin : Transaction
coin = record {
  version = 1;
  inputs =
      record {
        prevout = record { prev_hash = null_hash; index = 0xffff_ffff };
        script_sig = 4 ∷ 0xff ∷ [];
        sequence_no = 0xffff_ffff;
        script_witness = (7 ∷ []) ∷ [];
      }
      ∷ [];
  outputs = record { value = 50_0000_0000; script_pub_key = 0xac ∷ [] } ∷ [];
  lock_time = 0;
  hash_cache = null_hash;
}

abbrev block : Block
block = record {
  header = record {
    version = 1;
    prev_block_hash = null_hash;
    merkle_root_hash = null_hash;
    time = 1231006505;
    bits = 0x1d00_ffff;
    nonce = 2083236893;
  };
  transactions = coin ∷ [];
}

null_hash-IsHash : IsHash null_hash
null_hash-IsHash = record { size = refl; bytes = search (arith) }

block-IsHeader : IsHeader block.header
block-IsHeader = record {
  version_fits = omega arith;
  prev_block = null_hash-IsHash;
  merkle_root = null_hash-IsHash;
  time_fits = omega arith;
  bits_fit = omega arith;
  nonce_fits = omega arith;
}

coin-IsTransaction : IsTransaction coin
coin-IsTransaction = record {
  version_fits = omega arith;
  inputs = (
    record {
      prev_hash = null_hash-IsHash;
      index_fits = omega arith;
      script = record { bytes = search (arith); size_fits = omega arith };
      sequence_fits = omega arith;
    },
    tt,
  );
  inputs_fit = omega arith;
  outputs = (
    record {
      value_fits = omega arith;
      script = record { bytes = search (arith); size_fits = omega arith };
    },
    tt,
  );
  outputs_fit = omega arith;
  lock_time_fits = omega arith;
}

abbrev source : Input
source = record { container = serialize block ++ []; position = 0; interrupted = false }

deserialize-serialize_block_example :
    Reads
      (deserialize 0 0)
      (record block { transactions = map read_back block.transactions })
      source
      []
deserialize-serialize_block_example =
    deserialize-serialize_block 0 (omega arith) 0 block source [] block-IsHeader
      (coin-IsTransaction, tt) (omega arith) (record { inside = omega arith; bytes = refl })
