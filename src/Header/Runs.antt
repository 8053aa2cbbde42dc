-- ===== src/Header/Runs.antt =====
-- The header of the genesis block of the main network, with both hashes left at zero.
use btcdemo.Prelude.{◌+◌, ◌/◌, ◌^◌, ◌≡◌, refl, false, some, [], ◌++◌, arith}
use btcdemo.Prelude.Hash.{null_hash, IsHash}
use btcdemo.Stream.{ok, advance}
use btcdemo.Compact.{set_compact, fresh, from_compact, get_compact, get_compact_of, logical_size}
use btcdemo.Header.{BlockHeader, get_block_proof, proof_of, serialize, deserialize}
use btcdemo.Header.Proof.{IsHard, get_block_proof_lem}
use btcdemo.Header.Codec.{IsHeader, deserialize-serialize}

abbrev genesis : BlockHeader
genesis = record {
  version = 1;
  prev_block_hash = null_hash;
  merkle_root_hash = null_hash;
  time = 1231006505;
  bits = 0x1d00_ffff;
  nonce = 2083236893;
}

null_hash-IsHash : IsHash null_hash
null_hash-IsHash = record { size = refl; bytes = search (arith) }

genesis-IsHeader : IsHeader genesis
genesis-IsHeader = record {
  version_fits = omega arith;
  prev_block = null_hash-IsHash;
  merkle_root = null_hash-IsHash;
  time_fits = omega arith;
  bits_fit = omega arith;
  nonce_fits = omega arith;
}

get_block_proof_lem_example :
    let target = set_compact genesis.bits fresh in
    (IsHard target → get_block_proof genesis ≡ some (2 ^ 256 / (target.normal + 1)))
    × (¬ IsHard target → get_block_proof genesis ≡ some 0)
get_block_proof_lem_example = get_block_proof_lem genesis

genesis_proof : get_block_proof genesis ≡ some 0x1_0001_0001
unfolding get_block_proof proof_of from_compact set_compact get_compact get_compact_of logical_size
genesis_proof = refl

deserialize-serialize_example :
    deserialize 0xdead
      (record { container = serialize genesis ++ []; position = 0; interrupted = false })
    ≡ ok (
      genesis,
      advance
          (record { container = serialize genesis ++ []; position = 0; interrupted = false })
          80,
    )
deserialize-serialize_example =
    deserialize-serialize 0xdead genesis _ [] genesis-IsHeader
      (record { inside = omega arith; bytes = refl })
