-- ===== src/Header.antt =====
-- The BlockHeader of consensus/include/block.h and consensus/src/block.cpp. The double SHA-256 of
-- third-party code is the parameter `double_sha256` of what uses it. `none` is a failed assertion.
pub mod Proof
pub mod Codec
mod Runs
use btcdemo.Prelude.{
  ℕ, ◌+◌, ◌-◌, ◌*◌, ◌/◌, ◌%◌, ◌^◌, Bool, ◌||◌, List, ◌++◌, Option, none, some, ◌==◌, if◌then◌else◌,
}
use btcdemo.Prelude.Hash.{Hash256, null_hash}
use btcdemo.Compact.{Compact, from_compact}
use btcdemo.Stream.{Input, Result, ok, ◌>>=◌}
use btcdemo.Serialize.{ser_write_data, ser_read_data, read_elements}

-- `version_` is signed; it is its 32-bit pattern here.
pub record BlockHeader : Type 0 where
  pub version : ℕ
  pub prev_block_hash : Hash256
  pub merkle_root_hash : Hash256
  pub time : ℕ
  pub bits : ℕ
  pub nonce : ℕ

-- The default constructor calls Clear, which sets every field.
unfoldable pub clear : BlockHeader
clear = record {
  version = 0;
  prev_block_hash = null_hash;
  merkle_root_hash = null_hash;
  time = 0;
  bits = 0;
  nonce = 0;
}

unfoldable pub is_null : BlockHeader → Bool
is_null h = h.bits == 0

proof_of : Compact → ℕ
proof_of compact =
    let target = compact.normal in
    if compact.negative || (compact.overflowed || (target == 0))
    then 0
    else ((2 ^ 256 - 1 - target) / ((target + 1) % 2 ^ 256) + 1) % 2 ^ 256

unfoldable pub get_block_proof : BlockHeader → Option ℕ
unfolding proof_of
get_block_proof h = elim (from_compact h.bits) [ none ↦ none | some c ↦ some (proof_of c) ]

unfoldable pub serialize : BlockHeader → List ℕ
serialize h =
    ser_write_data 4 h.version
    ++ (h.prev_block_hash
        ++ (h.merkle_root_hash
            ++ (ser_write_data 4 h.time ++ (ser_write_data 4 h.bits ++ ser_write_data 4 h.nonce))))

-- An array of bytes is read byte by byte.
unfoldable pub deserialize : ℕ → Input → Result (BlockHeader × Input)
deserialize stale s = do
  (version, s1) ← ser_read_data stale 4 s
  (prev_block_hash, s2) ← read_elements stale 32 s1
  (merkle_root_hash, s3) ← read_elements stale 32 s2
  (time, s4) ← ser_read_data stale 4 s3
  (bits, s5) ← ser_read_data stale 4 s4
  (nonce, s6) ← ser_read_data stale 4 s5
  ok (
    record {
      version = version;
      prev_block_hash = prev_block_hash;
      merkle_root_hash = merkle_root_hash;
      time = time;
      bits = bits;
      nonce = nonce;
    },
    s6,
  )

unfoldable pub get_hash : (List ℕ → Hash256) → BlockHeader → Hash256
get_hash double_sha256 h = double_sha256 (serialize h)
