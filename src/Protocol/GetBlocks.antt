-- ===== src/Protocol/GetBlocks.antt =====
-- class GetBlocks of network/include/protocol/getblocks.h and network/src/protocol/getblocks.cpp.
use btcdemo.Prelude.{
  ℕ, ◌+◌, ◌*◌, ◌%◌, ◌^◌, ◌≤◌, ◌<◌, ◌≡◌, ◌↔◌, ◌≢◌, refl, Bool, true, not, ◌&&◌, ◌||◌, List, [], ◌∷◌,
  ◌++◌, length, ltb, ◌==◌, arith,
}
use btcdemo.Prelude.Bytes.{All}
use btcdemo.Prelude.Hash.{Hash256, null_hash, IsHash, bytes_eq}
use btcdemo.Stream.{Input, Result, ok, ◌>>=◌}
use btcdemo.Stream.Window.{Left}
use btcdemo.Serialize.{ser_write_data, ser_read_data, read_elements, var_int_size, max_vardata_size}
use btcdemo.Serialize.Steps.{regroup}
use btcdemo.Protocol.{max_block_locator_size, unknown_version}
use btcdemo.Serialize.Objects.{
  serialize_vector, deserialize_vector, Reads, ReadsBack, deserialize_vector-Left, read_word,
  read_array,
}
use btcdemo.Protocol.Inventory.{not_empty, vectors_eq}

pub record GetBlocks : Type 0 where
  pub version : ℕ
  pub hashes : List Hash256
  pub hash_stop : Hash256

unfoldable pub clear : GetBlocks → GetBlocks
clear m = record { version = unknown_version; hashes = []; hash_stop = null_hash }

unfoldable pub is_valid : GetBlocks → Bool
is_valid m =
    not (m.version == unknown_version)
    && (not_empty m.hashes || ltb max_block_locator_size (length m.hashes))

unfoldable pub serialized_size : GetBlocks → ℕ
serialized_size m = 4 + var_int_size (length m.hashes) + length m.hashes * 32 + 32

unfoldable pub get_blocks_eq : GetBlocks → GetBlocks → Bool
get_blocks_eq a b =
    (a.version == b.version)
    && (vectors_eq bytes_eq a.hashes b.hashes && bytes_eq a.hash_stop b.hash_stop)

abbrev same_bytes : List ℕ → List ℕ
same_bytes h = h

unfoldable pub serialize : GetBlocks → List ℕ
unfolding serialize_vector
serialize m = ser_write_data 4 m.version ++ (serialize_vector same_bytes m.hashes ++ m.hash_stop)

-- Deserialize of one hash returns its 32 bytes' number.
unfoldable pub deserialize : ℕ → Input → Result (GetBlocks × Input)
deserialize stale s = do
  (version, s1) ← ser_read_data stale 4 s
  (hashes, s2) ← deserialize_vector stale (read_elements stale 32) 32 s1
  (hash_stop, s3) ← read_elements stale 32 s2
  ok (record { version = version; hashes = hashes; hash_stop = hash_stop }, s3)

-- The fields fit their types.
pub record IsGetBlocks (m : GetBlocks) : Type 0 where
  pub version_fits : m.version < 2 ^ 32
  pub hashes : All IsHash m.hashes
  pub count_fits : length m.hashes ≤ max_vardata_size
  pub hash_stop : IsHash m.hash_stop

read_hashes :
    (stale : ℕ) (v : List Hash256)
    → All IsHash v
    → All (ReadsBack same_bytes (read_elements stale 32)) v
read_hashes stale [] h = tt
read_hashes stale (x ∷ v) (h, rest) =
    (λ s ys l. read_array stale 32 x s ys h.size h.bytes l, read_hashes stale v rest)

-- A `getblocks` message that was serialized comes back whole, and the source stands behind it.
pub deserialize-serialize_get_blocks :
    (stale : ℕ) (m : GetBlocks) (s : Input) (ys : List ℕ)
    → IsGetBlocks m
    → stale % 2 ^ 64 < 2 ^ 16
    → Left s (serialize m ++ ys)
    → Reads (deserialize stale) m s ys
unfolding deserialize serialize
deserialize-serialize_get_blocks stale m s ys fits clean l =
    let (s1, e1, l1) =
      read_word stale 3 m.version s _ fits.version_fits
        (regroup (ser_write_data 4 m.version) _ ys l) in
    let (s2, e2, l2) =
      deserialize_vector-Left stale same_bytes (read_elements stale 32) 32 m.hashes s1 _
        (read_hashes stale m.hashes fits.hashes) fits.count_fits clean
        (regroup (serialize_vector same_bytes m.hashes) _ ys l1) in
    let (s3, e3, l3) =
      read_array stale 32 m.hash_stop s2 ys fits.hash_stop.size fits.hash_stop.bytes l2 in
    (s3, rw (e1, e2, e3) refl, l3)

-- IsValid asks for a version and for one hash at least, and accepts locators of every greater length.
pub is_valid_lem : (m : GetBlocks) → (is_valid m ≡ true) ↔ ((m.version ≢ 0) × (1 ≤ length m.hashes))
unfolding is_valid
is_valid_lem m = tests m.hashes
  where
    tests :
        (v : List Hash256)
        → ((not (m.version == 0) && (not_empty v || ltb 32 (length v))) ≡ true)
          ↔ ((m.version ≢ 0) × (1 ≤ length v))
    tests [] = ground arith
    tests (x ∷ v) = ground arith
