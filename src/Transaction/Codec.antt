-- ===== src/Transaction/Codec.antt =====
-- Deserialize of OutPoint, TxIn, TxOut and Transaction: consensus/include/transaction.h and
-- consensus/src/transaction.cpp.
use btcdemo.Prelude.{
  ℕ, ◌%◌, ◌^◌, ◌≤◌, ◌<◌, ◌≡◌, ◌≢◌, refl, List, [], ◌++◌, map, length, false, Bool-cases, inl, inr,
  ltb,
}
use btcdemo.Prelude.Bytes.{IsByte, All, All-map}
use btcdemo.Prelude.Hash.{Hash256, IsHash, null_hash, bytes_eq, bytes_eq_iff}
use btcdemo.Stream.{Input, Result, ok, ◌>>=◌, advance, interrupt_if}
use btcdemo.Stream.Window.{Left, advance-Left}
use btcdemo.Serialize.{
  ser_write_data, ser_read_data, read_elements, serialize_bytes, deserialize_bytes, max_block_size,
  max_vardata_size,
}
use btcdemo.Serialize.Steps.{regroup}
use btcdemo.Serialize.Vectors.{deserialize-serialize_bytes}
use btcdemo.Serialize.Objects.{
  serialize_vector, deserialize_vector, Reads, ReadsBack, deserialize_vector-Left,
  deserialize_vector-part, serialize_vector-map, read_word, read_array,
}
use btcdemo.Transaction.{
  OutPoint, TxIn, TxOut, Transaction, write_out_point, write_input, write_output, serialize,
  get_hash,
}

unfoldable pub read_out_point : ℕ → Input → Result (OutPoint × Input)
read_out_point stale s = do
  (prev_hash, s1) ← read_elements stale 32 s
  (index, s2) ← ser_read_data stale 4 s1
  ok (record { prev_hash = prev_hash; index = index }, s2)

-- Into a new input of the resized vector, whose witness is empty.
unfoldable pub read_input : ℕ → Input → Result (TxIn × Input)
read_input stale s = do
  (prevout, s1) ← read_out_point stale s
  (script_sig, s2) ← deserialize_bytes stale s1
  (sequence_no, s3) ← ser_read_data stale 4 s2
  ok (
    record {
      prevout = prevout;
      script_sig = script_sig;
      sequence_no = sequence_no;
      script_witness = [];
    },
    s3,
  )

unfoldable pub read_output : ℕ → Input → Result (TxOut × Input)
read_output stale s = do
  (value, s1) ← ser_read_data stale 8 s
  (script_pub_key, s2) ← deserialize_bytes stale s1
  ok (record { value = value; script_pub_key = script_pub_key }, s2)

-- The cached hash stays what it was. `returned` is what Deserialize of an object returns.
unfoldable pub deserialize : ℕ → ℕ → Transaction → Input → Result (Transaction × Input)
deserialize stale returned into s = do
  (version, s1) ← ser_read_data stale 4 s
  (inputs, s2) ← deserialize_vector stale (read_input stale) returned s1
  (outputs, s3) ← deserialize_vector stale (read_output stale) returned s2
  (lock_time, s4) ← ser_read_data stale 4 s3
  ok (
    record into { version = version; inputs = inputs; outputs = outputs; lock_time = lock_time },
    s4,
  )

-- The fields fit their types.
pub record IsScript (script : List ℕ) : Type 0 where
  pub bytes : All IsByte script
  pub size_fits : length script ≤ max_vardata_size

pub record IsTxIn (i : TxIn) : Type 0 where
  pub prev_hash : IsHash i.prevout.prev_hash
  pub index_fits : i.prevout.index < 2 ^ 32
  pub script : IsScript i.script_sig
  pub sequence_fits : i.sequence_no < 2 ^ 32

pub record IsTxOut (o : TxOut) : Type 0 where
  pub value_fits : o.value < 2 ^ 64
  pub script : IsScript o.script_pub_key

pub record IsTransaction (tx : Transaction) : Type 0 where
  pub version_fits : tx.version < 2 ^ 32
  pub inputs : All IsTxIn tx.inputs
  pub inputs_fit : length tx.inputs ≤ max_vardata_size
  pub outputs : All IsTxOut tx.outputs
  pub outputs_fit : length tx.outputs ≤ max_vardata_size
  pub lock_time_fits : tx.lock_time < 2 ^ 32

-- What is left of an input that is written and read.
abbrev pub bare : TxIn → TxIn
bare i = record i { script_witness = [] }

write_input-bare : (i : TxIn) → write_input (bare i) ≡ write_input i
unfolding write_input
write_input-bare i = refl

-- What is left of a transaction, but for the cached hash.
abbrev pub bare_inputs : Transaction → Transaction
bare_inputs tx = record tx { inputs = map bare tx.inputs }

pub serialize-bare_inputs : (tx : Transaction) → serialize (bare_inputs tx) ≡ serialize tx
unfolding serialize
serialize-bare_inputs tx =
    rw (serialize, serialize_vector-map write_input bare write_input-bare tx.inputs) refl

module _ (stale : ℕ) (clean : stale % 2 ^ 64 < 2 ^ 16) where
  read_script :
      (v : List ℕ) (s : Input) (ys : List ℕ)
      → IsScript v
      → Left s (serialize_bytes v ++ ys)
      → Reads (deserialize_bytes stale) v s ys
  read_script v s ys fits l =
      let after = advance-Left s (serialize_bytes v) ys l in
      (
        interrupt_if (ltb max_block_size (length v)) (advance s (length (serialize_bytes v))),
        deserialize-serialize_bytes stale v s ys l fits.bytes fits.size_fits clean,
        record { inside = after.inside; bytes = after.bytes },
      )

  read_input-Left : (i : TxIn) → IsTxIn i → ReadsBack write_input (read_input stale) (bare i)
  unfolding write_input write_out_point read_input read_out_point
  read_input-Left i fits s ys l =
      let l0 = regroup i.prevout.prev_hash _ _ (regroup (write_out_point i.prevout) _ ys l) in
      let (s1, e1, l1) =
        read_array stale 32 i.prevout.prev_hash s _ fits.prev_hash.size fits.prev_hash.bytes l0 in
      let (s2, e2, l2) = read_word stale 3 i.prevout.index s1 _ fits.index_fits l1 in
      let (s3, e3, l3) =
        read_script i.script_sig s2 _ fits.script
          (regroup (serialize_bytes i.script_sig) _ ys l2) in
      let (s4, e4, l4) = read_word stale 3 i.sequence_no s3 ys fits.sequence_fits l3 in
      (s4, rw (e1, e2, e3, e4) refl, l4)

  read_output-Left : (o : TxOut) → IsTxOut o → ReadsBack write_output (read_output stale) o
  unfolding write_output read_output
  read_output-Left o fits s ys l =
      let (s1, e1, l1) =
        read_word stale 7 o.value s _ fits.value_fits (regroup (ser_write_data 8 o.value) _ ys l) in
      let (s2, e2, l2) = read_script o.script_pub_key s1 ys fits.script l1 in
      (s2, rw (e1, e2) refl, l2)

  -- If the uninitialised variable of SerReadVarInt holds a number below 2^16, a transaction that was
  -- serialized comes back with its version, outputs, lock time and inputs, but with no witness of any
  -- input, and the source stands behind it; the cached hash is that of the object that is read into.
  pub deserialize-serialize_transaction :
      (returned : ℕ) (tx into : Transaction) (s : Input) (ys : List ℕ)
      → IsTransaction tx
      → Left s (serialize tx ++ ys)
      → Reads
          (deserialize stale returned into)
          (record (bare_inputs tx) { hash_cache = into.hash_cache })
          s
          ys
  unfolding serialize deserialize
  deserialize-serialize_transaction returned tx into s ys fits l =
      let (s1, e1, l1) =
        read_word stale 3 tx.version s _ fits.version_fits
          (regroup (ser_write_data 4 tx.version) _ ys l) in
      let (s2, e2, l2) =
        deserialize_vector-part write_input bare write_input-bare stale (read_input stale) returned
          tx.inputs s1 _ (All-map tx.inputs read_input-Left fits.inputs) fits.inputs_fit clean
          (regroup (serialize_vector write_input tx.inputs) _ ys l1) in
      let (s3, e3, l3) =
        deserialize_vector-Left stale write_output (read_output stale) returned tx.outputs s2 _
          (All-map tx.outputs read_output-Left fits.outputs) fits.outputs_fit clean
          (regroup (serialize_vector write_output tx.outputs) _ ys l2) in
      let (s4, e4, l4) = read_word stale 3 tx.lock_time s3 ys fits.lock_time_fits l3 in
      (s4, rw (e1, e2, e3, e4) refl, l4)

  -- If the uninitialised variable of SerReadVarInt holds a number below 2^16, a transaction that is
  -- read into an object whose hash was asked for before keeps that hash: GetHash then returns the hash
  -- of what the object held, not of what was read.
  pub get_hash-deserialize :
      (double_sha256 : List ℕ → Hash256) (returned : ℕ) (tx into : Transaction) (s : Input)
      (ys : List ℕ)
      → IsTransaction tx
      → Left s (serialize tx ++ ys)
      → into.hash_cache ≢ null_hash
      → (tx' : Transaction) × (s' : Input) × (deserialize stale returned into s ≡ ok (tx', s'))
        × (serialize tx' ≡ serialize tx)
        × ((get_hash double_sha256 tx').0 ≡ into.hash_cache)
  unfolding get_hash serialize
  get_hash-deserialize double_sha256 returned tx into s ys fits l cached =
      let (s', e, l') = deserialize-serialize_transaction returned tx into s ys fits l in
      (
        record (bare_inputs tx) { hash_cache = into.hash_cache },
        s',
        e,
        written,
        rw (get_hash, not_null) refl,
      )
    where
      not_null : bytes_eq into.hash_cache null_hash ≡ false
      not_null = elim (Bool-cases (bytes_eq into.hash_cache null_hash)) [
        | inl z ↦ absurd (cached ((bytes_eq_iff into.hash_cache null_hash).0 z))
        | inr z ↦ z
      ]

      written : serialize (record (bare_inputs tx) { hash_cache = into.hash_cache }) ≡ serialize tx
      written = serialize-bare_inputs tx
