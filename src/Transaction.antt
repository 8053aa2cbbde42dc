-- ===== src/Transaction.antt =====
-- consensus/include/transaction.h and consensus/src/transaction.cpp: what a transaction is written as,
-- its size, its amount and its hash. The double SHA-256 is a parameter. Sizes are below 2^64; `none`
-- is the exception of OutputsAmount.
pub mod Size
pub mod Codec
pub mod Amount
pub mod Cache
mod Runs
use btcdemo.Prelude.{
  ℕ, zero, suc, ◌+◌, ◌*◌, ◌%◌, ◌^◌, Bool, true, false, not, ◌&&◌, ◌||◌, List, [], ◌∷◌, ◌++◌, length,
  Option, none, some, ltb, ◌==◌, if◌then◌else◌,
}
use btcdemo.Prelude.Hash.{Hash256, null_hash, bytes_eq}
use btcdemo.Serialize.Objects.{serialize_vector}
use btcdemo.Serialize.{ser_write_data, ser_write_var_int, serialize_bytes, var_int_size}

pub record OutPoint : Type 0 where
  pub prev_hash : Hash256
  pub index : ℕ

-- The script is the bytes of its vector, the witness its stack of them; it is never written.
pub record TxIn : Type 0 where
  pub prevout : OutPoint
  pub script_sig : List ℕ
  pub sequence_no : ℕ
  pub script_witness : List (List ℕ)

pub record TxOut : Type 0 where
  pub value : ℕ
  pub script_pub_key : List ℕ

pub record Transaction : Type 0 where
  pub version : ℕ
  pub inputs : List TxIn
  pub outputs : List TxOut
  pub lock_time : ℕ
  pub hash_cache : Hash256

abbrev out_point_is_null : OutPoint → Bool
out_point_is_null op = bytes_eq op.prev_hash null_hash && (op.index == 0xffff_ffff)

unfoldable pub write_out_point : OutPoint → List ℕ
write_out_point op = op.prev_hash ++ ser_write_data 4 op.index

unfoldable pub out_point_size : OutPoint → ℕ
out_point_size op = 32 + 4

unfoldable pub write_input : TxIn → List ℕ
write_input input =
    write_out_point input.prevout
    ++ (serialize_bytes input.script_sig ++ ser_write_data 4 input.sequence_no)

unfoldable pub script_size : List ℕ → ℕ
script_size script = length script + var_int_size (length script)

unfoldable pub input_size : TxIn → ℕ
input_size input = out_point_size input.prevout + script_size input.script_sig + 4

unfoldable pub write_output : TxOut → List ℕ
write_output output = ser_write_data 8 output.value ++ serialize_bytes output.script_pub_key

unfoldable pub output_size : TxOut → ℕ
output_size output = script_size output.script_pub_key + 8

unfoldable pub serialize : Transaction → List ℕ
serialize tx =
    ser_write_data 4 tx.version
    ++ (serialize_vector write_input tx.inputs
        ++ (serialize_vector write_output tx.outputs ++ ser_write_data 4 tx.lock_time))

-- `std::accumulate`
unfoldable pub accumulate {ℓ} : {A : Type ℓ} → (A → ℕ) → ℕ → List A → ℕ
accumulate size total [] = total
accumulate size total (x ∷ xs) = accumulate size (total + size x) xs

unfoldable pub serialized_size : Transaction → ℕ
serialized_size tx =
    4
    + 4
    + var_int_size (length tx.inputs)
    + accumulate input_size 0 tx.inputs
    + var_int_size (length tx.outputs)
    + accumulate output_size 0 tx.outputs

-- kMaxSatoshiAmount
abbrev pub max_satoshi_amount : ℕ
max_satoshi_amount = 21000000 * 100000000

outputs_amount_loop : ℕ → List TxOut → Option ℕ
outputs_amount_loop amount [] = some amount
outputs_amount_loop amount (o ∷ os) =
    let sum = (amount + o.value) % 2 ^ 64 in
    let rest = outputs_amount_loop sum os in
    if ltb max_satoshi_amount o.value || ltb max_satoshi_amount sum then none else rest

unfoldable pub outputs_amount : Transaction → Option ℕ
unfolding outputs_amount_loop
outputs_amount tx = outputs_amount_loop 0 tx.outputs

unfoldable pub is_null : Transaction → Bool
is_null tx = (length tx.inputs == 0) && (length tx.outputs == 0)

unfoldable pub is_coin_base : Transaction → Bool
is_coin_base tx = elim tx.inputs [
  | [] ↦ false
  | input ∷ inputs ↦ (length inputs == 0) && out_point_is_null input.prevout
]

-- The default constructor.
unfoldable pub new : Transaction
new = record { version = 2; inputs = []; outputs = []; lock_time = 0; hash_cache = null_hash }

unfoldable pub set_version : ℕ → Transaction → Transaction
set_version v tx = record tx { version = v; hash_cache = null_hash }

-- `operator=` of an input, which leaves its witness.
unfoldable pub assign_input : TxIn → TxIn → TxIn
assign_input b i = record b { script_witness = i.script_witness }

-- The assignment of a vector of inputs. If the buffer holds the new ones, those that stand there are
-- assigned and the others copied; else all are copied.
unfoldable pub assign_each : List TxIn → List TxIn → List TxIn
assign_each [] old = []
assign_each (b ∷ bs) [] = b ∷ bs
assign_each (b ∷ bs) (i ∷ is) = assign_input b i ∷ assign_each bs is

unfoldable pub assign_inputs : Bool → List TxIn → List TxIn → List TxIn
assign_inputs in_place new old = if in_place then assign_each new old else new

-- Of a vector that is moved, `in_place` is false.
unfoldable pub set_inputs : Bool → List TxIn → Transaction → Transaction
set_inputs in_place inputs tx = record tx {
  inputs = assign_inputs in_place inputs tx.inputs;
  hash_cache = null_hash;
}

unfoldable pub set_outputs : List TxOut → Transaction → Transaction
set_outputs outputs tx = record tx { outputs = outputs; hash_cache = null_hash }

unfoldable pub set_lock_time : ℕ → Transaction → Transaction
set_lock_time t tx = record tx { lock_time = t; hash_cache = null_hash }

-- `operator=`
unfoldable pub assign : Bool → Transaction → Transaction → Transaction
assign in_place b tx = record {
  version = b.version;
  inputs = assign_inputs in_place b.inputs tx.inputs;
  outputs = b.outputs;
  lock_time = b.lock_time;
  hash_cache = null_hash;
}

module _ (double_sha256 : List ℕ → Hash256) where
  -- GetHash fills the mutable cache if it is null.
  unfoldable pub get_hash : Transaction → Hash256 × Transaction
  get_hash tx =
      let hash = double_sha256 (serialize tx) in
      if bytes_eq tx.hash_cache null_hash
      then (hash, record tx { hash_cache = hash })
      else (tx.hash_cache, tx)

  -- The constructors from all members call GetHash; they do not initialise the cache, whose bytes
  -- are what stands in `memory`.
  unfoldable pub construct : Hash256 → ℕ → List TxIn → List TxOut → ℕ → Transaction
  construct memory version inputs outputs lock_time =
      (get_hash (record {
        version = version;
        inputs = inputs;
        outputs = outputs;
        lock_time = lock_time;
        hash_cache = memory;
      })).1

  -- The constructors that copy and that move, which do the same with the members of `t`.
  unfoldable pub copy : Hash256 → Transaction → Transaction
  copy memory t = construct memory t.version t.inputs t.outputs t.lock_time
