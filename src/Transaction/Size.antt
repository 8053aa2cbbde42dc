-- ===== src/Transaction/Size.antt =====
-- SerializedSize against what is written.
use btcdemo.Prelude.{ℕ, ◌+◌, ◌≡◌, refl, List, [], ◌∷◌, ◌++◌, length, length-append, arith}
use btcdemo.Prelude.Bytes.{All}
use btcdemo.Endian.RoundTrip.{length-to_little_endian}
use btcdemo.Serialize.{ser_write_data, ser_write_var_int, serialize_bytes}
use btcdemo.Serialize.Objects.{write_all, serialize_vector}
use btcdemo.Serialize.VarInt.{length-ser_write_var_int}
use btcdemo.Serialize.Vectors.{length-serialize_bytes}
use btcdemo.Transaction.{
  TxIn, TxOut, Transaction, write_out_point, out_point_size, write_input, script_size, input_size,
  write_output, output_size, serialize, accumulate, serialized_size,
}

-- The hash of every output point has 32 bytes.
abbrev pub HasHashes : List TxIn → Type 0
HasHashes inputs = All (λ (i : TxIn). length i.prevout.prev_hash ≡ 32) inputs

accumulate_from :
    {A : Type 0} (size : A → ℕ) (total : ℕ) (xs : List A)
    → accumulate size total xs ≡ total + accumulate size 0 xs
unfolding accumulate
accumulate_from size total [] = omega arith
accumulate_from size total (x ∷ xs) =
    omega (arith, accumulate_from size (total + size x) xs, accumulate_from size (0 + size x) xs)

length-write_input :
    (i : TxIn) → length i.prevout.prev_hash ≡ 32 → length (write_input i) ≡ input_size i
unfolding write_input input_size write_out_point out_point_size script_size
length-write_input i h = omega (
  arith,
  h,
  length-append (write_out_point i.prevout)
      (serialize_bytes i.script_sig ++ ser_write_data 4 i.sequence_no),
  length-append i.prevout.prev_hash (ser_write_data 4 i.prevout.index),
  length-append (serialize_bytes i.script_sig) (ser_write_data 4 i.sequence_no),
  length-serialize_bytes i.script_sig,
  length-to_little_endian 4 i.prevout.index,
  length-to_little_endian 4 i.sequence_no,
)

length-write_output : (o : TxOut) → length (write_output o) ≡ output_size o
unfolding write_output output_size script_size
length-write_output o = omega (
  arith,
  length-append (ser_write_data 8 o.value) (serialize_bytes o.script_pub_key),
  length-serialize_bytes o.script_pub_key,
  length-to_little_endian 8 o.value,
)

length-write_inputs :
    (is : List TxIn) → HasHashes is → length (write_all write_input is) ≡ accumulate input_size 0 is
unfolding write_all accumulate
length-write_inputs [] h = refl
length-write_inputs (i ∷ is) (h, hs) = omega (
  arith,
  length-append (write_input i) (write_all write_input is),
  length-write_input i h,
  length-write_inputs is hs,
  accumulate_from input_size (0 + input_size i) is,
)

length-write_outputs :
    (os : List TxOut) → length (write_all write_output os) ≡ accumulate output_size 0 os
unfolding write_all accumulate
length-write_outputs [] = refl
length-write_outputs (o ∷ os) = omega (
  arith,
  length-append (write_output o) (write_all write_output os),
  length-write_output o,
  length-write_outputs os,
  accumulate_from output_size (0 + output_size o) os,
)

-- SerializedSize is the number of bytes that Serialize writes, if the hashes of the output points that
-- the inputs spend have 32 bytes.
pub length-serialize :
    (tx : Transaction) → HasHashes tx.inputs → length (serialize tx) ≡ serialized_size tx
unfolding serialize serialized_size serialize_vector
length-serialize tx h =
    let after = serialize_vector write_output tx.outputs ++ ser_write_data 4 tx.lock_time in
    omega (
      arith,
      length-append (ser_write_data 4 tx.version) (serialize_vector write_input tx.inputs ++ after),
      length-append (serialize_vector write_input tx.inputs) after,
      length-append (serialize_vector write_output tx.outputs) (ser_write_data 4 tx.lock_time),
      length-append (ser_write_var_int (length tx.inputs)) (write_all write_input tx.inputs),
      length-append (ser_write_var_int (length tx.outputs)) (write_all write_output tx.outputs),
      length-ser_write_var_int (length tx.inputs),
      length-ser_write_var_int (length tx.outputs),
      length-write_inputs tx.inputs h,
      length-write_outputs tx.outputs,
      length-to_little_endian 4 tx.version,
      length-to_little_endian 4 tx.lock_time,
    )
