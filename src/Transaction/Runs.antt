-- ===== src/Transaction/Runs.antt =====
-- A transaction of one input and two outputs, with a stand-in for the hash.
use btcdemo.Prelude.{
  ℕ, ◌-◌, ◌^◌, ◌≡◌, ◌≢◌, refl, false, ap, get_or, ◌++◌, List, [], ◌∷◌, replicate, some, none, leb,
  if◌then◌else◌, arith,
}
use btcdemo.Prelude.Hash.{Hash256, null_hash}
use btcdemo.Transaction.{
  Transaction, serialize, max_satoshi_amount, outputs_amount, set_version, copy, get_hash,
}
use btcdemo.Stream.{Input, ok}
use btcdemo.Serialize.Objects.{Reads}
use btcdemo.Transaction.Codec.{
  IsTransaction, bare_inputs, deserialize, deserialize-serialize_transaction, get_hash-deserialize,
}
use btcdemo.Transaction.Amount.{total, outputs_amount_lem}
use btcdemo.Transaction.Cache.{versioned, copied, get_hash-Reachable}

abbrev ones : List ℕ → Hash256
ones bytes = replicate 32 1

abbrev payment : Transaction
payment = record {
  version = 2;
  inputs =
      record {
        prevout = record { prev_hash = null_hash; index = 1 };
        script_sig = 0x51 ∷ [];
        sequence_no = 0xffff_ffff;
        script_witness = (7 ∷ []) ∷ [];
      }
      ∷ [];
  outputs =
      record { value = 5000; script_pub_key = [] }
      ∷ record { value = 2 ^ 64 - 1; script_pub_key = 0x51 ∷ [] }
      ∷ [];
  lock_time = 0;
  hash_cache = null_hash;
}

outputs_amount_lem_example : outputs_amount payment ≡ (
    if leb (total payment.outputs) max_satoshi_amount then some (total payment.outputs) else none)
outputs_amount_lem_example = outputs_amount_lem payment (omega arith, (omega arith, tt))

not_null : replicate 32 1 ≢ null_hash
not_null e = omega (arith, ap (λ h. get_or h 0 0) e)

abbrev copied_payment : Transaction
copied_payment = set_version 1 (copy ones null_hash payment)

get_hash-Reachable_example :
    ((get_hash ones copied_payment).0 ≡ ones (serialize copied_payment))
    × (serialize (get_hash ones copied_payment).1 ≡ serialize copied_payment)
get_hash-Reachable_example =
    get_hash-Reachable ones null_hash copied_payment refl
      (versioned 1 (copy ones null_hash payment) (copied payment))

payment-IsTransaction : IsTransaction payment
payment-IsTransaction = record {
  version_fits = omega arith;
  inputs = (
    record {
      prev_hash = record { size = refl; bytes = search (arith) };
      index_fits = omega arith;
      script = record { bytes = search (arith); size_fits = omega arith };
      sequence_fits = omega arith;
    },
    tt,
  );
  inputs_fit = omega arith;
  outputs = (
    record { value_fits = omega arith; script = record { bytes = tt; size_fits = omega arith } },
    (
      record {
        value_fits = omega arith;
        script = record { bytes = search (arith); size_fits = omega arith };
      },
      tt,
    ),
  );
  outputs_fit = omega arith;
  lock_time_fits = omega arith;
}

abbrev source : Input
source = record { container = serialize payment ++ []; position = 0; interrupted = false }

deserialize-serialize_transaction_example :
    Reads
      (deserialize 0 7 payment)
      (record (bare_inputs payment) { hash_cache = payment.hash_cache })
      source
      []
deserialize-serialize_transaction_example =
    deserialize-serialize_transaction 0 (omega arith) 7 payment payment source []
      payment-IsTransaction (record { inside = omega arith; bytes = refl })

-- The same payment after its hash was asked for.
abbrev hashed_payment : Transaction
hashed_payment = record payment { hash_cache = replicate 32 1 }

get_hash-deserialize_example :
    (tx' : Transaction) × (s' : Input) × (deserialize 0 7 hashed_payment source ≡ ok (tx', s'))
    × (serialize tx' ≡ serialize payment)
    × ((get_hash ones tx').0 ≡ hashed_payment.hash_cache)
get_hash-deserialize_example =
    get_hash-deserialize 0 (omega arith) ones 7 payment hashed_payment source []
      payment-IsTransaction (record { inside = omega arith; bytes = refl }) not_null
