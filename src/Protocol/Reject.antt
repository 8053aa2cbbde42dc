-- ===== src/Protocol/Reject.antt =====
-- class Reject of network/include/protocol/reject.h and network/src/protocol/reject.cpp.
use btcdemo.Prelude.{
  ℕ, ◌+◌, ◌%◌, ◌^◌, ◌≤◌, ◌<◌, ◌≡◌, refl, Bool, false, ◌&&◌, ◌||◌, List, [], ◌∷◌, ◌++◌, length,
  length-append, ◌==◌, if◌then◌else◌, Bool-cases, inl, inr, arith,
}
use btcdemo.Prelude.Bytes.{All}
use btcdemo.Prelude.Hash.{Hash256, null_hash, IsHash, bytes_eq}
use btcdemo.Endian.RoundTrip.{length-to_little_endian}
use btcdemo.Stream.{Input, Result, ok, ◌>>=◌}
use btcdemo.Stream.Window.{Left}
use btcdemo.Serialize.{
  ser_write_data, ser_read_data, read_elements, serialize_bytes, deserialize_string, var_int_size,
}
use btcdemo.Serialize.Steps.{regroup}
use btcdemo.Serialize.Text.{NotNul}
use btcdemo.Serialize.Vectors.{length-serialize_bytes}
use btcdemo.Protocol.{Text, max_reject_message_length, command_size, cut, msg_tx, msg_block}
use btcdemo.Serialize.Objects.{Reads, read_word, read_array, read_string}
use btcdemo.Protocol.Cut.{cut-NotNul, cut-small, cut-cut, cut-eq, cut_whole}

pub record Reject : Type 0 where
  pub message : Text
  pub ccode : ℕ
  pub reason : Text
  pub data_hash : Hash256

-- The codes that IsValid compares with; `kRejectUnknown` is 0.
abbrev pub known_codes : List ℕ
known_codes = 0x01 ∷ 0x10 ∷ 0x11 ∷ 0x12 ∷ 0x40 ∷ 0x41 ∷ 0x42 ∷ 0x43 ∷ []

abbrev pub is_code_of : ℕ → List ℕ → Bool
is_code_of ccode [] = false
is_code_of ccode (c ∷ cs) = (ccode == c) || is_code_of ccode cs

unfoldable pub is_valid : Reject → Bool
is_valid m = is_code_of m.ccode known_codes

unfoldable pub clear : Reject → Reject
clear m = record { message = []; ccode = 0; reason = []; data_hash = null_hash }

-- `message_ == msg_command::kMsgBlock || message_ == msg_command::kMsgTx`
unfoldable pub has_data : Text → Bool
has_data message = bytes_eq message msg_block || bytes_eq message msg_tx

unfoldable pub serialized_size : Reject → ℕ
serialized_size m =
    var_int_size (length m.message)
    + var_int_size (length m.reason)
    + length m.message
    + length m.reason
    + 1
    + (if has_data m.message then 32 else 0)

unfoldable pub reject_eq : Reject → Reject → Bool
reject_eq a b =
    if has_data a.message
    then bytes_eq a.message b.message
      && ((a.ccode == b.ccode) && (bytes_eq a.reason b.reason && bytes_eq a.data_hash b.data_hash))
    else bytes_eq a.message b.message && ((a.ccode == b.ccode) && bytes_eq a.reason b.reason)

unfoldable pub serialize : Reject → List ℕ
serialize m =
    serialize_bytes (cut command_size m.message)
    ++ (ser_write_data 1 m.ccode
        ++ (serialize_bytes (cut max_reject_message_length m.reason)
            ++ (if has_data m.message then m.data_hash else [])))

-- `if (...) deserializer.SerialRead(&data_)`
unfoldable pub read_data : ℕ → Text → Hash256 → Input → Result (Hash256 × Input)
read_data stale message data_hash s =
    let read = read_elements stale 32 s in if has_data message then read else ok (data_hash, s)

unfoldable pub deserialize : ℕ → Reject → Input → Result (Reject × Input)
deserialize stale into s = do
  (message, s1) ← deserialize_string stale s
  (ccode, s2) ← ser_read_data stale 1 s1
  (reason, s3) ← deserialize_string stale s2
  (data_hash, s4) ← read_data stale (cut command_size message) into.data_hash s3
  ok (
    record {
      message = cut command_size message;
      ccode = ccode;
      reason = cut max_reject_message_length reason;
      data_hash = data_hash;
    },
    s4,
  )

-- The fields fit their types, and the texts have no zero byte.
pub record IsReject (m : Reject) : Type 0 where
  pub message_chars : All NotNul m.message
  pub reason_chars : All NotNul m.reason
  pub ccode_fits : m.ccode < 256
  pub data_hash : IsHash m.data_hash

-- What arrives: both texts cut, and the data only with a message about a block or a transaction.
abbrev pub received : Reject → Reject → Reject
received m into = record {
  message = cut command_size m.message;
  ccode = m.ccode;
  reason = cut max_reject_message_length m.reason;
  data_hash = if has_data m.message then m.data_hash else into.data_hash;
}

-- Only short texts name the two commands.
has_data-cut : (text : Text) → has_data (cut command_size text) ≡ has_data text
unfolding has_data
has_data-cut text =
    rw (cut-eq 12 text msg_block (omega arith), cut-eq 12 text msg_tx (omega arith)) refl

read_data-Left :
    (stale : ℕ) (text : Text) (data_hash into : Hash256) (s : Input) (ys : List ℕ)
    → IsHash data_hash
    → Left s ((if has_data text then data_hash else []) ++ ys)
    → Reads
        (read_data stale (cut command_size text) into)
        (if has_data text then data_hash else into)
        s
        ys
unfolding read_data
read_data-Left stale text data_hash into s ys hash l = elim (Bool-cases (has_data text)) [
  | inl e ↦
      rw (has_data-cut text, e)
        (read_array stale 32 data_hash s ys hash.size hash.bytes (rw e at l))
  | inr e ↦ rw (has_data-cut text, e) (s, refl, rw e at l)
]

-- If the uninitialised variable of SerReadVarInt holds a number below 2^16 and no character of the
-- texts is zero, a `reject` message that was serialized arrives with its texts cut to 12 and 111
-- characters, its code, and the data only if the message is about a block or a transaction; the
-- source stands behind it.
pub deserialize-serialize_reject :
    (stale : ℕ) (m into : Reject) (s : Input) (ys : List ℕ)
    → IsReject m
    → stale % 2 ^ 64 < 2 ^ 16
    → Left s (serialize m ++ ys)
    → Reads (deserialize stale into) (received m into) s ys
unfolding deserialize serialize
deserialize-serialize_reject stale m into s ys fits clean l =
    let message = cut command_size m.message in
    let reason = cut max_reject_message_length m.reason in
    let (s1, e1, l1) =
      read_string stale message s _ (cut-NotNul 12 m.message fits.message_chars)
        (omega (arith, cut-small 12 m.message)) clean (regroup (serialize_bytes message) _ ys l) in
    let (s2, e2, l2) =
      read_word stale 0 m.ccode s1 _ fits.ccode_fits (regroup (ser_write_data 1 m.ccode) _ ys l1) in
    let (s3, e3, l3) =
      read_string stale reason s2 _ (cut-NotNul 111 m.reason fits.reason_chars)
        (omega (arith, cut-small 111 m.reason)) clean (regroup (serialize_bytes reason) _ ys l2) in
    let (s4, e4, l4) =
      read_data-Left stale m.message m.data_hash into.data_hash s3 ys fits.data_hash l3 in
    (s4, rw (e1, e2, e3, cut-cut 12 m.message, cut-cut 111 m.reason, e4) refl, l4)

-- SerializedSize is the number of the bytes that Serialize writes, if neither text is cut.
pub length-serialize_reject :
    (m : Reject)
    → length m.data_hash ≡ 32
    → length m.message ≤ command_size
    → length m.reason ≤ max_reject_message_length
    → length (serialize m) ≡ serialized_size m
unfolding serialize serialized_size
length-serialize_reject m data_hash short short' =
    let tail = if has_data m.message then m.data_hash else [] in
    let reason = serialize_bytes m.reason in
    let code = ser_write_data 1 m.ccode in
    rw (cut_whole 12 m.message short, cut_whole 111 m.reason short')
      (ground (
        arith,
        length-append (serialize_bytes m.message) (code ++ (reason ++ tail)),
        length-append code (reason ++ tail),
        length-append reason tail,
        length-serialize_bytes m.message,
        length-serialize_bytes m.reason,
        length-to_little_endian 1 m.ccode,
        data_hash,
      ))
