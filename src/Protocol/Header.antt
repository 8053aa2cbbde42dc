-- ===== src/Protocol/Header.antt =====
-- class MessageHeader and CheckMisbehaving of network/include/protocol/message.h and
-- network/src/protocol/message.cpp.
use mathlib.Core.List.{append-nil}
use btcdemo.Prelude.{
  ℕ, zero, suc, ◌-◌, ◌^◌, ◌≤◌, ◌<◌, ◌≡◌, refl, ap, ◌∙◌, Bool, true, false, not, ◌&&◌, ◌||◌, List,
  [], ◌∷◌, ◌++◌, length, take, replicate, ltb, lt→ltb, ltb-false, dec_lt, ◌↔◌, ◌==◌, if◌then◌else◌,
  arith,
}
use btcdemo.Prelude.Bytes.{IsByte, All}
use btcdemo.Prelude.Hash.{bytes_eq}
use btcdemo.Stream.{Input, Result, ok, ◌>>=◌}
use btcdemo.Stream.Window.{Left}
use btcdemo.Serialize.{ser_write_data, ser_read_data, read_elements}
use btcdemo.Serialize.Steps.{regroup}
use btcdemo.Serialize.Text.{NotNul}
use btcdemo.Protocol.{
  Text, max_message_size, mainnet_magic, testnet_magic, regtest_magic, command_size, msg_version,
  msg_verack, msg_addr, msg_inv, msg_get_data, msg_merkle_block, msg_get_blocks, msg_get_headers,
  msg_tx, msg_headers, msg_block, msg_get_addr, msg_mempool, msg_ping, msg_pong, msg_not_found,
  msg_filter_load, msg_filter_add, msg_filter_clear, msg_reject, msg_send_headers, msg_fee_filter,
  msg_send_cmpct, msg_cmpct_block, msg_get_block_txn, msg_block_txn,
}
use btcdemo.Serialize.Objects.{Reads, read_word, read_array}

pub record MessageHeader : Type 0 where
  pub magic : ℕ
  pub command_bytes : List ℕ
  pub payload_length : ℕ
  pub checksum : ℕ

unfoldable pub clear : MessageHeader → MessageHeader
clear h = record {
  magic = 0;
  command_bytes = replicate command_size 0;
  payload_length = 0;
  checksum = 0;
}

-- The text is copied over zeros, as much of it as the array holds.
unfoldable pub command_array : Text → List ℕ
command_array command =
    let size = if ltb (length command) command_size then length command else command_size in
    take size command ++ replicate (command_size - size) 0

unfoldable pub set_command : Text → MessageHeader → MessageHeader
unfolding command_array
set_command command h = record h { command_bytes = command_array command }

-- Up to the first zero, or the whole array.
unfoldable pub up_to_nul : List ℕ → Text
up_to_nul [] = []
up_to_nul (b ∷ bs) = if b == 0 then [] else b ∷ up_to_nul bs

unfoldable pub command : MessageHeader → Text
unfolding up_to_nul
command h = up_to_nul h.command_bytes

unfoldable pub of_parts : ℕ → Text → ℕ → ℕ → MessageHeader
of_parts magic text payload_length checksum = set_command text (record {
  magic = magic;
  command_bytes = replicate command_size 0;
  payload_length = payload_length;
  checksum = checksum;
})

-- The commands that IsValid compares with.
abbrev pub known_commands : List Text
known_commands =
    msg_version ∷ msg_verack ∷ msg_addr ∷ msg_inv ∷ msg_get_data ∷ msg_merkle_block ∷ msg_get_blocks
    ∷ msg_get_headers ∷ msg_tx ∷ msg_headers ∷ msg_block ∷ msg_get_addr ∷ msg_mempool ∷ msg_ping
    ∷ msg_pong ∷ msg_not_found ∷ msg_filter_load ∷ msg_filter_add ∷ msg_filter_clear ∷ msg_reject
    ∷ msg_send_headers ∷ msg_fee_filter ∷ msg_send_cmpct ∷ msg_cmpct_block ∷ msg_get_block_txn
    ∷ msg_block_txn ∷ []

abbrev pub is_one_of : Text → List Text → Bool
is_one_of text [] = false
is_one_of text (c ∷ cs) = bytes_eq text c || is_one_of text cs

unfoldable pub is_network : ℕ → Bool
is_network magic =
    (magic == mainnet_magic) || ((magic == testnet_magic) || (magic == regtest_magic))

-- A magic that is of no network accepts those of all three.
unfoldable pub is_valid : ℕ → MessageHeader → Bool
is_valid magic h =
    if (if is_network magic then not (h.magic == magic) else not (is_network h.magic))
    then false
    else if not (is_one_of (command h) known_commands)
    then false
    else if ltb max_message_size h.payload_length
    then false
    else true

unfoldable pub header_eq : MessageHeader → MessageHeader → Bool
header_eq a b =
    (a.magic == b.magic)
    && (bytes_eq a.command_bytes b.command_bytes
        && ((a.payload_length == b.payload_length) && (a.checksum == b.checksum)))

unfoldable pub serialize : MessageHeader → List ℕ
serialize h =
    ser_write_data 4 h.magic
    ++ (h.command_bytes ++ (ser_write_data 4 h.payload_length ++ ser_write_data 4 h.checksum))

unfoldable pub deserialize : ℕ → Input → Result (MessageHeader × Input)
deserialize stale s = do
  (magic, s1) ← ser_read_data stale 4 s
  (command_bytes, s2) ← read_elements stale command_size s1
  (payload_length, s3) ← ser_read_data stale 4 s2
  (checksum, s4) ← ser_read_data stale 4 s3
  ok (
    record {
      magic = magic;
      command_bytes = command_bytes;
      payload_length = payload_length;
      checksum = checksum;
    },
    s4,
  )

-- The constructor from 24 raw bytes.
unfoldable pub of_raw : ℕ → List ℕ → Result (MessageHeader × Input)
of_raw stale raw =
    deserialize stale (record { container = take 24 raw; position = 0; interrupted = false })

-- Of the node: the version that it announced, and whether the handshake is complete.
unfoldable pub check_misbehaving : Text → ℕ → Bool → Bool
check_misbehaving command version is_handshake_completed =
    if not (bytes_eq command msg_version) && (version == 0)
    then false
    else if not (bytes_eq command msg_version)
        && (not (bytes_eq command msg_verack) && not is_handshake_completed)
    then false
    else true

up_to_nul-zeros : (n : ℕ) → up_to_nul (replicate n 0) ≡ []
unfolding up_to_nul
up_to_nul-zeros zero = refl
up_to_nul-zeros (suc n) = refl

up_to_nul-append :
    (text rest : List ℕ) → All NotNul text → up_to_nul (text ++ rest) ≡ text ++ up_to_nul rest
unfolding up_to_nul
up_to_nul-append [] rest h = refl
up_to_nul-append (c ∷ text) rest (some_char, h) = ground (arith, up_to_nul-append text rest h)

All-take : (n : ℕ) (text : List ℕ) → All NotNul text → All NotNul (take n text)
All-take zero text h = tt
All-take (suc n) [] h = h
All-take (suc n) (c ∷ text) (some_char, h) = (some_char, All-take n text h)

copied :
    (text : List ℕ) → take (if ltb (length text) 12 then length text else 12) text ≡ take 12 text
copied text = elim (dec_lt (length text) 12) [
  | yes less ↦ rw (lt→ltb _ _ less) (take_more (length text) 12 text refl (omega arith))
  | no more ↦ rw (ltb-false _ _ more) refl
]
  where
    take_more : (m n : ℕ) (xs : List ℕ) → length xs ≡ m → m ≤ n → take m xs ≡ take n xs
    take_more zero zero xs e h = refl
    take_more zero (suc n) [] e h = refl
    take_more zero (suc n) (x ∷ xs) e h = absurd (omega (arith, e))
    take_more (suc m) zero xs e h = absurd (omega (arith, h))
    take_more (suc m) (suc n) [] e h = refl
    take_more (suc m) (suc n) (x ∷ xs) e h =
        ap (◌∷◌ x) (take_more m n xs (omega (arith, e)) (omega (arith, h)))

-- The command that was set is the one that is read, cut to 12 characters, if it has no zero byte.
pub command-set_command :
    (text : Text) (h : MessageHeader)
    → All NotNul text
    → command (set_command text h) ≡ take command_size text
unfolding command set_command command_array
command-set_command text h chars =
    let size = if ltb (length text) command_size then length text else command_size in
    up_to_nul-append (take size text) (replicate (command_size - size) 0) (All-take size text chars)
    ∙ rw (up_to_nul-zeros (command_size - size)) (append-nil (take size text) ∙ copied text)

-- The fields fit their types.
pub record IsMessageHeader (h : MessageHeader) : Type 0 where
  pub magic_fits : h.magic < 2 ^ 32
  pub command_full : length h.command_bytes ≡ command_size
  pub command_bytes : All IsByte h.command_bytes
  pub length_fits : h.payload_length < 2 ^ 32
  pub checksum_fits : h.checksum < 2 ^ 32

-- A message header that was serialized comes back field by field, whatever stood in the buffers, and
-- the source stands behind it, if the fields fit their types.
pub deserialize-serialize_message_header :
    (stale : ℕ) (h : MessageHeader) (s : Input) (ys : List ℕ)
    → IsMessageHeader h
    → Left s (serialize h ++ ys)
    → Reads (deserialize stale) h s ys
unfolding deserialize serialize
deserialize-serialize_message_header stale h s ys fits l =
    let (s1, e1, l1) =
      read_word stale 3 h.magic s _ fits.magic_fits (regroup (ser_write_data 4 h.magic) _ ys l) in
    let (s2, e2, l2) =
      read_array stale 12 h.command_bytes s1 _ fits.command_full fits.command_bytes
        (regroup h.command_bytes _ ys l1) in
    let (s3, e3, l3) =
      read_word stale 3 h.payload_length s2 _ fits.length_fits
        (regroup (ser_write_data 4 h.payload_length) _ ys l2) in
    let (s4, e4, l4) = read_word stale 3 h.checksum s3 ys fits.checksum_fits l3 in
    (s4, rw (e1, e2, e3, e4) refl, l4)

-- IsValid against one of the three networks accepts the headers of that network alone, with a
-- command of the list and no more than the largest payload.
pub is_valid_iff :
    (magic : ℕ) (h : MessageHeader)
    → is_network magic ≡ true
    → (is_valid magic h ≡ true) ↔ (
        (h.magic ≡ magic)
        × (is_one_of (command h) known_commands ≡ true)
        × (h.payload_length ≤ max_message_size))
unfolding is_valid
is_valid_iff magic h network =
    rw network (tests (is_one_of (command h) known_commands) h.payload_length)
  where
    tests :
        (q : Bool) (n : ℕ)
        → ((if not (h.magic == magic)
              then false
              else if not q
              then false
              else if ltb max_message_size n
              then false
              else true)
            ≡ true)
          ↔ ((h.magic ≡ magic) × (q ≡ true) × (n ≤ max_message_size))
    tests true n = ground arith
    tests false n = ground arith
