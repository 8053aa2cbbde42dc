-- ===== src/MsgProcess.antt =====
-- network/include/msg_process.h and network/src/msg_process.cpp: ParseMsgData with HandleMsgData here,
-- ParseMsg in Frames. The hash function is an argument, and so are the old contents of the read
-- buffers, `stale` and `returned`. A deserializer that throws ends the call with its error.
pub mod Frames
pub mod Guard
mod Runs
use btcdemo.Prelude.{
  ℕ, Bool, true, false, not, List, [], ◌∷◌, Option, none, some, take, leb, ◌==◌, if◌then◌else◌,
}
use btcdemo.Prelude.Hash.{Hash256, null_hash, bytes_eq}
use btcdemo.Endian.{from_little_endian}
use btcdemo.Stream.{Input, Result, ok, err, ◌>>=◌}
use btcdemo.Node.{Node, is_handshake_completed, misbehaving}
use btcdemo.Protocol.{
  Text, msg_version, msg_verack, msg_addr, msg_inv, msg_get_addr, msg_ping, msg_pong, msg_reject,
  msg_send_headers, msg_send_cmpct,
}
use btcdemo.Protocol.Header.{MessageHeader, check_misbehaving}
use btcdemo.Protocol.Header
use btcdemo.Protocol.Inventory.{
  serialize_inv, deserialize_inv, inv_is_valid, serialize_addr_list, deserialize_addr_list,
  addr_is_valid,
}
use btcdemo.Protocol.Ping.{
  Ping, Pong, ping_recv_handler, pong_serialize, pong_deserialize, pong_is_valid, pong_recv_handler,
}
use btcdemo.Protocol.Ping
use btcdemo.Protocol.Reject
use btcdemo.Protocol.Reject.{Reject}
use btcdemo.Protocol.SendCompact
use btcdemo.Protocol.Version
use btcdemo.Protocol.Handshake.{Context, Action, version_recv_handler, verack_recv_handler}

-- What the handlers do to the world outside: their actions, or the answer to a ping.
pub data Effect : Type 0 where
  acts : List Action → Effect
  answers : Option Pong → Effect

abbrev pub Outcome : Type 0
Outcome = Bool × Node × Effect

abbrev pub nothing : Effect
nothing = acts []

-- `Reject reject;`
unfoldable pub new_reject : Reject
new_reject = record { message = []; ccode = 0; reason = []; data_hash = null_hash }

-- `src_node->mutable_misbehavior()->Misbehaving(src_node->id(), 1)`
unfoldable pub blame : Node → Node
blame n = record n { misbehavior = misbehaving 1 n.misbehavior }

-- A message that is read, and what is done with it.
unfoldable pub read_then {ℓ} : {A : Type ℓ} → Result (A × Input) → (A → Outcome) → Result Outcome
read_then (ok (m, s)) f = ok (f m)
read_then (err e) f = err e

module _ (sha256 : List ℕ → Hash256) where
  -- `util::FromLittleEndian<uint32_t>(msg.GetHash().data())` of the bytes of a message.
  unfoldable pub checksum_of : List ℕ → ℕ
  checksum_of bytes = from_little_endian 4 (take 4 (sha256 bytes))

  -- HandleMsgData of a message with its command, its bytes and whether it is valid, and what its
  -- RecvHandler does.
  unfoldable pub handle_msg_data : Node → MessageHeader → Text → List ℕ → Bool → Outcome → Outcome
  handle_msg_data n h command bytes is_valid recv =
      if not (h.checksum == checksum_of bytes)
      then (false, n, nothing)
      else if not is_valid
      then (false, n, nothing)
      else if not (check_misbehaving command n.version (is_handshake_completed n.connection))
      then (false, blame n, nothing)
      else recv

  module _ (stale returned : ℕ) (c : Context) (n : Node) (h : MessageHeader) (s : Input) where
    unfoldable pub on_version : Result Outcome
    on_version = read_then (Version.deserialize stale Version.default s) λ m.
        let (result, node, actions) = version_recv_handler c m n in
        handle_msg_data n h msg_version (Version.serialize m) (Version.is_valid m)
          (result, node, acts actions)

    unfoldable pub on_verack : Result Outcome
    on_verack =
        let (result, node, actions) = verack_recv_handler c n in
        ok (handle_msg_data n h msg_verack [] true (result, node, acts actions))

    unfoldable pub on_addr : Result Outcome
    on_addr = read_then (deserialize_addr_list stale returned s) (λ m.
        handle_msg_data n h msg_addr (serialize_addr_list m) (addr_is_valid m) (true, n, nothing))

    unfoldable pub on_inv : Result Outcome
    on_inv =
        read_then (deserialize_inv stale returned s)
          (λ m. handle_msg_data n h msg_inv (serialize_inv m) (inv_is_valid m) (true, n, nothing))

    unfoldable pub on_get_addr : Result Outcome
    on_get_addr = ok (handle_msg_data n h msg_get_addr [] true (true, n, nothing))

    unfoldable pub on_ping : Result Outcome
    on_ping =
        read_then (Ping.deserialize stale (record { nonce = 0; protocol_version = n.version }) s)
          (λ m.
            handle_msg_data n h msg_ping (Ping.serialize m) (Ping.is_valid m)
              (true, n, answers (ping_recv_handler n.version m)))

    unfoldable pub on_pong : Result Outcome
    on_pong = read_then (pong_deserialize stale s) λ m.
        let (result, nonce) = pong_recv_handler n.ping_nonce_sent m in
        handle_msg_data n h msg_pong (pong_serialize m) (pong_is_valid m)
          (result, record n { ping_nonce_sent = nonce }, nothing)

    unfoldable pub on_reject : Result Outcome
    on_reject = read_then (Reject.deserialize stale new_reject s) (λ m.
        handle_msg_data n h msg_reject (Reject.serialize m) (Reject.is_valid m) (true, n, nothing))

    unfoldable pub on_send_headers : Result Outcome
    on_send_headers = ok (handle_msg_data n h msg_send_headers [] true (true, n, nothing))

    unfoldable pub on_send_cmpct : Result Outcome
    on_send_cmpct = read_then (SendCompact.deserialize stale s) (λ m.
        handle_msg_data n h msg_send_cmpct (SendCompact.serialize m) (SendCompact.is_valid m)
          (true, n, nothing))

  -- ParseMsgData of the payload. IsValid is called with its default, the magic 0.
  unfoldable pub parse_msg_data : ℕ → ℕ → Context → List ℕ → Node → MessageHeader → Result Outcome
  parse_msg_data stale returned c raw n h =
      let s : Input = record {
        container = take h.payload_length raw;
        position = 0;
        interrupted = false;
      } in
      let is = λ (command : Text). bytes_eq (Header.command h) command in
      if not (Header.is_valid 0 h)
      then ok (false, n, nothing)
      else if is msg_version
      then on_version stale returned c n h s
      else if is msg_verack
      then on_verack stale returned c n h s
      else if is msg_addr
      then on_addr stale returned c n h s
      else if is msg_inv
      then on_inv stale returned c n h s
      else if is msg_get_addr
      then on_get_addr stale returned c n h s
      else if is msg_ping
      then on_ping stale returned c n h s
      else if is msg_pong
      then on_pong stale returned c n h s
      else if is msg_reject
      then on_reject stale returned c n h s
      else if is msg_send_headers
      then on_send_headers stale returned c n h s
      else if is msg_send_cmpct
      then on_send_cmpct stale returned c n h s
      else ok (false, n, nothing)
