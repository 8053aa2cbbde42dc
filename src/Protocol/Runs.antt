-- ===== src/Protocol/Runs.antt =====
-- Messages on concrete values.
use btcdemo.Prelude.{ℕ, ◌≡◌, refl, true, false, List, [], ◌∷◌, ◌++◌, none, arith}
use btcdemo.Prelude.Hash.{null_hash, IsHash}
use btcdemo.Stream.{Input}
use btcdemo.Stream.Window.{Left}
use btcdemo.NetAddr.{NetAddr}
use btcdemo.NetAddr.Codec.{IsAddr}
use btcdemo.Protocol.{msg_block, mainnet_magic, is_service_flag_desirable}
use btcdemo.Serialize.Objects.{Reads}
use btcdemo.Protocol.Header.{MessageHeader, command, is_valid, is_network}
use btcdemo.Protocol.Ping.{Ping}
use btcdemo.Protocol.Reject.{
  Reject, IsReject, received, serialize, deserialize, deserialize-serialize_reject,
}
use btcdemo.Protocol.Version.{Version, IsVersion, deserialize-serialize_version}
use btcdemo.Protocol.Version.{
  serialize as serialize_version, deserialize as deserialize_version, received as received_version,
}
use btcdemo.Protocol.Inventory.{InvVect, IsInvVect}
use btcdemo.Node.{Node, new_node}
use btcdemo.Protocol.Handshake.{Context, version_recv_handler}

abbrev from : List ℕ → Input
from bytes = record { container = bytes ++ []; position = 0; interrupted = false }

from-Left : (bytes : List ℕ) → Left (from bytes) (bytes ++ [])
from-Left bytes = record { inside = omega arith; bytes = refl }

abbrev header : MessageHeader
header = record {
  magic = 0xd9b4_bef9;
  command_bytes = 112 ∷ 105 ∷ 110 ∷ 103 ∷ 0 ∷ 0 ∷ 0 ∷ 0 ∷ 0 ∷ 0 ∷ 0 ∷ 0 ∷ [];
  payload_length = 8;
  checksum = 0x1234_5678;
}

header_valid : is_valid mainnet_magic header ≡ true
unfolding is_valid is_network command
header_valid = refl

abbrev ping : Ping
ping = record { nonce = 0xdead_beef; protocol_version = 70015 }

null_hash-IsHash : IsHash null_hash
null_hash-IsHash = record { size = refl; bytes = search (arith) }

abbrev rejected : Reject
rejected = record {
  message = msg_block;
  ccode = 0x10;
  reason = 98 ∷ 97 ∷ 100 ∷ [];
  data_hash = null_hash;
}

rejected-IsReject : IsReject rejected
rejected-IsReject = record {
  message_chars = search (arith);
  reason_chars = search (arith);
  ccode_fits = omega arith;
  data_hash = null_hash-IsHash;
}

deserialize-serialize_reject_example :
    Reads (deserialize 0 rejected) (received rejected rejected) (from (serialize rejected)) []
deserialize-serialize_reject_example =
    deserialize-serialize_reject 0 rejected rejected (from (serialize rejected)) []
      rejected-IsReject (omega arith) (from-Left (serialize rejected))

abbrev item : InvVect
item = record { type = 2; hash = null_hash }

item-IsInvVect : IsInvVect item
item-IsInvVect = record { type_fits = omega arith; hash = null_hash-IsHash }

abbrev dns : NetAddr
dns = record {
  ip = 0 ∷ 0 ∷ 0 ∷ 0 ∷ 0 ∷ 0 ∷ 0 ∷ 0 ∷ 0 ∷ 0 ∷ 0xff ∷ 0xff ∷ 8 ∷ 8 ∷ 4 ∷ 4 ∷ [];
  port = 8333;
  scope_id = 0;
  services = 1;
  timestamp = 1231006505;
}

dns-IsAddr : IsAddr dns
dns-IsAddr = record {
  ip = record { size = refl; bytes = search (arith) };
  port_fits = omega arith;
  services_fit = omega arith;
  timestamp_fits = omega arith;
}

abbrev hello : Version
hello = record {
  protocol_version = 70015;
  services = 9;
  timestamp = 1231006505;
  addr_recv = dns;
  addr_from = dns;
  nonce = 77;
  user_agent = 47 ∷ 98 ∷ 47 ∷ [];
  start_height = 100;
  relay = 1;
}

hello-IsVersion : IsVersion hello
hello-IsVersion = record {
  version_fits = omega arith;
  services_fit = omega arith;
  timestamp_fits = omega arith;
  addr_recv = dns-IsAddr;
  addr_from = dns-IsAddr;
  nonce_fits = omega arith;
  agent_chars = search (arith);
  height_fits = omega arith;
  relay_fits = omega arith;
}

deserialize-serialize_version_example :
    Reads
      (deserialize_version 0 hello)
      (received_version hello hello)
      (from (serialize_version hello))
      []
deserialize-serialize_version_example =
    deserialize-serialize_version 0 hello hello (from (serialize_version hello)) [] hello-IsVersion
      refl refl (omega arith) (from-Left (serialize_version hello))

abbrev outbound : Node
outbound = new_node 0 77 1 dns false false []

abbrev world : Context
world = record {
  now = 1600000000;
  incoming_nonce_ok = true;
  advertise_local = false;
  is_initial_block_download = false;
  local_service = 9;
  random = 42;
  peers_size = none;
}

-- This message is accepted.
handshake : (version_recv_handler world hello outbound).1.version ≡ 70015
unfolding version_recv_handler is_service_flag_desirable new_node btcdemo.Node.new_connection
handshake = refl
