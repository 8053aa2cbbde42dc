-- ===== src/Protocol.antt =====
-- The messages of network/include/protocol and network/src/protocol, with the names and the limits
-- of utility/include/constants.h and the versions and services of network/include/node.h. A text is
-- the list of its bytes, an enumeration its number and a bool the byte that it is in memory.
-- RecvHandlers that return true and do nothing else, and accessors, are left out.
pub mod Cut
pub mod Header
pub mod Inventory
pub mod GetBlocks
pub mod Ping
pub mod Reject
pub mod SendCompact
pub mod Version
pub mod Handshake
mod Runs
use btcdemo.Prelude.{
  ℕ, ◌+◌, ◌^◌, List, [], ◌∷◌, Bool, length, take, ltb, if◌then◌else◌, bit_and, ◌==◌,
}

abbrev pub Text : Type 0
Text = List ℕ

abbrev pub max_message_size : ℕ
max_message_size = 4000000

abbrev pub max_block_locator_size : ℕ
max_block_locator_size = 32

abbrev pub max_sub_version_size : ℕ
max_sub_version_size = 256

abbrev pub max_reject_message_length : ℕ
max_reject_message_length = 111

abbrev pub mainnet_magic : ℕ
mainnet_magic = 0xd9b4_bef9

abbrev pub testnet_magic : ℕ
testnet_magic = 0x0709_110b

abbrev pub regtest_magic : ℕ
regtest_magic = 0xdab5_bffa

abbrev pub command_size : ℕ
command_size = 12

abbrev pub unknown_version : ℕ
unknown_version = 0

abbrev pub addr_time_version : ℕ
addr_time_version = 31402

abbrev pub getheaders_version : ℕ
getheaders_version = 31800

abbrev pub bip31_version : ℕ
bip31_version = 60000

abbrev pub relayed_txs_version : ℕ
relayed_txs_version = 70001

abbrev pub sendheaders_version : ℕ
sendheaders_version = 70012

abbrev pub short_ids_blocks_version : ℕ
short_ids_blocks_version = 70014

abbrev pub invalid_cb_no_ban_version : ℕ
invalid_cb_no_ban_version = 70015

abbrev pub protocol_version : ℕ
protocol_version = invalid_cb_no_ban_version

abbrev pub min_peer_proto_version : ℕ
min_peer_proto_version = getheaders_version

abbrev pub node_witness : ℕ
node_witness = 8

abbrev pub desirable_service_flags : ℕ
desirable_service_flags = 9

-- `!(kDesirableServiceFlags & ~services)`: all of the desirable bits are set.
unfoldable pub is_service_flag_desirable : ℕ → Bool
is_service_flag_desirable services =
    bit_and services desirable_service_flags == desirable_service_flags

-- A text that is longer than the limit is cut to it, by `substr` and by `resize`.
unfoldable pub cut : ℕ → Text → Text
cut limit text = if ltb limit (length text) then take limit text else text

-- "version"
abbrev pub msg_version : Text
msg_version = 118 ∷ 101 ∷ 114 ∷ 115 ∷ 105 ∷ 111 ∷ 110 ∷ []

-- "verack"
abbrev pub msg_verack : Text
msg_verack = 118 ∷ 101 ∷ 114 ∷ 97 ∷ 99 ∷ 107 ∷ []

-- "addr"
abbrev pub msg_addr : Text
msg_addr = 97 ∷ 100 ∷ 100 ∷ 114 ∷ []

-- "inv"
abbrev pub msg_inv : Text
msg_inv = 105 ∷ 110 ∷ 118 ∷ []

-- "getdata"
abbrev pub msg_get_data : Text
msg_get_data = 103 ∷ 101 ∷ 116 ∷ 100 ∷ 97 ∷ 116 ∷ 97 ∷ []

-- "merkleblock"
abbrev pub msg_merkle_block : Text
msg_merkle_block = 109 ∷ 101 ∷ 114 ∷ 107 ∷ 108 ∷ 101 ∷ 98 ∷ 108 ∷ 111 ∷ 99 ∷ 107 ∷ []

-- "getblocks"
abbrev pub msg_get_blocks : Text
msg_get_blocks = 103 ∷ 101 ∷ 116 ∷ 98 ∷ 108 ∷ 111 ∷ 99 ∷ 107 ∷ 115 ∷ []

-- "getheaders"
abbrev pub msg_get_headers : Text
msg_get_headers = 103 ∷ 101 ∷ 116 ∷ 104 ∷ 101 ∷ 97 ∷ 100 ∷ 101 ∷ 114 ∷ 115 ∷ []

-- "tx"
abbrev pub msg_tx : Text
msg_tx = 116 ∷ 120 ∷ []

-- "headers"
abbrev pub msg_headers : Text
msg_headers = 104 ∷ 101 ∷ 97 ∷ 100 ∷ 101 ∷ 114 ∷ 115 ∷ []

-- "block"
abbrev pub msg_block : Text
msg_block = 98 ∷ 108 ∷ 111 ∷ 99 ∷ 107 ∷ []

-- "getaddr"
abbrev pub msg_get_addr : Text
msg_get_addr = 103 ∷ 101 ∷ 116 ∷ 97 ∷ 100 ∷ 100 ∷ 114 ∷ []

-- "mempool"
abbrev pub msg_mempool : Text
msg_mempool = 109 ∷ 101 ∷ 109 ∷ 112 ∷ 111 ∷ 111 ∷ 108 ∷ []

-- "ping"
abbrev pub msg_ping : Text
msg_ping = 112 ∷ 105 ∷ 110 ∷ 103 ∷ []

-- "pong"
abbrev pub msg_pong : Text
msg_pong = 112 ∷ 111 ∷ 110 ∷ 103 ∷ []

-- "notfound"
abbrev pub msg_not_found : Text
msg_not_found = 110 ∷ 111 ∷ 116 ∷ 102 ∷ 111 ∷ 117 ∷ 110 ∷ 100 ∷ []

-- "filterload"
abbrev pub msg_filter_load : Text
msg_filter_load = 102 ∷ 105 ∷ 108 ∷ 116 ∷ 101 ∷ 114 ∷ 108 ∷ 111 ∷ 97 ∷ 100 ∷ []

-- "filteradd"
abbrev pub msg_filter_add : Text
msg_filter_add = 102 ∷ 105 ∷ 108 ∷ 116 ∷ 101 ∷ 114 ∷ 97 ∷ 100 ∷ 100 ∷ []

-- "filterclear"
abbrev pub msg_filter_clear : Text
msg_filter_clear = 102 ∷ 105 ∷ 108 ∷ 116 ∷ 101 ∷ 114 ∷ 99 ∷ 108 ∷ 101 ∷ 97 ∷ 114 ∷ []

-- "reject"
abbrev pub msg_reject : Text
msg_reject = 114 ∷ 101 ∷ 106 ∷ 101 ∷ 99 ∷ 116 ∷ []

-- "sendheaders"
abbrev pub msg_send_headers : Text
msg_send_headers = 115 ∷ 101 ∷ 110 ∷ 100 ∷ 104 ∷ 101 ∷ 97 ∷ 100 ∷ 101 ∷ 114 ∷ 115 ∷ []

-- "feefilter"
abbrev pub msg_fee_filter : Text
msg_fee_filter = 102 ∷ 101 ∷ 101 ∷ 102 ∷ 105 ∷ 108 ∷ 116 ∷ 101 ∷ 114 ∷ []

-- "sendcmpct"
abbrev pub msg_send_cmpct : Text
msg_send_cmpct = 115 ∷ 101 ∷ 110 ∷ 100 ∷ 99 ∷ 109 ∷ 112 ∷ 99 ∷ 116 ∷ []

-- "cmpctblock"
abbrev pub msg_cmpct_block : Text
msg_cmpct_block = 99 ∷ 109 ∷ 112 ∷ 99 ∷ 116 ∷ 98 ∷ 108 ∷ 111 ∷ 99 ∷ 107 ∷ []

-- "getblocktxn"
abbrev pub msg_get_block_txn : Text
msg_get_block_txn = 103 ∷ 101 ∷ 116 ∷ 98 ∷ 108 ∷ 111 ∷ 99 ∷ 107 ∷ 116 ∷ 120 ∷ 110 ∷ []

-- "blocktxn"
abbrev pub msg_block_txn : Text
msg_block_txn = 98 ∷ 108 ∷ 111 ∷ 99 ∷ 107 ∷ 116 ∷ 120 ∷ 110 ∷ []
