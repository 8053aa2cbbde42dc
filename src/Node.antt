-- ===== src/Node.antt =====
-- class Node and the classes that it is made of, of network/include/node.h and
-- network/src/node.cpp. Locks are left out. A pointer to a timer is whether the timer runs, and the
-- pointer `bev_` is a number, with 0 for null. A C++ int is its bit pattern of 32 bits.
pub mod Behavior
pub mod Flooding
pub mod Counters
pub mod Table
pub mod Entries
pub mod Life
pub mod Sound
pub mod Join
pub mod Reach
pub mod Timeouts
mod Runs
use btcdemo.Prelude.{
  ℕ, ◌+◌, ◌-◌, ◌%◌, ◌^◌, Bool, true, false, not, ◌&&◌, List, [], ltb, leb, ◌==◌, if◌then◌else◌,
  bit_and,
}
use btcdemo.Prelude.Hash.{Hash256}
use btcdemo.NetAddr.{NetAddr}
use btcdemo.NetAddr.Category.{is_valid, is_routable}

pub data ConnectionState : Type 0 where
  initial_state established disconnected state_max : ConnectionState

-- `connection_state_ == kEstablished`
abbrev pub is_established : ConnectionState → Bool
is_established established = true
is_established initial_state = false
is_established disconnected = false
is_established state_max = false

-- `connection_state_ == kDisconnected`
abbrev pub is_disconnected_state : ConnectionState → Bool
is_disconnected_state disconnected = true
is_disconnected_state initial_state = false
is_disconnected_state established = false
is_disconnected_state state_max = false

-- Of the callbacks only that for kDisconnected is ever registered; `has_callback` says whether it is.
pub record NodeConnection : Type 0 where
  pub bev : ℕ
  pub addr : NetAddr
  pub host_name : List ℕ
  pub local_addr : NetAddr
  pub manual : Bool
  pub connection_state : ConnectionState
  pub has_callback : Bool
  pub socket_no_msg : Bool

unfoldable pub new_connection : ℕ → NetAddr → Bool → List ℕ → NodeConnection
new_connection bev addr manual host_name = record {
  bev = bev;
  addr = addr;
  host_name = host_name;
  local_addr = btcdemo.NetAddr.new;
  manual = manual;
  connection_state = initial_state;
  has_callback = false;
  socket_no_msg = true;
}

unfoldable pub is_local_addr_good : Bool → NodeConnection → Bool
is_local_addr_good discover_local c =
    discover_local && (is_routable c.addr && is_routable c.local_addr)

unfoldable pub is_handshake_completed : NodeConnection → Bool
is_handshake_completed c = is_established c.connection_state

unfoldable pub is_disconnected : NodeConnection → Bool
is_disconnected c = is_disconnected_state c.connection_state

unfoldable pub set_host_name : List ℕ → NodeConnection → NodeConnection
set_host_name name c = record c { host_name = name }

-- A valid address is kept.
unfoldable pub set_local_addr : NetAddr → NodeConnection → NodeConnection
set_local_addr addr c = record c {
  local_addr = if is_valid c.local_addr then c.local_addr else addr;
}

unfoldable pub set_socket_no_msg : Bool → NodeConnection → NodeConnection
set_socket_no_msg no_msg c = record c { socket_no_msg = no_msg }

unfoldable pub register_callback : NodeConnection → NodeConnection
register_callback c = record c { has_callback = true }

-- The assignment of set_connection_state; what the callback does is in Node/Life.
unfoldable pub assign_state : ConnectionState → NodeConnection → NodeConnection
assign_state state c = record c { connection_state = state }

-- `known_addrs` are the contents of the ring of 3000 hashes, as numbers of 64 bits.
pub record FloodingAddrs : Type 0 where
  pub addrs_to_send : List NetAddr
  pub known_addrs : List ℕ
  pub sent_getaddr : Bool

pub record NodeTimers : Type 0 where
  pub no_msg_timer : Bool
  pub no_sending_timer : Bool
  pub no_receiving_timer : Bool
  pub shakehands_timer : Bool
  pub ping_timer : Bool
  pub advertise_local_addr_timer : Bool
  pub broadcast_addrs_timer : Bool

pub record Misbehavior : Type 0 where
  pub should_ban : Bool
  pub score : ℕ
  pub unconnecting_headers_len : ℕ

-- BlockSyncTimeout, BlockSyncState1 and NodeBlocksInFlight: the fields that the shared counters
-- follow.
pub record BlockSync : Type 0 where
  pub protect : Bool
  pub sync_started : Bool
  pub num_valid_headers : ℕ

pub record Node : Type 0 where
  pub id : ℕ
  pub is_inbound : Bool
  pub services : ℕ
  pub local_host_nonce : ℕ
  pub version : ℕ
  pub start_height : ℕ
  pub connection : NodeConnection
  pub flooding_addrs : FloodingAddrs
  pub relay_txes : ℕ
  pub ping_nonce_sent : ℕ
  pub timers : NodeTimers
  pub misbehavior : Misbehavior
  pub block_sync : BlockSync
  pub blocks_in_flight : List Hash256
  pub is_witness : Bool

abbrev no_timers : NodeTimers
no_timers = record {
  no_msg_timer = false;
  no_sending_timer = false;
  no_receiving_timer = false;
  shakehands_timer = false;
  ping_timer = false;
  advertise_local_addr_timer = false;
  broadcast_addrs_timer = false;
}

-- The constructor; `id` is the one that GetNewNodeId gives, and `nonce` the random number.
unfoldable pub new_node : ℕ → ℕ → ℕ → NetAddr → Bool → Bool → List ℕ → Node
new_node id nonce bev addr is_inbound manual host_name = record {
  id = id;
  is_inbound = is_inbound;
  services = 0;
  local_host_nonce = nonce;
  version = 0;
  start_height = 0;
  connection = new_connection bev addr manual host_name;
  flooding_addrs = record { addrs_to_send = []; known_addrs = []; sent_getaddr = false };
  relay_txes = 0;
  ping_nonce_sent = 0;
  timers = no_timers;
  misbehavior = record { should_ban = false; score = 0; unconnecting_headers_len = 0 };
  block_sync = record { protect = false; sync_started = false; num_valid_headers = 0 };
  blocks_in_flight = [];
  is_witness = false;
}

unfoldable pub stop_all_timers : Node → Node
stop_all_timers n = record n { timers = no_timers }

unfoldable pub should_update_time : Node → Bool
should_update_time n = (n.misbehavior.score == 0) && is_established n.connection.connection_state

-- kNodeNetwork is the lowest bit.
unfoldable pub is_client : Node → Bool
is_client n = bit_and n.services 1 == 0

unfoldable pub is_prefered_download : Node → Bool
unfolding is_client
is_prefered_download n = not n.is_inbound && not (is_client n)

abbrev pub default_banscore_threshold : ℕ
default_banscore_threshold = 100

-- Misbehavior::Misbehaving. The score is an int that the comparison with the unsigned threshold
-- reads as its bit pattern.
unfoldable pub misbehaving : ℕ → Misbehavior → Misbehavior
misbehaving howmuch m =
    let score = (m.score + howmuch) % 2 ^ 32 in
    if howmuch == 0
    then m
    else if leb default_banscore_threshold score
        && ltb ((score + 2 ^ 32 - howmuch) % 2 ^ 32) default_banscore_threshold
    then record m { score = score; should_ban = true }
    else record m { score = score }
