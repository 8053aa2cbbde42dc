-- ===== src/Protocol/Handshake.antt =====
-- Version::RecvHandler and Verack::RecvHandler of network/src/protocol/version.cpp and verack.cpp.
-- What a handler sends, and what it does to the address book and to the timers, is the list of its
-- actions in their order. The clock, the nonces of our own connections, the download state, the
-- random number and the address book's size are arguments.
use btcdemo.Prelude.{
  ℕ, ◌+◌, ◌-◌, ◌%◌, ◌^◌, ◌≤◌, ◌≡◌, ◌≢◌, ◌⊎◌, Bool, true, false, not, ◌&&◌, ◌||◌, List, [], ◌∷◌,
  ◌++◌, Option, none, some, ltb, leb, ◌==◌, if◌then◌else◌, bit_and, arith,
}
use btcdemo.NetAddr.{NetAddr}
use btcdemo.NetAddr.Category.{is_valid}
use btcdemo.Node.{Node, assign_state, set_local_addr, disconnected, established}
use btcdemo.Protocol.{
  addr_time_version, bip31_version, sendheaders_version, short_ids_blocks_version,
  min_peer_proto_version, node_witness, is_service_flag_desirable,
}
use btcdemo.Protocol.Ping.{Ping, of_nonce, set_protocol_version}
use btcdemo.Protocol.SendCompact.{SendCmpct}
use btcdemo.Protocol.Version.{Version}

pub data Action : Type 0 where
  misbehaving : ℕ → Action
  set_peer_services : NetAddr → ℕ → Action
  make_tried : NetAddr → Action
  send_version send_verack send_getaddr send_headers_msg : Action
  send_cmpct : SendCmpct → Action
  send_ping : Ping → Action
  advertise_local_addr : Bool → Action
  add_time_data : NetAddr → ℕ → Action
  start_ping_timer start_advertise_timer start_broadcast_timer : Action

-- What the handlers ask for from outside; no size is a null pointer to the address book.
pub record Context : Type 0 where
  pub now : ℕ
  pub incoming_nonce_ok : Bool
  pub advertise_local : Bool
  pub is_initial_block_download : Bool
  pub local_service : ℕ
  pub random : ℕ
  pub peers_size : Option ℕ

abbrev Outcome : Type 0
Outcome = Bool × Node × List Action

-- The assignment of Disconnect; what its callback does to the tables is in Node/Life.
abbrev pub disconnect : Node → Node
disconnect n = record n { connection = assign_state disconnected n.connection }

abbrev pub if_peers : Option ℕ → List Action → List Action
if_peers none actions = []
if_peers (some size) actions = actions

abbrev pub is_small : Option ℕ → Bool
is_small none = false
is_small (some size) = ltb size 1000

-- What is taken from the message into the node.
unfoldable pub noted : Version → Node → Node
noted m n = record n {
  services = m.services;
  connection = set_local_addr m.addr_recv n.connection;
  start_height = m.start_height;
  relay_txes = m.relay;
  version = m.protocol_version;
  is_witness = if bit_and m.services node_witness == 0 then n.is_witness else true;
}

-- `set_sent_getaddr(true)`
abbrev pub asked : Node → Node
asked n = record n { flooding_addrs = record n.flooding_addrs { sent_getaddr = true } }

-- After the tests: from the answer on.
unfoldable pub accept : Context → Version → Node → List Action → Outcome
unfolding noted
accept c m n actions =
    let n1 = noted m n in
    let ask = leb addr_time_version n1.version || is_small c.peers_size in
    let n2 = if n.is_inbound then n1 else if ask then asked n1 else n1 in
    (
      true,
      n2,
      actions
          ++ (if n.is_inbound then send_version ∷ [] else [])
          ++ send_verack ∷ []
          ++ (if n.is_inbound
              then []
              else (if c.advertise_local && not c.is_initial_block_download
                  then advertise_local_addr true ∷ []
                  else [])
                ++ (if ask then send_getaddr ∷ [] else [])
                ++ if_peers c.peers_size (make_tried n.connection.addr ∷ []))
          ++ add_time_data n.connection.addr ((m.timestamp + 2 ^ 64 - c.now) % 2 ^ 64) ∷ [],
    )

unfoldable pub version_recv_handler : Context → Version → Node → Outcome
unfolding accept
version_recv_handler c m n =
    let actions =
      if n.is_inbound
      then []
      else if_peers c.peers_size (set_peer_services n.connection.addr m.services ∷ []) in
    if not (n.version == 0)
    then (false, n, misbehaving 1 ∷ [])
    else if not n.is_inbound
        && (not n.connection.manual && not (is_service_flag_desirable m.services))
    then (false, disconnect n, actions)
    else if not (bit_and m.services 0xa0 == 0) && ltb c.now 1533096000
    then (false, disconnect n, actions)
    else if ltb m.protocol_version min_peer_proto_version
    then (false, disconnect n, actions)
    else if n.is_inbound && not c.incoming_nonce_ok
    then (true, disconnect n, actions)
    else accept c m n actions

unfoldable pub verack_recv_handler : Context → Node → Outcome
verack_recv_handler c n =
    let ping = of_nonce c.random in
    (
      true,
      record n {
        connection = assign_state established n.connection;
        timers = record n.timers {
          ping_timer = true;
          advertise_local_addr_timer =
              if c.advertise_local then true else n.timers.advertise_local_addr_timer;
          broadcast_addrs_timer = true;
        };
      },
      (if leb sendheaders_version n.version then send_headers_msg ∷ [] else [])
          ++ (if leb short_ids_blocks_version n.version
              then (if bit_and c.local_service node_witness == 0
                  then []
                  else send_cmpct (record { high_bandwidth_mode = 0; version = 2 }) ∷ [])
                ++ send_cmpct (record { high_bandwidth_mode = 0; version = 1 }) ∷ []
              else [])
          ++ send_ping (if ltb n.version bip31_version then set_protocol_version 0 ping else ping)
            ∷ []
          ++ start_ping_timer ∷ []
          ++ (if c.advertise_local
              then (if c.is_initial_block_download then [] else advertise_local_addr false ∷ [])
                ++ start_advertise_timer ∷ []
              else [])
          ++ start_broadcast_timer ∷ [],
    )

-- The conditions on the message of a node that is accepted.
pub record Accepted (c : Context) (m : Version) (n : Node) : Type 0 where
  pub first : n.version ≡ 0
  pub desired :
      (not n.is_inbound && (not n.connection.manual && not (is_service_flag_desirable m.services)))
      ≡ false
  pub compatible : (not (bit_and m.services 0xa0 == 0) && ltb c.now 1533096000) ≡ false
  pub recent : min_peer_proto_version ≤ m.protocol_version
  pub other_node : (n.is_inbound && not c.incoming_nonce_ok) ≡ false

abbrev prelude_actions : Context → Version → Node → List Action
prelude_actions c m n =
    if n.is_inbound
    then []
    else if_peers c.peers_size (set_peer_services n.connection.addr m.services ∷ [])

abbrev Refused : Context → Version → Node → Type 0
Refused c m n =
    ((version_recv_handler c m n).1 ≡ n) ⊎ ((version_recv_handler c m n).1 ≡ disconnect n)

-- The node after its version was taken, member by member.
abbrev pub introduced : Version → Node → Node
introduced m n = record n {
  version = m.protocol_version;
  services = m.services;
  start_height = m.start_height;
  relay_txes = m.relay;
  is_witness = n.is_witness || not (bit_and m.services 8 == 0);
  connection = record n.connection {
    local_addr = if is_valid n.connection.local_addr then n.connection.local_addr else m.addr_recv;
  };
  flooding_addrs = record n.flooding_addrs {
    sent_getaddr = n.flooding_addrs.sent_getaddr || not n.is_inbound;
  };
}

abbrev pub hung_up : Node → Node
hung_up n = record n { connection = record n.connection { connection_state = disconnected } }

-- A second `version` message changes nothing and counts as misbehaviour.
pub version_recv_handler_again :
    (c : Context) (m : Version) (n : Node)
    → n.version ≢ 0
    → version_recv_handler c m n ≡ (false, n, misbehaving 1 ∷ [])
unfolding version_recv_handler
version_recv_handler_again c m n h = ground arith
