-- ===== src/Node/Life.antt =====
-- The life of the nodes of one table: set_connection_state with the callback DisconnectNodeCb that
-- the connector and the acceptor register, InitializeNode, CheckBanned and the callbacks of the
-- timers, of network/src/node.cpp, and SendMsg of network/include/msg_process.h as far as it changes
-- the node. The clock, random numbers and what libevent returns are arguments. A node that was
-- erased lives on where a pointer is held, in `gone`. The pool of orphans is always empty, so
-- EraseOrphansFor does nothing.
use btcdemo.Prelude.{
  ℕ, ◌+◌, Bool, true, false, not, ◌&&◌, ◌||◌, List, [], ◌∷◌, Option, none, some, ◌==◌,
  if◌then◌else◌,
}
use btcdemo.Prelude.Hash.{Hash256, bytes_eq}
use btcdemo.NetAddr.{NetAddr}
use btcdemo.NetAddr.Category.{is_local}
use btcdemo.BanList.{Text, BanMap, node_misbehaving}
use btcdemo.BanList
use btcdemo.Peers.{Peers}
use btcdemo.Peers.Book.{update_time}
use btcdemo.Node.{
  Node, ConnectionState, disconnected, is_disconnected_state, is_disconnected,
  is_handshake_completed, assign_state, register_callback, set_socket_no_msg, new_node,
  stop_all_timers, should_update_time,
}
use btcdemo.SubNet.{SubNet}
use btcdemo.Node.Table.{get_node, get_nodes_of_subnet, add_node, erase_node, put_node}

pub record Net : Type 0 where
  pub next_id : ℕ
  pub nodes : List Node
  pub gone : List Node
  pub peers : Peers
  pub bans : BanMap
  pub in_flight : List Hash256

-- BlocksInFlight1::Erase
unfoldable pub erase_in_flight : Hash256 → List Hash256 → List Hash256
erase_in_flight hash [] = []
erase_in_flight hash (h ∷ hs) = if bytes_eq h hash then hs else h ∷ erase_in_flight hash hs

unfoldable pub erase_all_in_flight : List Hash256 → List Hash256 → List Hash256
erase_all_in_flight [] map = map
erase_all_in_flight (hash ∷ hashes) map = erase_all_in_flight hashes (erase_in_flight hash map)

-- The node stands in the table or outside, wherever its id is.
unfoldable pub put : Node → Net → Net
put n net = record net { nodes = put_node n net.nodes; gone = put_node n net.gone }

-- A node of the table moves out of it.
unfoldable pub leave : Node → Net → Net
leave n net = elim (get_node n.id net.nodes) [
  | none ↦ net
  | some m ↦ record net { nodes = erase_node n.id net.nodes; gone = n ∷ net.gone }
]

-- SendMsg; `written` is whether libevent takes the bytes, whose number is right.
unfoldable pub send_msg : Bool → Node → Bool × Node
send_msg written n =
    let n1 = record n { connection = set_socket_no_msg false n.connection } in
    if n.connection.bev == 0
    then (false, n)
    else if not written
    then (false, n1)
    else (true, record n1 { timers = record n1.timers { no_sending_timer = true } })

module _ (sha256 : List ℕ → Hash256) (key : Hash256) where
  -- DisconnectNodeCb with the four tables that it is registered with.
  unfoldable pub disconnect_node_cb : ℕ → Node → Net → Net
  disconnect_node_cb now n net =
      let n1 = stop_all_timers n in
      let peers =
        if should_update_time n1
        then (update_time sha256 key n1.connection.addr now net.peers).1
        else net.peers in
      let in_flight = erase_all_in_flight n1.blocks_in_flight net.in_flight in
      leave n1 (put n1 (record net { peers = peers; in_flight = in_flight }))

  unfoldable pub set_connection_state : ConnectionState → ℕ → Node → Net → Net
  set_connection_state state now n net =
      let n1 = record n { connection = assign_state state n.connection } in
      let net1 = put n1 net in
      if is_disconnected_state state && n.connection.has_callback
      then disconnect_node_cb now n1 net1
      else net1

  unfoldable pub disconnect : ℕ → Node → Net → Net
  disconnect now n net = set_connection_state disconnected now n net

  -- The two functions DisconnectNode; what follows the change of the state is what the callback does.
  unfoldable pub disconnect_node : ℕ → Node → Net → Net
  disconnect_node now n net =
      disconnect_node_cb now (record n { connection = assign_state disconnected n.connection })
        (set_connection_state disconnected now n net)

  unfoldable pub disconnect_nodes : ℕ → List Node → Net → Net
  disconnect_nodes now [] net = net
  disconnect_nodes now (n ∷ ns) net = disconnect_nodes now ns (disconnect_node now n net)

  unfoldable pub disconnect_subnet : ℕ → SubNet → Net → Net
  disconnect_subnet now subnet net = disconnect_nodes now (get_nodes_of_subnet subnet net.nodes) net

  -- What the kinds of timeouts have in front of them: nothing is done while the program is
  -- interrupted, or for a disconnected node.
  unfoldable pub is_idle : Bool → Node → Bool
  is_idle interrupted n = interrupted || is_disconnected n.connection

  unfoldable pub inactivity_timeout_cb : Bool → ℕ → Node → Net → Net
  inactivity_timeout_cb interrupted now n net =
      if is_idle interrupted n then net else disconnect now n net

  unfoldable pub socket_no_msg_timeout_cb : Bool → ℕ → Node → Net → Net
  socket_no_msg_timeout_cb interrupted now n net =
      if is_idle interrupted n
      then net
      else if not n.connection.socket_no_msg
      then net
      else disconnect now n net

  unfoldable pub shake_hands_timeout_cb : Bool → ℕ → Node → Net → Net
  shake_hands_timeout_cb interrupted now n net =
      if is_idle interrupted n
      then net
      else if is_handshake_completed n.connection
      then net
      else disconnect now n net

  -- StopTimer leaves the pointer to the timer.
  unfoldable pub ping_timeout_cb : Bool → Bool → ℕ → Node → Net → Net
  ping_timeout_cb interrupted written now n net =
      if is_idle interrupted n
      then net
      else if not (n.ping_nonce_sent == 0)
      then disconnect now n net
      else put (send_msg written n).1 net

  -- `has_bans` is false for a null pointer; `name_of` is the text of the subnet of an address.
  unfoldable pub check_banned : (NetAddr → Text) → Bool → ℕ → Node → Net → Bool × Net
  check_banned name_of has_bans now n net =
      let n1 = record n { misbehavior = record n.misbehavior { should_ban = false } } in
      let net1 = put n1 net in
      let net2 = disconnect now n1 net1 in
      let addr = n1.connection.addr in
      if not n.misbehavior.should_ban
      then (false, net)
      else if n1.connection.manual
      then (true, net1)
      else if is_local addr || not has_bans
      then (true, net2)
      else (
        true,
        record net2 { bans = (BanList.add (name_of addr) node_misbehaving now now net2.bans).1 },
      )

-- The node that InitializeNode makes, with two timers started.
unfoldable pub initialized : ℕ → ℕ → NetAddr → Bool → Bool → ℕ → Node
initialized nonce bev addr is_inbound manual id =
    let n = new_node id nonce bev addr is_inbound manual [] in
    record n { timers = record n.timers { no_msg_timer = true; shakehands_timer = true } }

-- InitializeNode: the node, which is looked up again after it was added, and the table with it.
unfoldable pub initialize_node : ℕ → ℕ → NetAddr → Bool → Bool → Net → Option Node × Net
initialize_node nonce bev addr is_inbound manual net =
    let n = initialized nonce bev addr is_inbound manual net.next_id in
    let nodes = add_node n net.nodes in
    (get_node n.id nodes, record net { next_id = net.next_id + 1; nodes = nodes })

-- RegisterSetStateCb for kDisconnected.
unfoldable pub register : Node → Net → Net
register n net = put (record n { connection = register_callback n.connection }) net
