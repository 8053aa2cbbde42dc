-- ===== src/Node/Runs.antt =====
-- Nodes and their tables on concrete values.
use btcdemo.Prelude.{
  ℕ, ◌+◌, ◌≤◌, ◌≡◌, refl, ◌↔◌, Bool, true, false, List, [], ◌∷◌, ◌++◌, none, some, length, leb,
  arith,
}
use btcdemo.Prelude.Bytes.{All}
use btcdemo.Prelude.Hash.{Hash256, null_hash}
use btcdemo.NetAddr.{NetAddr}
use btcdemo.NetAddr.Category.{is_valid}
use btcdemo.Node.{
  Node, FloodingAddrs, Misbehavior, new_node, register_callback, is_handshake_completed,
  is_disconnected, default_banscore_threshold,
}
use btcdemo.Node.Behavior.{report, total, report_lem}
use btcdemo.Node.Flooding.{
  is_known_addr, push_addr_to_send, relay_flooding_addrs, unknown_addrs, concat, IsFit,
  max_addr_to_send, push_addr_to_send_lem, relay_flooding_addrs_lem,
}
use btcdemo.Node.Counters.{
  Event, construct, change_services, change_protect, history, no_nodes, Counted, history-Counted,
}
use btcdemo.Node.Table.{get_node}
use btcdemo.Node.Life.{
  Net, disconnect, shake_hands_timeout_cb, socket_no_msg_timeout_cb, inactivity_timeout_cb,
}
use btcdemo.Node.Sound.{IsSound}
use btcdemo.Node.Reach.{here, later, joins, Reach-IsSound}
use btcdemo.Node.Join.{join}
use btcdemo.Node.Timeouts.{IsGone, disconnect-IsGone, timeouts_lem}

abbrev calm : Misbehavior
calm = record { should_ban = false; score = 0; unconnecting_headers_len = 0 }

-- Reports of 60 and 50 reach the threshold.
report_lem_example :
    ((report (60 ∷ 50 ∷ []) calm).score ≡ calm.score + total (60 ∷ 50 ∷ []))
    × ((report (60 ∷ 50 ∷ []) calm).should_ban
        ≡ leb default_banscore_threshold (calm.score + total (60 ∷ 50 ∷ [])))
report_lem_example = report_lem (60 ∷ 50 ∷ []) calm (omega arith) refl

banned : (report (60 ∷ 50 ∷ []) calm).should_ban ≡ true
unfolding report btcdemo.Node.misbehaving
banned = refl

abbrev dns : NetAddr
dns = record {
  ip = 0 ∷ 0 ∷ 0 ∷ 0 ∷ 0 ∷ 0 ∷ 0 ∷ 0 ∷ 0 ∷ 0 ∷ 255 ∷ 255 ∷ 8 ∷ 8 ∷ 8 ∷ 8 ∷ [];
  port = 8333;
  scope_id = 0;
  services = 9;
  timestamp = 0;
}

abbrev events : List Event
events =
    construct 7 1 dns false false []
    ∷ construct 8 2 dns true false []
    ∷ change_services 1 9
    ∷ change_protect 0 true
    ∷ change_protect 0 false
    ∷ []

history-Counted_example : Counted (history events no_nodes)
history-Counted_example =
    history-Counted events no_nodes
      (record { prefered = refl; protected = refl; sync_started = refl; validated = refl })

abbrev hash_of : NetAddr → Hash256
hash_of addr = addr.port ∷ null_hash

abbrev ring : List ℕ → ℕ → List ℕ
ring known h = known ++ h ∷ []

abbrev flooding : FloodingAddrs
flooding = record { addrs_to_send = dns ∷ dns ∷ []; known_addrs = []; sent_getaddr = false }

push_addr_to_send_lem_example :
    ((push_addr_to_send hash_of ring 2 dns flooding ≡ none) ↔ (
      (is_valid dns ≡ true)
      × (is_known_addr hash_of ring dns flooding ≡ false)
      × (length flooding.addrs_to_send ≡ max_addr_to_send)
      × (2 ≡ max_addr_to_send)))
    × ((queued : Bool) (g : FloodingAddrs)
        → push_addr_to_send hash_of ring 2 dns flooding ≡ some (queued, g)
        → length g.addrs_to_send ≤ max_addr_to_send)
push_addr_to_send_lem_example =
    push_addr_to_send_lem hash_of ring 2 dns flooding (omega arith) (omega arith)

abbrev flooded : Node
flooded = record (new_node 0 77 1 dns true false []) { flooding_addrs = flooding }

abbrev always : List NetAddr → Bool
always msg = true

relay_flooding_addrs_lem_example :
    (false ≡ true → relay_flooding_addrs hash_of ring false always flooded ≡ ([], flooded))
    × (is_disconnected flooded.connection ≡ true
        → relay_flooding_addrs hash_of ring false always flooded ≡ ([], flooded))
    × (false ≡ false
        → is_disconnected flooded.connection ≡ false
        → (concat (relay_flooding_addrs hash_of ring false always flooded).0
            ≡ unknown_addrs hash_of ring flooded.flooding_addrs.addrs_to_send
                flooded.flooding_addrs)
          × All IsFit (relay_flooding_addrs hash_of ring false always flooded).0
          × ((relay_flooding_addrs hash_of ring false always flooded).1.flooding_addrs.addrs_to_send
              ≡ []))
relay_flooding_addrs_lem_example = relay_flooding_addrs_lem hash_of ring false always flooded

abbrev no_hash : List ℕ → Hash256
no_hash bytes = null_hash

abbrev empty_net : Net
empty_net = record {
  next_id = 0;
  nodes = [];
  gone = [];
  peers = record { map_peers = []; new_tbl = []; tried_tbl = []; rand_order_keys = [] };
  bans = [];
  in_flight = [];
}

Reach-IsSound_example : IsSound (join 7 1 dns false false empty_net)
Reach-IsSound_example =
    Reach-IsSound no_hash null_hash {start = empty_net}
      (later here (joins 7 1 dns false false empty_net)) (record { live = tt; distinct = tt })

abbrev connected : Node
connected =
    (let n = new_node 0 7 1 dns false false [] in
      record n { connection = register_callback n.connection })

abbrev one_node : Net
one_node = record empty_net { next_id = 1; nodes = connected ∷ [] }

one_node-IsSound : IsSound one_node
unfolding new_node btcdemo.Node.new_connection register_callback btcdemo.Node.is_disconnected
one_node-IsSound = record {
  live = (record { given = omega arith; registered = refl; connected = refl; silent = refl }, tt);
  distinct = (tt, tt);
}

connected_found : get_node connected.id one_node.nodes ≡ some connected
unfolding get_node new_node btcdemo.Node.Table.first_node
connected_found = refl

disconnect-IsGone_example :
    IsGone no_hash null_hash connected one_node (disconnect no_hash null_hash 5 connected one_node)
disconnect-IsGone_example =
    disconnect-IsGone no_hash null_hash 5 connected one_node one_node-IsSound connected_found

timeouts_lem_example :
    (is_handshake_completed connected.connection ≡ false
      → IsGone no_hash null_hash connected one_node
          (shake_hands_timeout_cb no_hash null_hash false 5 connected one_node))
    × (is_handshake_completed connected.connection ≡ true
        → shake_hands_timeout_cb no_hash null_hash false 5 connected one_node ≡ one_node)
    × (connected.connection.socket_no_msg ≡ true
        → IsGone no_hash null_hash connected one_node
            (socket_no_msg_timeout_cb no_hash null_hash false 5 connected one_node))
    × (connected.connection.socket_no_msg ≡ false
        → socket_no_msg_timeout_cb no_hash null_hash false 5 connected one_node ≡ one_node)
    × IsGone no_hash null_hash connected one_node
        (inactivity_timeout_cb no_hash null_hash false 5 connected one_node)
timeouts_lem_example =
    timeouts_lem no_hash null_hash 5 connected one_node one_node-IsSound connected_found
