-- ===== src/Node/Join.antt =====
-- InitializeNode with the registration of the callback, and changes of a node that are minor, on a
-- sound table. The constructor of a node and the registration are one step, as no timer fires
-- between them.
use btcdemo.Prelude.{
  ℕ, ◌+◌, ◌≡◌, refl, ◌∙◌, inl, inr, Bool, true, false, not, List, [], ◌∷◌, ◌++◌, none, some, ◌==◌,
  if◌then◌else◌, arith,
}
use btcdemo.Prelude.Bytes.{All, All-append, All-map}
use btcdemo.NetAddr.{NetAddr}
use btcdemo.Node.{
  Node, is_disconnected, is_handshake_completed, set_socket_no_msg, new_node, new_connection,
  register_callback,
}
use btcdemo.Node.Table.{add_node, put_node}
use btcdemo.Node.Entries.{
  get_node-add_node, put_node-add_node, Distinct-add_node, OtherId, All-put_node, Distinct-put_node,
  put_node-none, All-get_node,
}
use btcdemo.Node.Life.{Net, put, register, send_msg, initialize_node, initialized}
use btcdemo.Node.Sound.{IsLive, IsSound, Held}

-- InitializeNode and RegisterSetStateCb, as the connector and the acceptor call them.
unfoldable pub join : ℕ → ℕ → NetAddr → Bool → Bool → Net → Net
join nonce bev addr is_inbound manual net =
    let (made, net1) = initialize_node nonce bev addr is_inbound manual net in
    elim made [ none ↦ net1 | some n ↦ register n net1 ]

-- A change of a node that leaves its id, its state, its callback and its ping alone.
pub record IsMinor (n m : Node) : Type 0 where
  pub same_id : m.id ≡ n.id
  pub same_state : m.connection.connection_state ≡ n.connection.connection_state
  pub same_callback : m.connection.has_callback ≡ n.connection.has_callback
  pub same_ping : m.ping_nonce_sent ≡ n.ping_nonce_sent

pub put-IsSound :
    (n m : Node) (net : Net)
    → Held n net
    → m.id ≡ n.id
    → (IsLive net.next_id n → IsLive net.next_id m)
    → IsSound net
    → IsSound (put m net)
unfolding put
put-IsSound n m net (inl here) same keep h = record {
  live =
      All-put_node (IsLive net.next_id) m net.nodes
        (keep (All-get_node (IsLive net.next_id) n.id net.nodes here h.live)) h.live;
  distinct = Distinct-put_node m net.nodes h.distinct;
}
put-IsSound n m net (inr away) same keep h =
    let stays : put_node m net.nodes ≡ net.nodes = put_node-none m net.nodes (rw same away) in
    record { live = rw stays h.live; distinct = rw stays h.distinct }

pub minor-IsSound :
    (n m : Node) (net : Net) → Held n net → IsMinor n m → IsSound net → IsSound (put m net)
unfolding is_disconnected
minor-IsSound n m net held minor h =
    put-IsSound n m net held minor.same_id
      (λ live. record {
        given = omega (arith, minor.same_id, live.given);
        registered = minor.same_callback ∙ live.registered;
        connected = rw minor.same_state live.connected;
        silent = minor.same_ping ∙ live.silent;
      })
      h

pub if-IsSound :
    (b : Bool) {net1 net2 : Net} → IsSound net1 → IsSound net2 → IsSound (if b then net1 else net2)
if-IsSound true h1 h2 = h1
if-IsSound false h1 h2 = h2

pub IsMinor-refl : (n : Node) → IsMinor n n
IsMinor-refl n = record {
  same_id = refl;
  same_state = refl;
  same_callback = refl;
  same_ping = refl;
}

-- What holds of the node, of the node with a message sent, and of the one with the timer of the
-- sending, holds after SendMsg.
send_msg_cases {ℓ} :
    (P : Node → Type ℓ) (written : Bool) (n : Node)
    → P n
    → P (record n { connection = set_socket_no_msg false n.connection })
    → P (record n {
      connection = set_socket_no_msg false n.connection;
      timers = record n.timers { no_sending_timer = true };
    })
    → P (send_msg written n).1
unfolding send_msg
send_msg_cases P written n hx hy hz = tests (n.connection.bev == 0) (not written) hx hy hz
  where
    tests :
        (a b : Bool) {x y z : Node}
        → P x
        → P y
        → P z
        → P (
            let r : Bool × Node = if a then (false, x) else if b then (false, y) else (true, z) in
            r.1)
    tests true b hx hy hz = hx
    tests false true hx hy hz = hy
    tests false false hx hy hz = hz

-- SendMsg changes neither the state nor the ping that waits.
pub send_msg-IsMinor : (written : Bool) (n : Node) → IsMinor n (send_msg written n).1
unfolding set_socket_no_msg
send_msg-IsMinor written n =
    send_msg_cases (IsMinor n) written n (IsMinor-refl n)
      (record { same_id = refl; same_state = refl; same_callback = refl; same_ping = refl })
      (record { same_id = refl; same_state = refl; same_callback = refl; same_ping = refl })

pub is_fresh : (next_id : ℕ) (ns : List Node) → All (IsLive next_id) ns → All (OtherId next_id) ns
is_fresh next_id ns h = All-map ns (λ n live e. absurd (omega (arith, live.given, e))) h

pub IsLive-suc :
    (next_id : ℕ) (ns : List Node) → All (IsLive next_id) ns → All (IsLive (next_id + 1)) ns
IsLive-suc next_id ns h =
    All-map ns
      (λ n live. record {
        given = omega (arith, live.given);
        registered = live.registered;
        connected = live.connected;
        silent = live.silent;
      })
      h

-- The node with its callback, as it joins.
abbrev pub joined : ℕ → ℕ → NetAddr → Bool → Bool → ℕ → Node
joined nonce bev addr is_inbound manual id =
    let n = initialized nonce bev addr is_inbound manual id in
    record n { connection = register_callback n.connection }

-- A node that has just joined for an address: with its callback, before the handshake, and with the
-- timers of the handshake and of the first message.
pub record IsNew (addr : NetAddr) (is_inbound manual : Bool) (id : ℕ) (n : Node) : Type 0 where
  pub its_id : n.id ≡ id
  pub its_addr : n.connection.addr ≡ addr
  pub its_side : n.is_inbound ≡ is_inbound
  pub its_origin : n.connection.manual ≡ manual
  pub registered : n.connection.has_callback ≡ true
  pub unfinished : is_handshake_completed n.connection ≡ false
  pub timed : n.timers.shakehands_timer ≡ true
  pub awaited : n.timers.no_msg_timer ≡ true

-- The table has one node more, which is the new one of this address.
abbrev pub Arrives : NetAddr → Bool → Bool → Net → Net → Type 0
Arrives addr is_inbound manual net after =
    (n : Node) × IsNew addr is_inbound manual net.next_id n × (after.nodes ≡ net.nodes ++ n ∷ [])

pub joined-IsNew :
    (nonce bev : ℕ) (addr : NetAddr) (is_inbound manual : Bool) (id : ℕ)
    → IsNew addr is_inbound manual id (joined nonce bev addr is_inbound manual id)
unfolding initialized new_node new_connection register_callback is_handshake_completed
joined-IsNew nonce bev addr is_inbound manual id = record {
  its_id = refl;
  its_addr = refl;
  its_side = refl;
  its_origin = refl;
  registered = refl;
  unfinished = refl;
  timed = refl;
  awaited = refl;
}

pub send_msg-IsNew :
    (written : Bool) {addr : NetAddr} {is_inbound manual : Bool} {id : ℕ} (n : Node)
    → IsNew addr is_inbound manual id n
    → IsNew addr is_inbound manual id (send_msg written n).1
unfolding set_socket_no_msg is_handshake_completed
send_msg-IsNew written {addr = addr} {is_inbound = is_inbound} {manual = manual} {id = id} n h =
    send_msg_cases (IsNew addr is_inbound manual id) written n h (heard h) (started h)
  where
    heard :
        IsNew addr is_inbound manual id n
        → IsNew addr is_inbound manual id
            (record n { connection = set_socket_no_msg false n.connection })
    heard h = record {
      its_id = h.its_id;
      its_addr = h.its_addr;
      its_side = h.its_side;
      its_origin = h.its_origin;
      registered = h.registered;
      unfinished = h.unfinished;
      timed = h.timed;
      awaited = h.awaited;
    }

    started :
        IsNew addr is_inbound manual id n
        → IsNew addr is_inbound manual id (record n {
          connection = set_socket_no_msg false n.connection;
          timers = record n.timers { no_sending_timer = true };
        })
    started h = record {
      its_id = h.its_id;
      its_addr = h.its_addr;
      its_side = h.its_side;
      its_origin = h.its_origin;
      registered = h.registered;
      unfinished = h.unfinished;
      timed = h.timed;
      awaited = h.awaited;
    }

joined-IsLive :
    (nonce bev : ℕ) (addr : NetAddr) (is_inbound manual : Bool) (id : ℕ)
    → IsLive (id + 1) (joined nonce bev addr is_inbound manual id)
unfolding initialized new_node new_connection register_callback is_disconnected
joined-IsLive nonce bev addr is_inbound manual id = record {
  given = omega arith;
  registered = refl;
  connected = refl;
  silent = refl;
}

pub join_lem :
    (nonce bev : ℕ) (addr : NetAddr) (is_inbound manual : Bool) (net : Net)
    → IsSound net
    → ((join nonce bev addr is_inbound manual net).nodes
        ≡ add_node (joined nonce bev addr is_inbound manual net.next_id) net.nodes)
      × ((join nonce bev addr is_inbound manual net).next_id ≡ net.next_id + 1)
unfolding join initialize_node register put initialized new_node
join_lem nonce bev addr is_inbound manual net h =
    let n = initialized nonce bev addr is_inbound manual net.next_id in
    let fresh = is_fresh net.next_id net.nodes h.live in
    rw (join, get_node-add_node n net.nodes fresh)
      (
        put_node-add_node (joined nonce bev addr is_inbound manual net.next_id) n net.nodes refl
            fresh,
        refl,
      )

pub join-IsSound :
    (nonce bev : ℕ) (addr : NetAddr) (is_inbound manual : Bool) (net : Net)
    → IsSound net
    → IsSound (join nonce bev addr is_inbound manual net)
unfolding initialized new_node add_node
join-IsSound nonce bev addr is_inbound manual net h =
    let (nodes, next) = join_lem nonce bev addr is_inbound manual net h in
    let n = joined nonce bev addr is_inbound manual net.next_id in
    record {
      live =
          rw (nodes, next)
            (All-append (IsLive (net.next_id + 1)) net.nodes (n ∷ [])
              (IsLive-suc net.next_id net.nodes h.live)
              (joined-IsLive nonce bev addr is_inbound manual net.next_id, tt));
      distinct =
          rw nodes
            (Distinct-add_node n net.nodes (is_fresh net.next_id net.nodes h.live) h.distinct);
    }
