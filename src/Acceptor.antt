-- ===== src/Acceptor.antt =====
-- class Acceptor of network/include/acceptor.h and network/src/acceptor.cpp, and the callbacks
-- ConnReadCb and ConnEventCb of network/src/libevent.cpp. What libevent gives, the clock and the
-- random nonce are arguments; a socket that is closed leaves no trace in the table.
mod Runs
use btcdemo.Prelude.{
  ℕ, ◌+◌, ◌-◌, ◌≤◌, ◌≡◌, ◌≢◌, ◌<◌, refl, sym, subst, ap, ◌∙◌, ◌⊎◌, inl, inr, Bool, true, false, not,
  ◌&&◌, ◌||◌, List, [], ◌∷◌, Option, none, some, length, length-append, leb, ◌==◌, if◌then◌else◌,
  Bool-cases, arith,
}
use btcdemo.Prelude.Hash.{Hash256}
use btcdemo.NetAddr.{NetAddr, new}
use btcdemo.NetAddr.SockAddr.{SockAddr, from_sock_addr}
use btcdemo.BanList.{Text, is_banned}
use btcdemo.Node.{Node, new_node, set_socket_no_msg, is_disconnected}
use btcdemo.Node.Table.{get_node_of_bev, add_node, size}
use btcdemo.Node.Entries.{length-add_node}
use btcdemo.Node.Life.{Net, put, disconnect, initialize_node, register}
use btcdemo.Node.Sound.{IsSound}
use btcdemo.Node.Join.{Arrives, joined-IsNew, join, joined, join_lem, join-IsSound}

abbrev pub max_inbound_connections : ℕ
max_inbound_connections = 125 - 8

-- FromSockAddr leaves a new address as it is if the family is unknown.
unfoldable pub accepted_addr : SockAddr → NetAddr
accepted_addr sock = elim (from_sock_addr sock) [ none ↦ new | some addr ↦ addr ]

-- What AcceptConnCb finds: `bev` is 0 if there is no socket event.
pub record Incoming : Type 0 where
  pub sock : SockAddr
  pub has_base : Bool
  pub bev : ℕ
  pub nonce : ℕ
  pub now : ℕ

module _ (name_of : NetAddr → Text) where
  -- Why AcceptConnCb closes the socket, with a context that has a ban list.
  unfoldable pub is_turned_away : Incoming → Net → Bool
  is_turned_away i net =
      is_banned (name_of (accepted_addr i.sock)) i.now net.bans
      || (leb max_inbound_connections (size net.nodes) || (not i.has_base || (i.bev == 0)))

  -- AcceptConnCb: the node is made and its callback registered.
  unfoldable pub accept_conn_cb : Incoming → Net → Net
  accept_conn_cb i net =
      let (made, net1) = initialize_node i.nonce i.bev (accepted_addr i.sock) true false net in
      if is_turned_away i net then net else (elim made [ none ↦ net1 | some n ↦ register n net1 ])

  turned_away :
      (i : Incoming) (net : Net) → is_turned_away i net ≡ true → accept_conn_cb i net ≡ net
  unfolding accept_conn_cb
  turned_away i net e = rw e refl

  let_in :
      (i : Incoming) (net : Net)
      → IsSound net
      → is_turned_away i net ≡ false
      → Arrives (accepted_addr i.sock) true false net (accept_conn_cb i net)
        × IsSound (accept_conn_cb i net)
  unfolding accept_conn_cb join add_node
  let_in i net h e = rw e (
    (
      joined i.nonce i.bev (accepted_addr i.sock) true false net.next_id,
      joined-IsNew i.nonce i.bev (accepted_addr i.sock) true false net.next_id,
      (join_lem i.nonce i.bev (accepted_addr i.sock) true false net h).0,
    ),
    join-IsSound i.nonce i.bev (accepted_addr i.sock) true false net h,
  )

  bounded :
      (i : Incoming) (net : Net)
      → IsSound net
      → is_turned_away i net ≡ false
      → length (accept_conn_cb i net).nodes ≤ 117
  unfolding is_turned_away size
  bounded i net h e =
      let (n, new, nodes) = (let_in i net h e).0 in
      ground (arith, e, ap length nodes, length-append net.nodes (n ∷ []))

  -- The table of the inbound nodes stays sound, and at 117 nodes or fewer. Nothing changes if the address is banned, if there
  -- are 117 nodes, or if libevent gives no base or no socket event; otherwise the table has exactly
  -- one node more, which is the new one of the address of the socket.
  pub accept_conn_cb_lem :
      (i : Incoming) (net : Net)
      → IsSound net
      → IsSound (accept_conn_cb i net)
        × (length net.nodes ≤ 117 → length (accept_conn_cb i net).nodes ≤ 117)
        × (is_banned (name_of (accepted_addr i.sock)) i.now net.bans ≡ true
            → accept_conn_cb i net ≡ net)
        × (117 ≤ length net.nodes → accept_conn_cb i net ≡ net)
        × (i.has_base ≡ false → accept_conn_cb i net ≡ net)
        × (i.bev ≡ 0 → accept_conn_cb i net ≡ net)
        × (is_banned (name_of (accepted_addr i.sock)) i.now net.bans ≡ false
            → length net.nodes < 117
            → i.has_base ≡ true
            → i.bev ≢ 0
            → Arrives (accepted_addr i.sock) true false net (accept_conn_cb i net))
  unfolding is_turned_away size
  accept_conn_cb_lem i net h = (
    elim (Bool-cases (is_turned_away i net)) [
      | inl e ↦ subst IsSound (sym (turned_away i net e)) h
      | inr e ↦ (let_in i net h e).1
    ],
    (λ small. elim (Bool-cases (is_turned_away i net)) [
      | inl e ↦ subst (λ after. length after.nodes ≤ 117) (sym (turned_away i net e)) small
      | inr e ↦ bounded i net h e
    ]),
    (λ banned. turned_away i net (ground (arith, banned))),
    (λ full. turned_away i net (ground (arith, full))),
    (λ baseless. turned_away i net (ground (arith, baseless))),
    (λ eventless. turned_away i net (ground (arith, eventless))),
    λ unbanned room based event. (let_in i net h (ground (arith, unbanned, room, based, event))).0,
  )

-- ConnReadCb, but for the task that then runs ParseMsg on the node: the timer of the receiving is
-- reset or started.
unfoldable pub conn_read_cb : ℕ → Net → Net
conn_read_cb bev net = elim (get_node_of_bev bev net.nodes) [
  | none ↦ net
  | some n ↦
      put
        (record n {
          connection =
              if n.connection.socket_no_msg
              then set_socket_no_msg false n.connection
              else n.connection;
          timers = record n.timers { no_receiving_timer = true };
        })
        net
]

-- The first of the events that ConnEventCb looks for; an error is fatal unless errno is one of
-- EWOULDBLOCK, EMSGSIZE, EINTR and EINPROGRESS.
pub data Event : Type 0 where
  connected eof other : Event
  error : Bool → Event

unfoldable pub hangs_up : Event → Bool
hangs_up connected = false
hangs_up eof = true
hangs_up other = false
hangs_up (error is_fatal) = is_fatal

module _ (sha256 : List ℕ → Hash256) (key : Hash256) where
  unfoldable pub conn_event_cb : ℕ → ℕ → Event → Net → Net
  conn_event_cb now bev event net = elim (get_node_of_bev bev net.nodes) [
    | none ↦ net
    | some n ↦
        if hangs_up event && not (is_disconnected n.connection)
        then disconnect sha256 key now n net
        else net
  ]
