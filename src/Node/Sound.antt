-- ===== src/Node/Sound.antt =====
-- The invariant of a table of nodes, kept by every operation of Node/Life.
use btcdemo.Prelude.{
  ℕ, ◌<◌, ◌≡◌, refl, sym, ◌∙◌, ◌⊎◌, Option-cases, subst, Bool, true, false, ◌&&◌, List, none, some,
  ◌==◌, inl, inr,
}
use btcdemo.Prelude.Bytes.{All}
use btcdemo.Prelude.Hash.{Hash256}
use btcdemo.Node.{
  Node, disconnected, is_disconnected, assign_state, stop_all_timers, should_update_time,
}
use btcdemo.Node.Table.{get_node, erase_node}
use btcdemo.Node.Entries.{Distinct, erase_node-none, erase_node-put_node, Distinct-put_node}
use btcdemo.Node.Life.{
  Net, erase_all_in_flight, put, leave, disconnect_node_cb, set_connection_state, disconnect,
}

-- What every node of the table has: an id that was given, the callback, a state that is not
-- kDisconnected, and no ping that waits for an answer.
pub record IsLive (next_id : ℕ) (n : Node) : Type 0 where
  pub given : n.id < next_id
  pub registered : n.connection.has_callback ≡ true
  pub connected : is_disconnected n.connection ≡ false
  pub silent : n.ping_nonce_sent ≡ 0

pub record IsSound (net : Net) : Type 0 where
  pub live : All (IsLive net.next_id) net.nodes
  pub distinct : Distinct net.nodes

-- A node that is held by a pointer stands in the table as it is, or its id does not stand there.
abbrev pub Held : Node → Net → Type 0
Held n net = (get_node n.id net.nodes ≡ some n) ⊎ (get_node n.id net.nodes ≡ none)

leave_lem :
    (n : Node) (net : Net)
    → ((leave n net).nodes ≡ erase_node n.id net.nodes)
      × ((leave n net).next_id ≡ net.next_id)
      × ((leave n net).peers ≡ net.peers)
unfolding leave
leave_lem n net = elim (Option-cases (get_node n.id net.nodes)) [
  | inl e ↦ rw (leave, e) (sym (erase_node-none n.id net.nodes e), refl, refl)
  | inr (m, e) ↦ rw (leave, e) (refl, refl, refl)
]

-- What a disconnection does to the rest.
abbrev Leaves : Node → Net → Net → Type 0
Leaves n net after =
    (after.nodes ≡ erase_node n.id net.nodes)
    × (after.next_id ≡ net.next_id)
    × (after.peers ≡ net.peers)

-- The state is kDisconnected when the callback asks whether to update the time, so it never does.
not_updated :
    (n : Node)
    → n.connection.connection_state ≡ disconnected
    → should_update_time (stop_all_timers n) ≡ false
unfolding should_update_time stop_all_timers
not_updated n e = rw e (and_false (n.misbehavior.score == 0))
  where
    and_false : (b : Bool) → (b && false) ≡ false
    and_false true = refl
    and_false false = refl

leave-put : (n : Node) (net : Net) → Distinct net.nodes → Leaves n net (leave n (put n net))
unfolding put
leave-put n net d =
    let (nodes, next, peers) = leave_lem n (put n net) in
    (nodes ∙ erase_node-put_node n net.nodes d, next, peers)

module _ (sha256 : List ℕ → Hash256) (key : Hash256) (now : ℕ) where
  disconnect_node_cb-eq :
      (n : Node) (net : Net)
      → n.connection.connection_state ≡ disconnected
      → disconnect_node_cb sha256 key now n net
        ≡ leave (stop_all_timers n) (
            put (stop_all_timers n) (record net {
              in_flight = erase_all_in_flight (stop_all_timers n).blocks_in_flight net.in_flight;
            }))
  unfolding disconnect_node_cb
  disconnect_node_cb-eq n net e = simp (not_updated n e)

  disconnect_node_cb_lem :
      (n : Node) (net : Net)
      → n.connection.connection_state ≡ disconnected
      → Distinct net.nodes
      → Leaves n net (disconnect_node_cb sha256 key now n net)
  unfolding stop_all_timers
  disconnect_node_cb_lem n net e d = subst (Leaves n net) (sym (disconnect_node_cb-eq n net e)) (
      leave-put (stop_all_timers n)
        (record net {
          in_flight = erase_all_in_flight (stop_all_timers n).blocks_in_flight net.in_flight;
        })
        d)

  disconnect-eq :
      (n : Node) (net : Net)
      → n.connection.has_callback ≡ true
      → disconnect sha256 key now n net
        ≡ disconnect_node_cb sha256 key now
            (record n { connection = assign_state disconnected n.connection })
            (put (record n { connection = assign_state disconnected n.connection }) net)
  unfolding disconnect set_connection_state
  disconnect-eq n net has = simp has

  pub disconnect_lem :
      (n : Node) (net : Net)
      → n.connection.has_callback ≡ true
      → Distinct net.nodes
      → Leaves n net (disconnect sha256 key now n net)
  unfolding put assign_state
  disconnect_lem n net has d =
      let n1 = record n { connection = assign_state disconnected n.connection } in
      let (nodes, next, peers) =
        disconnect_node_cb_lem n1 (put n1 net) refl (Distinct-put_node n1 net.nodes d) in
      subst (Leaves n net) (sym (disconnect-eq n net has))
        (nodes ∙ erase_node-put_node n1 net.nodes d, next, peers)
