-- ===== src/Node/Timeouts.antt =====
-- What a disconnection and the timers do to a sound table of nodes.
use btcdemo.Prelude.{ℕ, ◌≡◌, ◌≢◌, refl, sym, ap, subst, ◌∙◌, true, false, List, none, some}
use btcdemo.Prelude.Hash.{Hash256}
use btcdemo.Node.{Node, is_handshake_completed}
use btcdemo.Node.Table.{get_node}
use btcdemo.Node.Entries.{get_node-erase_node, All-get_node}
use btcdemo.Node.Life.{
  Net, disconnect, is_idle, inactivity_timeout_cb, socket_no_msg_timeout_cb, shake_hands_timeout_cb,
}
use btcdemo.Node.Sound.{IsLive, IsSound, disconnect_lem}

module _ (sha256 : List ℕ → Hash256) (key : Hash256) where
  -- The node is not found any more, every other id is found as before, and the address book stays.
  abbrev pub IsGone : Node → Net → Net → Type 0
  IsGone n net after =
      (get_node n.id after.nodes ≡ none)
      × ((other : ℕ) → other ≢ n.id → get_node other after.nodes ≡ get_node other net.nodes)
      × (after.peers ≡ net.peers)

  -- Disconnecting a node of a sound table takes this node alone out of it. The time of the peer in
  -- the address book is never updated, although the callback has a branch that does so.
  pub disconnect-IsGone :
      (now : ℕ) (n : Node) (net : Net)
      → IsSound net
      → get_node n.id net.nodes ≡ some n
      → IsGone n net (disconnect sha256 key now n net)
  disconnect-IsGone now n net h here =
      let live = All-get_node (IsLive net.next_id) n.id net.nodes here h.live in
      let (nodes, next, peers) = disconnect_lem sha256 key now n net live.registered h.distinct in
      let (out, same) = get_node-erase_node n.id net.nodes h.distinct in
      (
        ap (get_node n.id) nodes ∙ out,
        (λ other ne. ap (get_node other) nodes ∙ same other ne),
        peers,
      )

  not_idle :
      (n : Node) (net : Net)
      → IsSound net
      → get_node n.id net.nodes ≡ some n
      → is_idle sha256 key false n ≡ false
  unfolding is_idle
  not_idle n net h here = (All-get_node (IsLive net.next_id) n.id net.nodes here h.live).connected

  no_msg_fires :
      (now : ℕ) (n : Node) (net : Net)
      → is_idle sha256 key false n ≡ false
      → n.connection.socket_no_msg ≡ true
      → socket_no_msg_timeout_cb sha256 key false now n net ≡ disconnect sha256 key now n net
  unfolding socket_no_msg_timeout_cb
  no_msg_fires now n net idle e = simp (idle, e)

  -- While the program runs, a node of a sound table leaves it when the timer of the handshake fires
  -- and the handshake is not complete, when the timer of the first message fires and there was none,
  -- and when a timer of inactivity fires; otherwise these timers do nothing.
  pub timeouts_lem :
      (now : ℕ) (n : Node) (net : Net)
      → IsSound net
      → get_node n.id net.nodes ≡ some n
      → (is_handshake_completed n.connection ≡ false
          → IsGone n net (shake_hands_timeout_cb sha256 key false now n net))
        × (is_handshake_completed n.connection ≡ true
            → shake_hands_timeout_cb sha256 key false now n net ≡ net)
        × (n.connection.socket_no_msg ≡ true
            → IsGone n net (socket_no_msg_timeout_cb sha256 key false now n net))
        × (n.connection.socket_no_msg ≡ false
            → socket_no_msg_timeout_cb sha256 key false now n net ≡ net)
        × IsGone n net (inactivity_timeout_cb sha256 key false now n net)
  unfolding shake_hands_timeout_cb socket_no_msg_timeout_cb inactivity_timeout_cb
  timeouts_lem now n net h here =
      let idle = not_idle n net h here in
      let out = disconnect-IsGone now n net h here in
      (
        λ e. rw (idle, e) out,
        λ e. rw (idle, e) refl,
        λ e. subst (IsGone n net) (sym (no_msg_fires now n net idle e)) out,
        λ e. simp (idle, e),
        rw idle out,
      )
