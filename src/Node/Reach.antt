-- ===== src/Node/Reach.antt =====
-- The steps of a table of nodes by the operations of Node/Life, and its invariant along them.
use btcdemo.Prelude.{ℕ, ◌≡◌, refl, Bool, true, false, not, ◌||◌, List, ◌==◌, if◌then◌else◌}
use btcdemo.Prelude.Hash.{Hash256}
use btcdemo.NetAddr.{NetAddr}
use btcdemo.NetAddr.Category.{is_local}
use btcdemo.BanList.{Text}
use btcdemo.Node.{Node, established, is_disconnected, is_handshake_completed, assign_state}
use btcdemo.Node.Entries.{All-erase_node, Distinct-erase_node}
use btcdemo.Node.Life.{
  Net, put, set_connection_state, disconnect, is_idle, inactivity_timeout_cb,
  socket_no_msg_timeout_cb, shake_hands_timeout_cb, ping_timeout_cb, check_banned,
}
use btcdemo.Node.Sound.{IsSound, Held, disconnect_lem}
use btcdemo.Node.Join.{
  join, IsMinor, put-IsSound, minor-IsSound, if-IsSound, send_msg-IsMinor, join-IsSound,
}

module _ (sha256 : List ℕ → Hash256) (key : Hash256) where
  disconnect-IsSound :
      (now : ℕ) (n : Node) (net : Net)
      → n.connection.has_callback ≡ true
      → IsSound net
      → IsSound (disconnect sha256 key now n net)
  disconnect-IsSound now n net has h =
      let (nodes, next, peers) = disconnect_lem sha256 key now n net has h.distinct in
      record {
        live = rw (nodes, next) (All-erase_node _ n.id net.nodes h.live);
        distinct = rw nodes (Distinct-erase_node n.id net.nodes h.distinct);
      }

  check_banned-IsSound :
      (name_of : NetAddr → Text) (has_bans : Bool) (now : ℕ) (n : Node) (net : Net)
      → Held n net
      → n.connection.has_callback ≡ true
      → IsSound net
      → IsSound (check_banned sha256 key name_of has_bans now n net).1
  unfolding check_banned
  check_banned-IsSound name_of has_bans now n net held has h =
      let n1 = record n { misbehavior = record n.misbehavior { should_ban = false } } in
      let h1 : IsSound (put n1 net) =
        minor-IsSound n n1 net held
          (record { same_id = refl; same_state = refl; same_callback = refl; same_ping = refl })
          h in
      let h2 : IsSound (disconnect sha256 key now n1 (put n1 net)) =
        disconnect-IsSound now n1 (put n1 net) has h1 in
      tests (not n.misbehavior.should_ban) n.connection.manual
        (is_local n.connection.addr || not has_bans) h h1 h2
        (record { live = h2.live; distinct = h2.distinct })
    where
      tests :
          (a b c : Bool) {w x y z : Net}
          → IsSound w
          → IsSound x
          → IsSound y
          → IsSound z
          → IsSound (
              let r : Bool × Net =
                if a
                then (false, w)
                else if b
                then (true, x)
                else if c
                then (true, y)
                else (true, z) in
              r.1)
      tests true b c hw hx hy hz = hw
      tests false true c hw hx hy hz = hx
      tests false false true hw hx hy hz = hy
      tests false false false hw hx hy hz = hz

  -- What happens to a table. A node that is held is in the table or has left it.
  pub data Step : Net → Net → Type 0 where
    joins :
        (nonce bev : ℕ) (addr : NetAddr) (is_inbound manual : Bool) (net : Net)
        → Step net (join nonce bev addr is_inbound manual net)
    disconnects :
        (now : ℕ) (n : Node) (net : Net)
        → Held n net
        → n.connection.has_callback ≡ true
        → Step net (disconnect sha256 key now n net)
    establishes :
        (now : ℕ) (n : Node) (net : Net)
        → Held n net
        → Step net (set_connection_state sha256 key established now n net)
    changes : (n m : Node) (net : Net) → Held n net → IsMinor n m → Step net (put m net)
    is_inactive :
        (interrupted : Bool) (now : ℕ) (n : Node) (net : Net)
        → Held n net
        → n.connection.has_callback ≡ true
        → Step net (inactivity_timeout_cb sha256 key interrupted now n net)
    has_no_msg :
        (interrupted : Bool) (now : ℕ) (n : Node) (net : Net)
        → Held n net
        → n.connection.has_callback ≡ true
        → Step net (socket_no_msg_timeout_cb sha256 key interrupted now n net)
    has_no_handshake :
        (interrupted : Bool) (now : ℕ) (n : Node) (net : Net)
        → Held n net
        → n.connection.has_callback ≡ true
        → Step net (shake_hands_timeout_cb sha256 key interrupted now n net)
    pings :
        (interrupted written : Bool) (now : ℕ) (n : Node) (net : Net)
        → Held n net
        → n.connection.has_callback ≡ true
        → Step net (ping_timeout_cb sha256 key interrupted written now n net)
    is_checked :
        (name_of : NetAddr → Text) (has_bans : Bool) (now : ℕ) (n : Node) (net : Net)
        → Held n net
        → n.connection.has_callback ≡ true
        → Step net (check_banned sha256 key name_of has_bans now n net).1

  pub data Reach (start : Net) : Net → Type 0 where
    here : Reach start start
    later : {net after : Net} → Reach start net → Step net after → Reach start after

  pub Step-IsSound : {net after : Net} → Step net after → IsSound net → IsSound after
  unfolding inactivity_timeout_cb socket_no_msg_timeout_cb shake_hands_timeout_cb ping_timeout_cb
      set_connection_state assign_state is_disconnected
  Step-IsSound (joins nonce bev addr is_inbound manual net) h =
      join-IsSound nonce bev addr is_inbound manual net h
  Step-IsSound (disconnects now n net held has) h = disconnect-IsSound now n net has h
  Step-IsSound (establishes now n net held) h =
      put-IsSound n _ net held refl
        (λ live. record {
          given = live.given;
          registered = live.registered;
          connected = refl;
          silent = live.silent;
        })
        h
  Step-IsSound (changes n m net held minor) h = minor-IsSound n m net held minor h
  Step-IsSound (is_inactive interrupted now n net held has) h =
      if-IsSound (is_idle sha256 key interrupted n) h (disconnect-IsSound now n net has h)
  Step-IsSound (has_no_msg interrupted now n net held has) h =
      if-IsSound (is_idle sha256 key interrupted n) h
        (if-IsSound (not n.connection.socket_no_msg) h (disconnect-IsSound now n net has h))
  Step-IsSound (has_no_handshake interrupted now n net held has) h =
      if-IsSound (is_idle sha256 key interrupted n) h
        (if-IsSound (is_handshake_completed n.connection) h (disconnect-IsSound now n net has h))
  Step-IsSound (pings interrupted written now n net held has) h =
      if-IsSound (is_idle sha256 key interrupted n) h (
        if-IsSound (not (n.ping_nonce_sent == 0)) (disconnect-IsSound now n net has h)
          (minor-IsSound n _ net held (send_msg-IsMinor written n) h))
  Step-IsSound (is_checked name_of has_bans now n net held has) h =
      check_banned-IsSound name_of has_bans now n net held has h

  -- From a sound table every table that is reached is sound.
  pub Reach-IsSound : {start net : Net} → Reach start net → IsSound start → IsSound net
  Reach-IsSound here h = h
  Reach-IsSound (later r step) h = Step-IsSound step (Reach-IsSound r h)
