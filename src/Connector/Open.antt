-- ===== src/Connector/Open.antt =====
-- What ConnectNode and the timer of the outbound connections do to a sound table of nodes.
use btcdemo.Prelude.{
  ℕ, zero, suc, ◌≤◌, ◌≡◌, refl, sym, ap, subst, ◌∙◌, Bool, true, false, not, ◌||◌, List, [], ◌∷◌,
  ◌++◌, Option, none, some, length, length-append, leb, if◌then◌else◌, Bool-cases, inl, inr, arith,
}
use btcdemo.Prelude.Bytes.{All}
use btcdemo.Prelude.Hash.{Hash256}
use btcdemo.NetAddr.{NetAddr}
use btcdemo.NetAddr.Category.{is_valid}
use btcdemo.BanList.{Text, is_banned}
use btcdemo.Peers.{Peer}
use btcdemo.Peers.Book.{attempt}
use btcdemo.Peers.Listed.{Listed}
use btcdemo.Peers.Keep.{select_lem}
use btcdemo.Protocol.{is_service_flag_desirable}
use btcdemo.LocalService.{LocalService, is_local}
use btcdemo.Node.{Node, new_node}
use btcdemo.Node.Table.{get_node_of_addr, put_node, add_node, size}
use btcdemo.Node.Entries.{OtherId, get_node-add_node, put_node-add_node}
use btcdemo.Node.Life.{Net, put, send_msg, initialize_node, initialized, register}
use btcdemo.Node.Sound.{IsSound, Held}
use btcdemo.Node.Join.{
  IsNew, Arrives, joined-IsNew, send_msg-IsNew, join, joined, join_lem, join-IsSound, minor-IsSound,
  is_fresh, send_msg-IsMinor,
}
use btcdemo.Connector.{
  Outside, is_some, greet, begin, is_refused, connect_node, is_wanted, try_peers,
  outbound_time_out_cb, max_outbound_connections,
}

-- ConnectNode leaves the table as it is, or adds the new node of the address.
pub record Opens (addr : NetAddr) (manual : Bool) (net : Net) (after : Bool × Net) : Type 0 where
  pub sound : IsSound after.1
  pub closed : after.0 ≡ false → after.1.nodes ≡ net.nodes
  pub opens : after.0 ≡ true → Arrives addr false manual net after.1

module _ (sha256 : List ℕ → Hash256) (key : Hash256) (name_of : NetAddr → Text)
    (here : LocalService) where
  -- The conditions on the address that is connected to.
  pub record IsAllowed (o : Outside) (addr : NetAddr) (net : Net) : Type 0 where
    pub valid : is_valid addr ≡ true
    pub foreign : is_local addr here ≡ false
    pub unconnected : get_node_of_addr addr net.nodes ≡ none
    pub unbanned : is_banned (name_of addr) o.now net.bans ≡ false

  is_refused-false :
      (o : Outside) (addr : NetAddr) (net : Net)
      → is_refused sha256 key name_of here o addr net ≡ false
      → IsAllowed o addr net
  unfolding is_refused is_some
  is_refused-false o addr net e = record {
    valid = ground (arith, e);
    foreign = ground (arith, e);
    unconnected = is_some-false (get_node_of_addr addr net.nodes) (ground (arith, e));
    unbanned = ground (arith, e);
  }
    where
      is_some-false : (found : Option Node) → is_some found ≡ false → found ≡ none
      is_some-false none e = refl
      is_some-false (some n) e = cc e

  module _ (o : Outside) (addr : NetAddr) (manual : Bool) where
    abbrev opened : Net → Node
    opened net = joined o.nonce o.bev addr false manual net.next_id

    abbrev joins : Net → Net
    joins net = join o.nonce o.bev addr false manual net

    abbrev begun : Net → Bool × Net
    begun net =
        greet o (initialize_node o.nonce o.bev addr false manual net).0
          (initialize_node o.nonce o.bev addr false manual net).1

    made-eq :
        (net : Net)
        → IsSound net
        → (initialize_node o.nonce o.bev addr false manual net).0
          ≡ some (initialized o.nonce o.bev addr false manual net.next_id)
    unfolding initialize_node initialized new_node
    made-eq net h =
        get_node-add_node (initialized o.nonce o.bev addr false manual net.next_id) net.nodes
          (is_fresh net.next_id net.nodes h.live)

    joins-eq :
        (net : Net)
        → IsSound net
        → joins net
          ≡ register
              (initialized o.nonce o.bev addr false manual net.next_id)
              (initialize_node o.nonce o.bev addr false manual net).1
    unfolding join
    joins-eq net h = rw (join, made-eq net h) refl

    begun-eq :
        (net : Net)
        → IsSound net
        → begun net ≡ (true, put (send_msg o.written (opened net)).1 (joins net))
    unfolding greet
    begun-eq net h = rw (joins-eq net h) (
        ap
          (λ (made : Option Node).
            greet o made (initialize_node o.nonce o.bev addr false manual net).1)
          (made-eq net h))

    found : (net : Net) → IsSound net → Held (opened net) (joins net)
    unfolding initialized new_node
    found net h =
        let (nodes, next) = join_lem o.nonce o.bev addr false manual net h in
        inl (
          rw nodes
            (get_node-add_node (opened net) net.nodes (is_fresh net.next_id net.nodes h.live)))

    sent : Net → Node
    sent net = (send_msg o.written (opened net)).1

    sent-IsNew : (net : Net) → IsNew addr false manual net.next_id (sent net)
    unfolding sent
    sent-IsNew net =
        send_msg-IsNew o.written (opened net)
          (joined-IsNew o.nonce o.bev addr false manual net.next_id)

    greeted-nodes :
        (net : Net)
        → IsSound net
        → (put (send_msg o.written (opened net)).1 (joins net)).nodes ≡ net.nodes ++ sent net ∷ []
    unfolding put sent add_node
    greeted-nodes net h =
        let new = sent-IsNew net in
        let (nodes, next) = join_lem o.nonce o.bev addr false manual net h in
        ap (put_node (sent net)) nodes
        ∙ put_node-add_node (sent net) (opened net) net.nodes
            ((joined-IsNew o.nonce o.bev addr false manual net.next_id).its_id ∙ sym new.its_id)
            (subst (λ id. All (OtherId id) net.nodes) (sym new.its_id)
              (is_fresh net.next_id net.nodes h.live))

    greeted-Opens :
        (net : Net)
        → IsSound net
        → Opens addr manual net (true, put (send_msg o.written (opened net)).1 (joins net))
    greeted-Opens net h = record {
      sound =
          minor-IsSound (opened net) (send_msg o.written (opened net)).1 (joins net) (found net h)
            (send_msg-IsMinor o.written (opened net))
            (join-IsSound o.nonce o.bev addr false manual net h);
      closed = λ e. cc e;
      opens = λ _. (sent net, sent-IsNew net, greeted-nodes net h);
    }

    begin-Opens :
        (net : Net)
        → IsSound net
        → Opens addr manual net (begin sha256 key name_of here o addr manual net)
    unfolding begin
    begin-Opens net h = elim (Bool-cases (not o.connected)) [
      | inl e ↦ rw e (record {
        sound = record { live = h.live; distinct = h.distinct };
        closed = λ _. refl;
        opens = λ t. cc t;
      })
      | inr e ↦
          let net1 = record net { peers = (attempt sha256 key addr o.now net.peers).1 } in
          let h1 : IsSound net1 = record { live = h.live; distinct = h.distinct } in
          let done = greeted-Opens net1 h1 in
          rw (e, begun-eq net1 h1)
            (record { sound = done.sound; closed = done.closed; opens = done.opens })
    ]

    -- ConnectNode keeps a table of nodes sound. If it returns false, the table is as it was; if it
    -- returns true, the table has one node more, the new one of the address, and the address is
    -- valid, none of this host, not that of a node of the table, and not banned.
    pub connect_node_lem :
        (net : Net)
        → IsSound net
        → Opens addr manual net (connect_node sha256 key name_of here o addr manual net)
          × ((connect_node sha256 key name_of here o addr manual net).0 ≡ true
              → IsAllowed o addr net)
    unfolding connect_node
    connect_node_lem net h = elim (Bool-cases (is_refused sha256 key name_of here o addr net)) [
      | inl e ↦ rw e (record { sound = h; closed = λ _. refl; opens = λ t. cc t }, λ t. cc t)
      | inr e ↦ rw e (begin-Opens net h, λ _. is_refused-false o addr net e)
    ]

  -- What a timer's try does: the table stays as it is, or has the new node of an address that could
  -- be chosen.
  pub record Tried (o : Outside) (net : Net) (after : Bool × Net) : Type 0 where
    pub sound : IsSound after.1
    pub closed : after.0 ≡ false → after.1.nodes ≡ net.nodes
    pub opens :
        after.0 ≡ true
        → (addr : NetAddr) × IsAllowed o addr net
          × (is_service_flag_desirable addr.services ≡ true)
          × Arrives addr false false net after.1

  abbrev Tries : Outside → Net → Option (Bool × Net) → Type 0
  Tries o net result = (after : Bool × Net) × (result ≡ some after) × Tried o net after

  stays : (o : Outside) (net : Net) → IsSound net → Tries o net (some (false, net))
  stays o net h = ((false, net), refl, record { sound = h; closed = λ _. refl; opens = λ t. cc t })

  is_wanted_desirable :
      (default_port now tries : ℕ) (peer : Peer)
      → is_wanted default_port now tries peer ≡ true
      → is_service_flag_desirable peer.addr.services ≡ true
  unfolding is_wanted
  is_wanted_desirable default_port now tries peer e = ground (arith, e)

  module _ (draws : ℕ → Bool × ℕ) (interrupted : ℕ → Bool) (default_port now : ℕ)
      (o : Outside) where
    try_peers_lem :
        (rounds tries : ℕ) (net : Net)
        → IsSound net
        → Listed net.peers
        → Tries o net (
            try_peers sha256 key name_of here draws interrupted default_port now o rounds tries net)
    unfolding try_peers
    try_peers_lem zero tries net h listed = stays o net h
    try_peers_lem (suc rounds) tries net h listed = elim (Bool-cases (interrupted tries)) [
      | inl i ↦ rw i (stays o net h)
      | inr i ↦
          let (r, chosen, empty) =
            select_lem (draws tries).0 (draws tries).1 false net.peers listed in
          rw (try_peers, i, chosen) (with_peer r (try_peers_lem rounds (suc tries) net h listed))
    ]
      where
        with_peer :
            (r : Option Peer)
            → Tries o net (
                try_peers sha256 key name_of here draws interrupted default_port now o rounds
                  (suc tries)
                  net)
            → Tries o net (elim r [
              | none ↦ some (false, net)
              | some peer ↦
                  if not (is_valid peer.addr) || is_local peer.addr here
                  then some (false, net)
                  else if is_wanted default_port now tries peer
                  then some (connect_node sha256 key name_of here o peer.addr false net)
                  else try_peers sha256 key name_of here draws interrupted default_port now o rounds
                      (suc tries)
                      net
            ])
        with_peer none rest = stays o net h
        with_peer (some peer) rest =
            elim (Bool-cases (not (is_valid peer.addr) || is_local peer.addr here)) [
              | inl e ↦ rw e (stays o net h)
              | inr e ↦ elim (Bool-cases (is_wanted default_port now tries peer)) [
                | inl w ↦
                    let (opens, allowed) = connect_node_lem o peer.addr false net h in
                    rw (e, w)
                      (
                        connect_node sha256 key name_of here o peer.addr false net,
                        refl,
                        record {
                          sound = opens.sound;
                          closed = opens.closed;
                          opens = λ t. (
                            peer.addr,
                            allowed t,
                            is_wanted_desirable default_port now tries peer w,
                            opens.opens t,
                          );
                        },
                      )
                | inr w ↦ rw (e, w) rest
              ]
            ]

    -- The timer of the outbound connections never reads a missing peer and keeps the table sound and
    -- at 8 nodes or fewer. If it returns false, the table is as it was; if it returns true, the table
    -- has one node more, which is the new one of an address that is valid, none of this host, not yet
    -- connected, not banned and of the desirable services.
    pub outbound_time_out_cb_lem :
        (net : Net)
        → IsSound net
        → Listed net.peers
        → length net.nodes ≤ max_outbound_connections
        → (after : Bool × Net) × (outbound_time_out_cb sha256 key name_of here draws interrupted
              default_port now o net
            ≡ some after)
          × (length after.1.nodes ≤ max_outbound_connections)
          × Tried o net after
    unfolding outbound_time_out_cb size
    outbound_time_out_cb_lem net h listed small =
        elim (Bool-cases (leb max_outbound_connections (length net.nodes))) [
          | inl e ↦ rw e (
              (
                (false, net),
                refl,
                small,
                record { sound = h; closed = λ _. refl; opens = λ t. cc t },
              ))
          | inr e ↦
              let (after, done, tried) = try_peers_lem 101 0 net h listed in
              rw e (after, done, bounded after tried e, tried)
        ]
      where
        bounded :
            (after : Bool × Net)
            → Tried o net after
            → leb 8 (length net.nodes) ≡ false
            → length after.1.nodes ≤ 8
        bounded (true, net1) tried e =
            let (addr, allowed, desirable, (n, new, nodes)) = tried.opens refl in
            ground (arith, e, ap length nodes, length-append net.nodes (n ∷ []))
        bounded (false, net1) tried e = ground (arith, e, ap length (tried.closed refl))
