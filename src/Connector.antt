-- ===== src/Connector.antt =====
-- class Connector of network/include/connector.h and network/src/connector.cpp, and SendVersion of
-- network/src/msg_process.cpp. What libevent and the resolver give, the clock and the random numbers
-- are arguments. Event loops, threads and the start of the timers are left out.
pub mod Open
mod Runs
use btcdemo.Prelude.{
  ℕ, zero, suc, ◌+◌, ◌-◌, ◌*◌, ◌%◌, ◌^◌, Bool, true, false, not, ◌&&◌, ◌||◌, List, [], ◌∷◌, ◌++◌,
  Option, none, some, length, get_elem?, ltb, leb, ◌==◌, if◌then◌else◌,
}
use btcdemo.Prelude.Hash.{Hash256}
use btcdemo.NetAddr.{NetAddr, new}
use btcdemo.NetAddr.Category.{is_valid}
use btcdemo.NetAddr.Group.{set_internal}
use btcdemo.BanList.{Text, is_banned}
use btcdemo.Peers.{Peer, Peers}
use btcdemo.Peers.Book.{◌>>=◌, attempt, add_all, select}
use btcdemo.Protocol.{protocol_version, desirable_service_flags, is_service_flag_desirable}
use btcdemo.Protocol.Version.{Version}
use btcdemo.LocalService.{LocalService, is_local}
use btcdemo.Node.{Node, set_host_name, register_callback}
use btcdemo.Node.Table.{get_node_of_addr, size}
use btcdemo.Node.Life.{Net, put, send_msg, initialize_node, register}

-- What one call of ConnectNode finds outside: `bev` is 0 if there is no socket event, `connected`
-- is whether the connection could be begun, `written` whether the bytes of a message are taken.
pub record Outside : Type 0 where
  pub has_base : Bool
  pub bev : ℕ
  pub connected : Bool
  pub written : Bool
  pub nonce : ℕ
  pub now : ℕ

-- The message of SendVersion. The services are those that the node has announced.
unfoldable pub version_message : ℕ → Text → ℕ → Node → Version
version_message now user_agent start_height n = record {
  protocol_version = protocol_version;
  services = n.services;
  timestamp = now;
  addr_recv = n.connection.addr;
  addr_from = record new { services = n.services };
  nonce = n.local_host_nonce;
  user_agent = user_agent;
  start_height = start_height;
  relay = 1;
}

unfoldable pub is_some : Option Node → Bool
is_some none = false
is_some (some n) = true

-- From the new node on.
unfoldable pub greet : Outside → Option Node → Net → Bool × Net
greet o none net = (false, net)
greet o (some n) net =
    let n1 = record n { connection = register_callback n.connection } in
    (true, put (send_msg o.written n1).1 (register n net))

abbrev pub max_outbound_connections : ℕ
max_outbound_connections = 8

-- The tests of OutboundTimeOutCb at one try.
unfoldable pub is_wanted : ℕ → ℕ → ℕ → Peer → Bool
is_wanted default_port now tries peer =
    let has_port = peer.addr.port == default_port in
    let desirable = is_service_flag_desirable peer.addr.services in
    if leb tries 30
    then leb (peer.last_try + 600) now && (has_port && desirable)
    else if leb tries 50
    then has_port && desirable
    else desirable

module _ (sha256 : List ℕ → Hash256) (key : Hash256) (name_of : NetAddr → Text)
    (here : LocalService) where
  -- From the new socket event on.
  unfoldable pub begin : Outside → NetAddr → Bool → Net → Bool × Net
  begin o addr manual net =
      let net1 = record net { peers = (attempt sha256 key addr o.now net.peers).1 } in
      let (made, net2) = initialize_node o.nonce o.bev addr false manual net1 in
      if not o.connected then (false, net1) else greet o made net2

  -- Why ConnectNode refuses an address.
  unfoldable pub is_refused : Outside → NetAddr → Net → Bool
  is_refused o addr net =
      not o.has_base
      || (not (is_valid addr)
          || (is_local addr here
              || (is_some (get_node_of_addr addr net.nodes)
                  || (is_banned (name_of addr) o.now net.bans || (o.bev == 0)))))

  unfoldable pub connect_node : Outside → NetAddr → Bool → Net → Bool × Net
  connect_node o addr manual net =
      if is_refused o addr net then (false, net) else begin o addr manual net

  -- ConnectNodes: whether all connections could be begun.
  unfoldable pub connect_nodes : List (Outside × NetAddr) → Bool → Net → Bool × Net
  connect_nodes [] manual net = (true, net)
  connect_nodes ((o, addr) ∷ addrs) manual net =
      let (is_ok, net1) = connect_node o addr manual net in
      let (are_ok, net2) = connect_nodes addrs manual net1 in (is_ok && are_ok, net2)

  -- The loop: `draws` are the random numbers of Select and `interrupted` the interruptions, by the
  -- number of the try.
  unfoldable pub try_peers :
      (ℕ → Bool × ℕ) → (ℕ → Bool) → ℕ → ℕ → Outside → ℕ → ℕ → Net → Option (Bool × Net)
  try_peers draws interrupted default_port now o zero tries net = some (false, net)
  try_peers draws interrupted default_port now o (suc rounds) tries net =
      let rest = try_peers draws interrupted default_port now o rounds (suc tries) net in
      let chosen = select (draws tries).0 (draws tries).1 false net.peers in
      if interrupted tries then some (false, net) else (elim chosen [
        | none ↦ none
        | some none ↦ some (false, net)
        | some (some peer) ↦
            if not (is_valid peer.addr) || is_local peer.addr here
            then some (false, net)
            else if is_wanted default_port now tries peer
            then some (connect_node o peer.addr false net)
            else rest
      ])

  unfoldable pub outbound_time_out_cb :
      (ℕ → Bool × ℕ) → (ℕ → Bool) → ℕ → ℕ → Outside → Net → Option (Bool × Net)
  outbound_time_out_cb draws interrupted default_port now o net =
      if leb max_outbound_connections (size net.nodes)
      then some (false, net)
      else try_peers draws interrupted default_port now o 101 0 net

-- GetHostAddr after LookupHost, whose addresses are `none` if it failed; the node that is already
-- connected takes the name.
unfoldable pub get_host_addr : Text → Option (List NetAddr) → ℕ → Net → Option NetAddr × Net
get_host_addr host_name none random net = (none, net)
get_host_addr host_name (some addrs) random net = elim (get_elem? addrs random) [
  | none ↦ (none, net)
  | some addr ↦
      if not (is_valid addr) then (none, net) else (elim (get_node_of_addr addr net.nodes) [
        | some n ↦ (none, put (record n { connection = set_host_name host_name n.connection }) net)
        | none ↦ (some addr, net)
      ])
]

-- What DnsLookup makes of the addresses of a seed; an age is what RandUint64 gives.
unfoldable pub dress : ℕ → ℕ → List NetAddr → List ℕ → List NetAddr
dress port now [] ages = []
dress port now (addr ∷ addrs) [] = []
dress port now (addr ∷ addrs) (age ∷ ages) =
    record addr {
      port = port;
      services = desirable_service_flags;
      timestamp = (now + 2 ^ 64 - 3 * 24 * 60 * 60 - age) % 2 ^ 32;
    }
    ∷ dress port now addrs ages

-- A seed in the loop of DnsLookup: whether the program is interrupted before it, the name that is
-- looked up, its addresses or that the lookup failed, and the random ages.
pub record Answer : Type 0 where
  pub interrupted : Bool
  pub host : Text
  pub addrs : Option (List NetAddr)
  pub ages : List ℕ

-- The number of addresses that were found, unless the loop was interrupted.
unfoldable pub found_more : ℕ → Option ℕ → Option ℕ
found_more n none = none
found_more n (some found) = some (n + found)

unfoldable pub found_any : Option ℕ → Bool
found_any none = false
found_any (some found) = not (found == 0)

module _ (sha256 : List ℕ → Hash256) (key : Hash256) where
  -- One seed, before the seeds behind it.
  unfoldable pub ask_seed : ℕ → ℕ → Answer → Peers → Option (ℕ × Peers)
  ask_seed port now a p =
      let (is_named, source) = set_internal sha256 a.host new in
      elim a.addrs [
        | none ↦ some (0, p)
        | some addrs ↦
            let added = add_all sha256 key now (dress port now addrs a.ages) source 0 p in
            if not is_named then some (0, p) else do (_, p1) ← added; some (length addrs, p1)
      ]

  unfoldable pub ask_seeds : ℕ → ℕ → List Answer → Peers → Option (Option ℕ × Peers)
  ask_seeds port now [] p = some (some 0, p)
  ask_seeds port now (a ∷ seeds) p =
      let asked = (do
        (count, p1) ← ask_seed port now a p
        (found, p2) ← ask_seeds port now seeds p1
        some (found_more count found, p2)) in
      if a.interrupted then some (none, p) else asked

  unfoldable pub dns_lookup : ℕ → ℕ → List Answer → Peers → Option (Bool × Peers)
  dns_lookup port now seeds p = do
    (found, p1) ← ask_seeds port now seeds p
    some (found_any found, p1)
