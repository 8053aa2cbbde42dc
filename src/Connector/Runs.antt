-- ===== src/Connector/Runs.antt =====
-- The outbound connections on concrete values.
use btcdemo.Prelude.{
  ℕ, ◌≤◌, ◌≡◌, refl, inl, inr, Bool, true, false, List, [], ◌∷◌, Option, none, some, length, arith,
}
use btcdemo.Prelude.Hash.{Hash256, null_hash}
use btcdemo.NetAddr.{NetAddr}
use btcdemo.LocalService.{LocalService}
use btcdemo.Peers.{Peers, new}
use btcdemo.Peers.Table.{insert, find}
use btcdemo.Peers.Book.{insert_new_peer}
use btcdemo.Peers.Listed.{Listed, new-Listed, insert_new_peer-Listed, insert_new-Listed}
use btcdemo.Protocol.{desirable_service_flags}
use btcdemo.Node.Life.{Net}
use btcdemo.Connector.{Outside, outbound_time_out_cb, max_outbound_connections}
use btcdemo.Connector.Open.{Tried, outbound_time_out_cb_lem}

abbrev no_hash : List ℕ → Hash256
no_hash bytes = null_hash

abbrev nameless : NetAddr → List ℕ
nameless addr = addr.ip

abbrev host : LocalService
host = record { service = 1029; local_addrs = [] }

abbrev outside : Outside
outside = record {
  has_base = true;
  bev = 1;
  connected = true;
  written = true;
  nonce = 7;
  now = 1600000000;
}

abbrev friend : NetAddr
friend = record {
  ip = 0 ∷ 0 ∷ 0 ∷ 0 ∷ 0 ∷ 0 ∷ 0 ∷ 0 ∷ 0 ∷ 0 ∷ 0xff ∷ 0xff ∷ 9 ∷ 9 ∷ 9 ∷ 9 ∷ [];
  port = 8333;
  scope_id = 0;
  services = desirable_service_flags;
  timestamp = 0;
}

-- A book with one new peer.
abbrev book : Peers
book = record (insert_new_peer friend friend 7 new) {
  new_tbl = insert 3 7 (insert_new_peer friend friend 7 new).new_tbl;
}

book-Listed : Listed book
unfolding insert_new_peer new insert find
book-Listed =
    insert_new-Listed 3 7 (insert_new_peer friend friend 7 new)
      (insert_new_peer-Listed friend friend 7 new new-Listed) (_, refl)
      (λ i e. elim e [ inl f ↦ cc | inr f ↦ cc ]) refl

abbrev net : Net
net = record { next_id = 0; nodes = []; gone = []; peers = book; bans = []; in_flight = [] }

abbrev draws : ℕ → Bool × ℕ
draws n = (true, n)

abbrev never : ℕ → Bool
never n = false

outbound_time_out_cb_lem_example :
    (after : Bool × Net) × (outbound_time_out_cb no_hash null_hash nameless host draws never 8333
        1600000000 outside net
      ≡ some after)
    × (length after.1.nodes ≤ max_outbound_connections)
    × Tried no_hash null_hash nameless host outside net after
outbound_time_out_cb_lem_example =
    outbound_time_out_cb_lem no_hash null_hash nameless host draws never 8333 1600000000 outside net
      (record { live = tt; distinct = tt }) book-Listed (omega arith)

abbrev is_connected : Option (Bool × Net) → Bool
is_connected none = false
is_connected (some (done, after)) = done

-- At this run the friend is connected to.
dials :
    is_connected
      (outbound_time_out_cb no_hash null_hash nameless host draws never 8333 1600000000 outside net)
    ≡ true
unfolding outbound_time_out_cb btcdemo.Node.Table.size btcdemo.Connector.try_peers
    btcdemo.Peers.Book.select insert insert_new_peer new btcdemo.Peers.Book.peer_at
    btcdemo.NetAddr.Category.is_valid btcdemo.NetAddr.Category.is_rfc3849
    btcdemo.NetAddr.Category.is_ipv6 btcdemo.NetAddr.is_ipv4 btcdemo.NetAddr.Category.is_internal
    btcdemo.NetAddr.ip_word btcdemo.LocalService.is_local btcdemo.LocalService.is_local_in
    btcdemo.Connector.is_wanted btcdemo.Protocol.is_service_flag_desirable btcdemo.BanList.find
    btcdemo.BanList.is_banned btcdemo.Connector.begin btcdemo.Connector.connect_node
    btcdemo.Connector.greet btcdemo.Connector.is_refused btcdemo.Connector.is_some
    btcdemo.Node.Life.initialize_node btcdemo.Node.Life.initialized btcdemo.Node.Table.add_node
    btcdemo.Node.Table.first_node btcdemo.Node.Table.get_node btcdemo.Node.Table.get_node_of_addr
    btcdemo.Node.new_node
dials = refl
