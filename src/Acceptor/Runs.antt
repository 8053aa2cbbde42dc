-- ===== src/Acceptor/Runs.antt =====
-- The inbound connections on concrete values.
use btcdemo.Prelude.{ℕ, ◌≤◌, ◌<◌, ◌≡◌, ◌≢◌, refl, true, false, List, [], length}
use btcdemo.NetAddr.{NetAddr}
use btcdemo.NetAddr.SockAddr.{sockaddr_in}
use btcdemo.BanList.{is_banned}
use btcdemo.Node.Life.{Net}
use btcdemo.Node.Sound.{IsSound}
use btcdemo.Node.Join.{Arrives}
use btcdemo.Acceptor.{Incoming, accepted_addr, is_turned_away, accept_conn_cb, accept_conn_cb_lem}

abbrev nameless : NetAddr → List ℕ
nameless addr = addr.ip

abbrev empty_net : Net
empty_net = record {
  next_id = 0;
  nodes = [];
  gone = [];
  peers = record { map_peers = []; new_tbl = []; tried_tbl = []; rand_order_keys = [] };
  bans = [];
  in_flight = [];
}

abbrev call : Incoming
call = record {
  sock = sockaddr_in 0x0808_0808 0x208d;
  has_base = true;
  bev = 3;
  nonce = 7;
  now = 1600000000;
}

accept_conn_cb_lem_example :
    IsSound (accept_conn_cb nameless call empty_net)
    × (length empty_net.nodes ≤ 117 → length (accept_conn_cb nameless call empty_net).nodes ≤ 117)
    × (is_banned (nameless (accepted_addr call.sock)) call.now empty_net.bans ≡ true
        → accept_conn_cb nameless call empty_net ≡ empty_net)
    × (117 ≤ length empty_net.nodes → accept_conn_cb nameless call empty_net ≡ empty_net)
    × (call.has_base ≡ false → accept_conn_cb nameless call empty_net ≡ empty_net)
    × (call.bev ≡ 0 → accept_conn_cb nameless call empty_net ≡ empty_net)
    × (is_banned (nameless (accepted_addr call.sock)) call.now empty_net.bans ≡ false
        → length empty_net.nodes < 117
        → call.has_base ≡ true
        → call.bev ≢ 0
        → Arrives
            (accepted_addr call.sock)
            true
            false
            empty_net
            (accept_conn_cb nameless call empty_net))
accept_conn_cb_lem_example =
    accept_conn_cb_lem nameless call empty_net (record { live = tt; distinct = tt })

let_in : is_turned_away nameless call empty_net ≡ false
unfolding is_turned_away btcdemo.BanList.is_banned btcdemo.BanList.find btcdemo.Node.Table.size
let_in = refl
