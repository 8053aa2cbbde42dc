-- ===== src/Peers/Book.antt =====
-- The operations of class Peers: network/src/peers.cpp. `now` is the adjusted time. An operation
-- gives what the function returns and the book after it.
use Prim.Native.Nat.{bit_or}
use btcdemo.Prelude.{
  ℕ, zero, suc, ◌+◌, ◌-◌, ◌*◌, ◌/◌, ◌%◌, ◌^◌, Bool, true, false, not, ◌&&◌, ◌||◌, List, [], ◌∷◌,
  ◌++◌, Option, none, some, length, get_elem?, min, ltb, leb, ◌==◌, if◌then◌else◌,
}
use btcdemo.Prelude.Hash.{Hash256}
use btcdemo.NetAddr.{NetAddr, addr_eq}
use btcdemo.NetAddr.Category.{is_routable}
use btcdemo.Peers.{Peer, Peers, is_terrible_peer, erase_rand, make_map_key}
use btcdemo.Peers.Table.{find, insert, erase, change}

infixl 5 ◌>>=◌
abbrev pub ◌>>=◌ {ℓ κ} : {A : Type ℓ} {B : Type κ} → Option A → (A → Option B) → Option B
none >>= f = none
some a >>= f = f a

-- Whether the group's entry is this key.
unfoldable pub is_entry : Option ℕ → ℕ → Bool
is_entry none map_key = false
is_entry (some k) map_key = k == map_key

-- What Find fills in: the peer, `is_new` and `is_tried`.
pub record Found : Type 0 where
  pub peer : Peer
  pub is_new : Bool
  pub is_tried : Bool

unfoldable pub find_peer : ℕ → ℕ → Peers → Option Found
find_peer map_key group_key p = elim (find map_key p.map_peers) [
  | none ↦ none
  | some peer ↦ some (record {
    peer = peer;
    is_new = is_entry (find group_key p.new_tbl) map_key;
    is_tried = is_entry (find group_key p.tried_tbl) map_key;
  })
]

-- What FindSameGroup fills in: the peer, `is_tried` and the key.
pub record Same : Type 0 where
  pub peer : Peer
  pub is_tried : Bool
  pub key : ℕ

-- `map_peers.find(key)->second`, which must be there.
unfoldable pub same_of : Bool → ℕ → Peers → Option (Option Same)
same_of is_tried key p = elim (find key p.map_peers) [
  | none ↦ none
  | some peer ↦ some (some (record { peer = peer; is_tried = is_tried; key = key }))
]

-- The inner `none` is the result false.
unfoldable pub find_same_group : ℕ → Peers → Option (Option Same)
find_same_group group_key p = elim (find group_key p.new_tbl) [
  | some key ↦ same_of false key p
  | none ↦ elim (find group_key p.tried_tbl) [ some key ↦ same_of true key p | none ↦ some none ]
]

-- The entry of a group, taken out of the one table or the other.
unfoldable pub erase_new : ℕ → Peers → Peers
erase_new group_key p = record p { new_tbl = erase group_key p.new_tbl }

unfoldable pub erase_tried : ℕ → Peers → Peers
erase_tried group_key p = record p { tried_tbl = erase group_key p.tried_tbl }

unfoldable pub erase_peer : ℕ → Peers → Peers
erase_peer key p = record p {
  map_peers = erase key p.map_peers;
  rand_order_keys = erase_rand key p.rand_order_keys;
}

unfoldable pub change_peer : ℕ → (Peer → Peer) → Peers → Peers
change_peer key f p = record p { map_peers = change key f p.map_peers }

abbrev pub set_timestamp : ℕ → Peer → Peer
set_timestamp t peer = record peer { addr = record peer.addr { timestamp = t } }

abbrev pub set_services : ℕ → Peer → Peer
set_services services peer = record peer { addr = record peer.addr { services = services } }

unfoldable pub insert_new_peer : NetAddr → NetAddr → ℕ → Peers → Peers
insert_new_peer addr source map_key p = record p {
  map_peers =
      insert map_key
        (record { addr = addr; source = source; attempts = 0; last_try = 0; last_success = 0 })
        p.map_peers;
  rand_order_keys = p.rand_order_keys ++ map_key ∷ [];
}

-- The branch of Add for an address that the book has.
unfoldable pub update_known : ℕ → NetAddr → ℕ → ℕ → ℕ → Found → Peers → Peers
update_known now addr time_penalty map_key group_key found p =
    if is_terrible_peer now found.peer
    then erase_peer map_key (
        if found.is_new
        then erase_new group_key p
        else if found.is_tried
        then erase_tried group_key p
        else p)
    else if (addr.timestamp == 0)
        || (not (found.peer.addr.timestamp == 0) && leb addr.timestamp found.peer.addr.timestamp)
    then p
    else (let update_interval =
          if ltb now (addr.timestamp + 24 * 60 * 60) then 60 * 60 else 24 * 60 * 60 in
        let earlier = (addr.timestamp + 2 ^ 32 - update_interval) % 2 ^ 32 in
        let p1 =
          if (found.peer.addr.timestamp == 0)
            || ltb (found.peer.addr.timestamp + time_penalty) earlier
          then change_peer map_key (set_timestamp (addr.timestamp - time_penalty)) p
          else p in
        change_peer map_key (set_services (bit_or found.peer.addr.services addr.services)) p1)

-- The branch of Add for a new address, with the entry of its group.
unfoldable pub add_unknown : ℕ → NetAddr → NetAddr → ℕ → ℕ → Option Same → Peers → Peers
add_unknown now addr source map_key group_key none p =
    let p1 = insert_new_peer addr source map_key p in
    record p1 { new_tbl = insert group_key map_key p1.new_tbl }
add_unknown now addr source map_key group_key (some same) p =
    if is_terrible_peer now same.peer
    then (let p1 = insert_new_peer addr source map_key (
          erase_peer same.key
            (if same.is_tried then erase_tried group_key p else erase_new group_key p)) in
        record p1 { new_tbl = insert group_key map_key p1.new_tbl })
    else insert_new_peer addr source map_key p

module _ (sha256 : List ℕ → Hash256) (key : Hash256) where
  abbrev pub map_key_of : NetAddr → ℕ
  map_key_of addr = make_map_key sha256 key addr false

  abbrev pub group_key_of : NetAddr → ℕ
  group_key_of addr = make_map_key sha256 key addr true

  unfoldable pub add : ℕ → NetAddr → NetAddr → ℕ → Peers → Option (Bool × Peers)
  add now addr source time_penalty p =
      let map_key = map_key_of addr in
      let group_key = group_key_of addr in
      let penalty = if addr_eq addr source then 0 else time_penalty in
      if not (is_routable addr) then some (false, p) else (elim (find_peer map_key group_key p) [
        | some found ↦ some (false, update_known now addr penalty map_key group_key found p)
        | none ↦ (do
          same ← find_same_group group_key p
          some (true, add_unknown now addr source map_key group_key same p))
      ])

  -- With the number of those that were added; the result is whether it is above 0.
  unfoldable pub add_all : ℕ → List NetAddr → NetAddr → ℕ → Peers → Option (ℕ × Peers)
  add_all now [] source time_penalty p = some (0, p)
  add_all now (addr ∷ addrs) source time_penalty p = do
    (is_added, p1) ← add now addr source time_penalty p
    (added, p2) ← add_all now addrs source time_penalty p1
    some ((if is_added then 1 else 0) + added, p2)

  -- The peer of an address, if the book has this very address with its port.
  unfoldable pub exact : NetAddr → Peers → Option Found
  exact addr p = elim (find_peer (map_key_of addr) (group_key_of addr) p) [
    | none ↦ none
    | some found ↦ if addr_eq found.peer.addr addr then some found else none
  ]

  unfoldable pub make_tried : NetAddr → ℕ → Peers → Bool × Peers
  make_tried addr time p = elim (exact addr p) [
    | none ↦ (false, p)
    | some found ↦
        let p1 =
          change_peer (map_key_of addr)
            (λ peer. record peer { attempts = 0; last_try = time; last_success = time }) p in
        if found.is_tried then (false, p1) else (
          true,
          erase_new (group_key_of addr)
              (record p1 { tried_tbl = insert (group_key_of addr) (map_key_of addr) p1.tried_tbl }),
        )
  ]

  unfoldable pub set_peer_services : NetAddr → ℕ → Peers → Bool × Peers
  set_peer_services addr services p = elim (exact addr p) [
    | none ↦ (false, p)
    | some found ↦ (true, change_peer (map_key_of addr) (set_services services) p)
  ]

  unfoldable pub attempt : NetAddr → ℕ → Peers → Bool × Peers
  attempt addr time p = elim (exact addr p) [
    | none ↦ (false, p)
    | some found ↦ (
      true,
      change_peer (map_key_of addr)
          (λ peer. record peer { attempts = (found.peer.attempts + 1) % 2 ^ 32; last_try = time })
          p,
    )
  ]

  unfoldable pub update_time : NetAddr → ℕ → Peers → Bool × Peers
  update_time addr time p = elim (exact addr p) [
    | none ↦ (false, p)
    | some found ↦ (
      true,
      if ltb (found.peer.addr.timestamp + 20 * 60) time
          then change_peer (map_key_of addr) (set_timestamp (time % 2 ^ 32)) p
          else p,
    )
  ]

-- The peer of the entry at a position of a table.
unfoldable pub peer_at : List (ℕ × ℕ) → ℕ → Peers → Option Peer
peer_at tbl rand_pos p = do (group, k) ← get_elem? tbl rand_pos; find k p.map_peers

-- `coin` is the random bit, and `random` the random number, reduced to the positions of the table
-- that is chosen. The inner `none` is the result false.
unfoldable pub select : Bool → ℕ → Bool → Peers → Option (Option Peer)
select coin random new_only p =
    let no_new = length p.new_tbl == 0 in
    let no_tried = length p.tried_tbl == 0 in
    if no_new && no_tried
    then some none
    else if new_only && no_new
    then some none
    else if not new_only && (not no_tried && (no_new || coin))
    then (do peer ← peer_at p.tried_tbl (random % length p.tried_tbl) p; some (some peer))
    else (do peer ← peer_at p.new_tbl (random % length p.new_tbl) p; some (some peer))

unfoldable pub getaddr_count : Peers → ℕ
getaddr_count p = min (23 * length p.map_peers / 100) 2500

-- The loop over the first keys of the shuffled vector.
unfoldable pub collect : ℕ → ℕ → List ℕ → Peers → Option (List NetAddr)
collect now zero keys p = some []
collect now (suc count) [] p = none
collect now (suc count) (k ∷ keys) p = do
  peer ← find k p.map_peers
  rest ← collect now count keys p
  some (if is_terrible_peer now peer then rest else peer.addr ∷ rest)

-- `shuffle` is what std::random_shuffle does to the vector.
unfoldable pub get_addrs : ℕ → (List ℕ → List ℕ) → Peers → Option (List NetAddr × Peers)
get_addrs now shuffle p = do
  let keys = shuffle p.rand_order_keys
  addrs ← collect now (getaddr_count p) keys p
  some (addrs, record p { rand_order_keys = keys })
