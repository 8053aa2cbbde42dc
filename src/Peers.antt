-- ===== src/Peers.antt =====
-- class Peers, the address book, of network/include/peers.h, network/src/peers.cpp and
-- network/proto/peers.proto. The clock, the random numbers and the hash function SHA-256 are
-- arguments; times are not negative. Locks are left out, and so are the logs, the file and the
-- protobuf code. What the code does with a missing entry is undefined, which is none.
pub mod Table
pub mod Book
pub mod Listed
pub mod Change
pub mod Keep
mod Runs
use Prim.Native.Nat.{bit_or}
use btcdemo.Prelude.{
  ℕ, zero, suc, ◌+◌, ◌-◌, ◌*◌, ◌/◌, ◌%◌, ◌^◌, Bool, true, false, not, ◌&&◌, ◌||◌, List, [], ◌∷◌,
  ◌++◌, Option, none, some, length, take, replicate, get_elem?, ltb, leb, ◌==◌, if◌then◌else◌,
}
use btcdemo.Prelude.Hash.{Hash256}
use btcdemo.Endian.{from_little_endian}
use btcdemo.Serialize.{serialize_bytes}
use btcdemo.NetAddr.{NetAddr, addr_eq}
use btcdemo.NetAddr.Group.{get_group}

pub record Peer : Type 0 where
  pub addr : NetAddr
  pub source : NetAddr
  pub attempts : ℕ
  pub last_try : ℕ
  pub last_success : ℕ

-- A protobuf map; the order of the list is that of its iteration.
abbrev pub Table {ℓ} : Type ℓ → Type ℓ
Table V = List (ℕ × V)

pub record Peers : Type 0 where
  pub map_peers : Table Peer
  pub new_tbl : Table ℕ
  pub tried_tbl : Table ℕ
  pub rand_order_keys : List ℕ

unfoldable pub new : Peers
new = record { map_peers = []; new_tbl = []; tried_tbl = []; rand_order_keys = [] }

unfoldable pub clear : Peers → Peers
clear p = record p { map_peers = []; new_tbl = []; tried_tbl = []; rand_order_keys = [] }

unfoldable pub size : Peers → ℕ
size p = length p.map_peers

unfoldable pub is_empty : Peers → Bool
is_empty p = length p.map_peers == 0

abbrev pub peer_horizon_days : ℕ
peer_horizon_days = 30

abbrev pub peer_retries : ℕ
peer_retries = 3

abbrev pub max_peer_failures : ℕ
max_peer_failures = 10

abbrev pub min_peer_fail_days : ℕ
min_peer_fail_days = 7

-- A difference of two signed times is compared by adding to the other side.
unfoldable pub is_terrible_peer : ℕ → Peer → Bool
is_terrible_peer now peer =
    if not (peer.last_try == 0) && leb now (peer.last_try + 60)
    then false
    else if ltb (now + 10 * 60) peer.addr.timestamp
    then true
    else if (peer.addr.timestamp == 0)
        || ltb (peer.addr.timestamp + peer_horizon_days * 24 * 60 * 60) now
    then true
    else if (peer.last_success == 0) && leb peer_retries peer.attempts
    then true
    else if ltb (peer.last_success + min_peer_fail_days * 24 * 60 * 60) now
        && leb max_peer_failures peer.attempts
    then true
    else false

-- `std::swap(*pos, back)` and `pop_back()`: the last key takes the place of the first one that is
-- equal.
unfoldable pub erase_rand : ℕ → List ℕ → List ℕ
erase_rand key [] = []
erase_rand key (k ∷ ks) = if key == k then swap_last ks else k ∷ erase_rand key ks
  where
    last_of : ℕ → List ℕ → ℕ
    last_of k [] = k
    last_of k (j ∷ ks) = last_of j ks

    but_last : ℕ → List ℕ → List ℕ
    but_last k [] = []
    but_last k (j ∷ ks) = k ∷ but_last j ks

    swap_last : List ℕ → List ℕ
    swap_last [] = []
    swap_last (k ∷ ks) = last_of k ks ∷ but_last k ks

-- MakeMapKey: of the group, or of 16 zeros and the 16 bytes of the address behind them.
unfoldable pub make_map_key : (List ℕ → Hash256) → Hash256 → NetAddr → Bool → ℕ
make_map_key sha256 key addr by_group =
    let bytes = if by_group then get_group addr else replicate 16 0 ++ addr.ip in
    from_little_endian 8 (take 8 (sha256 (key ++ serialize_bytes bytes)))
