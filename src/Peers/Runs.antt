-- ===== src/Peers/Runs.antt =====
-- A book with one peer.
use btcdemo.Prelude.{
  ℕ, ◌≡◌, ◌↔◌, ◌⊎◌, inl, inr, refl, Bool, true, false, List, [], ◌∷◌, length, Option, none, some,
}
use btcdemo.Prelude.Hash.{Hash256, null_hash}
use btcdemo.NetAddr.{NetAddr}
use btcdemo.Peers.{Peer, Peers, new, make_map_key}
use btcdemo.Peers.Table.{insert, find}
use btcdemo.Peers.Book.{insert_new_peer, add, make_tried, select}
use btcdemo.Peers.Listed.{Listed, new-Listed, insert_new_peer-Listed, insert_new-Listed}
use btcdemo.Peers.Keep.{Apart, add-Listed, make_tried-Listed, select_lem}
use btcdemo.Endian.{from_little_endian}

abbrev dns : NetAddr
dns = record {
  ip = 0 ∷ 0 ∷ 0 ∷ 0 ∷ 0 ∷ 0 ∷ 0 ∷ 0 ∷ 0 ∷ 0 ∷ 0xff ∷ 0xff ∷ 8 ∷ 8 ∷ 4 ∷ 4 ∷ [];
  port = 8333;
  scope_id = 0;
  services = 1;
  timestamp = 1231006505;
}

abbrev friend : NetAddr
friend = record {
  ip = 0 ∷ 0 ∷ 0 ∷ 0 ∷ 0 ∷ 0 ∷ 0 ∷ 0 ∷ 0 ∷ 0 ∷ 0xff ∷ 0xff ∷ 9 ∷ 9 ∷ 9 ∷ 9 ∷ [];
  port = 8333;
  scope_id = 0;
  services = 0;
  timestamp = 0;
}

-- In place of SHA-256, a function that gives the key 0.
abbrev hash : List ℕ → Hash256
hash bytes = null_hash

abbrev one : Peers
one = record (insert_new_peer friend friend 7 new) {
  new_tbl = insert 3 7 (insert_new_peer friend friend 7 new).new_tbl;
}

one-Listed : Listed one
unfolding insert_new_peer new insert find
one-Listed =
    insert_new-Listed 3 7 (insert_new_peer friend friend 7 new)
      (insert_new_peer-Listed friend friend 7 new new-Listed) (_, refl)
      (λ i e. elim e [ inl f ↦ cc | inr f ↦ cc ]) refl

one-Apart : Apart hash null_hash dns one
unfolding insert_new_peer new insert find make_map_key from_little_endian
one-Apart i e = absurd (let (v, q) = one-Listed.peers i 0 e in cc)

add-Listed_example :
    (r : Bool × Peers) × (add hash null_hash 1231006505 dns friend 0 one ≡ some r) × Listed r.1
add-Listed_example = add-Listed hash null_hash 1231006505 dns friend 0 one one-Listed one-Apart

make_tried-Listed_example : Listed (make_tried hash null_hash dns 1231006505 one).1
make_tried-Listed_example = make_tried-Listed hash null_hash dns 1231006505 one one-Listed one-Apart

select_lem_example :
    (r : Option Peer) × (select true 5 false one ≡ some r)
    × ((r ≡ none) ↔ ((length one.new_tbl ≡ 0) × ((length one.tried_tbl ≡ 0) ⊎ (false ≡ true))))
select_lem_example = select_lem true 5 false one one-Listed
