-- ===== src/Peers/Keep.antt =====
-- Each operation of the address book keeps the invariant, and none reads a peer that is not there.
use native.Mathlib.Nat.{mod-lt}
use btcdemo.Prelude.{
  ℕ, zero, suc, ◌+◌, ◌*◌, ℕ_discrete, ◌%◌, ◌<◌, ◌≡◌, ◌≢◌, ◌↔◌, ◌⊎◌, inl, inr, refl, Bool, true,
  false, not, ◌&&◌, List, [], ◌∷◌, length, Option, none, some, get_elem?, Option-cases, Bool-cases,
  ◌==◌, if◌then◌else◌, arith, ltb,
}
use btcdemo.Prelude.Hash.{Hash256}
use btcdemo.NetAddr.{NetAddr, addr_eq}
use btcdemo.NetAddr.Category.{is_routable}
use btcdemo.Peers.{Peer, Peers}
use btcdemo.Peers.Table.{find, find-change, find-get_elem?, Unique}
use btcdemo.Peers.Book.{
  Found, find_peer, change_peer, update_known, add_unknown, map_key_of, group_key_of, add, exact,
  make_tried, set_peer_services, attempt, update_time, peer_at, select,
}
use btcdemo.Peers.Listed.{Has, Entry, Listed, change_peer-Listed, move_to_tried-Listed}
use btcdemo.Peers.Change.{found_of, update_known-Listed, Kept, add_unknown-Listed}

find_peer-none : (k g : ℕ) (p : Peers) → find k p.map_peers ≡ none → find_peer k g p ≡ none
unfolding find_peer
find_peer-none k g p e = rw (find_peer, e) refl

find_peer-some :
    (k g : ℕ) (p : Peers) (peer : Peer)
    → find k p.map_peers ≡ some peer
    → find_peer k g p ≡ some (found_of peer k g p)
unfolding find_peer
find_peer-some k g p peer e = rw (find_peer, e) refl

module _ (sha256 : List ℕ → Hash256) (key : Hash256) where
  -- The key of the address is in no other group than the address is.
  abbrev pub Apart : NetAddr → Peers → Type 0
  Apart addr p = (i : ℕ) → Entry p i (map_key_of sha256 key addr) → i ≡ group_key_of sha256 key addr

  -- Add never reads a peer that is not there, and keeps the invariant, if the key of the address
  -- stands in no table under another group, which would take two addresses of one key.
  pub add-Listed :
      (now : ℕ) (addr source : NetAddr) (time_penalty : ℕ) (p : Peers)
      → Listed p
      → Apart addr p
      → (r : Bool × Peers) × (add sha256 key now addr source time_penalty p ≡ some r) × Listed r.1
  unfolding add Kept
  add-Listed now addr source time_penalty p h only =
      let k = map_key_of sha256 key addr in
      let g = group_key_of sha256 key addr in
      elim (Bool-cases (not (is_routable addr))) [
        | inl e ↦ ((false, p), rw (add, e) refl, h)
        | inr e ↦ elim (Option-cases (find k p.map_peers)) [
          | inl fresh ↦
              let (same, q, kept) = add_unknown-Listed now addr source k g p h fresh in
              (
                (true, add_unknown now addr source k g same p),
                rw (add, e, find_peer-none k g p fresh, q) refl,
                kept,
              )
          | inr (peer, there) ↦ (
            (
              false,
              update_known now addr (if addr_eq addr source then 0 else time_penalty) k g
                  (found_of peer k g p) p,
            ),
            rw (add, e, find_peer-some k g p peer there) refl,
            update_known-Listed now addr _ k g peer p h only,
          )
        ]
      ]

  exact_there :
      (addr : NetAddr) (p : Peers) (found : Found)
      → exact sha256 key addr p ≡ some found
      → Has p.map_peers (map_key_of sha256 key addr)
  unfolding exact
  exact_there addr p found e =
      let k = map_key_of sha256 key addr in
      elim (Option-cases (find k p.map_peers)) [
        | inr (peer, q) ↦ (peer, q)
        | inl n ↦ absurd (
            let z = find_peer-none k (group_key_of sha256 key addr) p n in
            let e' = rw (exact, z) at e in cc)
      ]

  -- MakeTried keeps the invariant.
  pub make_tried-Listed :
      (addr : NetAddr) (time : ℕ) (p : Peers)
      → Listed p
      → Apart addr p
      → Listed (make_tried sha256 key addr time p).1
  unfolding make_tried
  make_tried-Listed addr time p h only = elim (Option-cases (exact sha256 key addr p)) [
    | inl n ↦ rw (make_tried, n) h
    | inr (found, e) ↦ elim (Bool-cases found.is_tried) [
      | inl t ↦ rw (make_tried, e, t) (change_peer-Listed _ _ p h)
      | inr t ↦
          let (v, q) = exact_there addr p found e in
          rw (make_tried, e, t)
            (unfold change_peer in
              move_to_tried-Listed (group_key_of sha256 key addr) (map_key_of sha256 key addr)
                (change_peer (map_key_of sha256 key addr) _ p) (change_peer-Listed _ _ p h)
                (find-change _ _ _ p.map_peers v q) only)
    ]
  ]

  -- So do Attempt, UpdateTime and SetServices.
  pub setters-Listed :
      (addr : NetAddr) (time services : ℕ) (p : Peers)
      → Listed p
      → Listed (attempt sha256 key addr time p).1
        × Listed (update_time sha256 key addr time p).1
        × Listed (set_peer_services sha256 key addr services p).1
  unfolding attempt update_time set_peer_services
  setters-Listed addr time services p h = elim (Option-cases (exact sha256 key addr p)) [
    | inl n ↦ (rw (attempt, n) h, rw (update_time, n) h, rw (set_peer_services, n) h)
    | inr (found, e) ↦ (
      rw (attempt, e) (change_peer-Listed _ _ p h),
      rw (update_time, e) (maybe (ltb (found.peer.addr.timestamp + 20 * 60) time) _ _ p h),
      rw (set_peer_services, e) (change_peer-Listed _ _ p h),
    )
  ]
    where
      maybe :
          (b : Bool) (k : ℕ) (f : Peer → Peer) (p : Peers)
          → Listed p
          → Listed (if b then change_peer k f p else p)
      maybe true k f p h = change_peer-Listed k f p h
      maybe false k f p h = h

position :
    {V : Type 0} (t : List V) (i : ℕ)
    → length t ≢ 0
    → (v : V) × (get_elem? t (i % length t) ≡ some v)
position t i h = at_below t (i % length t) (omega (arith, mod-lt i {m = length t} (omega arith)))
  where
    at_below : {V : Type 0} (t : List V) (j : ℕ) → j < length t → (v : V) × (get_elem? t j ≡ some v)
    at_below [] j h = absurd (omega (arith, h))
    at_below (v ∷ t) zero h = (v, refl)
    at_below (v ∷ t) (suc j) h = at_below t j (omega (arith, h))

peer_at_there :
    (t : List (ℕ × ℕ)) (random : ℕ) (p : Peers)
    → Unique t
    → length t ≢ 0
    → ((g k : ℕ) → find g t ≡ some k → Has p.map_peers k)
    → (peer : Peer) × (peer_at t (random % length t) p ≡ some peer)
unfolding peer_at
peer_at_there t random p u nonempty has =
    let ((g, k), e) = position t random nonempty in
    let (peer, q) = has g k (find-get_elem? t (random % length t) g k u e) in
    (peer, rw (peer_at, e, q) refl)

-- Select reads a peer that is there, whatever the random numbers, and returns false exactly if both
-- tables are empty, or the new one is and only new peers are asked for.
pub select_lem :
    (coin : Bool) (random : ℕ) (new_only : Bool) (p : Peers)
    → Listed p
    → (r : Option Peer) × (select coin random new_only p ≡ some r)
      × ((r ≡ none) ↔ ((length p.new_tbl ≡ 0) × ((length p.tried_tbl ≡ 0) ⊎ (new_only ≡ true))))
unfolding select
select_lem coin random new_only p h = elim (ℕ_discrete (length p.new_tbl) 0) [
  | yes n ↦ elim (ℕ_discrete (length p.tried_tbl) 0) [
    | yes t ↦ (none, rw (select, n, t) refl, ((λ _. (n, inl t)), (λ _. refl)))
    | no t ↦ elim (Bool-cases new_only) [
      | inl o ↦ (none, rw (select, n, is_zero-false _ t, o) refl, ((λ _. (n, inr o)), (λ _. refl)))
      | inr o ↦
          let (peer, q) = tried_there t in
          (
            some peer,
            rw (select, n, is_zero-false _ t, o, q) refl,
            ((λ z. cc), (λ (a, b). elim b [ inl c ↦ absurd (t c) | inr c ↦ cc ])),
          )
    ]
  ]
  | no n ↦ elim (Bool-cases (not new_only && (not (length p.tried_tbl == 0) && coin))) [
    | inl o ↦
        let (peer, q) = tried_there (nonzero_of o) in
        (
          some peer,
          rw (select, is_zero-false _ n, and-false new_only, o, q) refl,
          ((λ z. cc), (λ (a, b). absurd (n a))),
        )
    | inr o ↦
        let (peer, q) = new_there n in
        (
          some peer,
          rw (select, is_zero-false _ n, and-false new_only, o, q) refl,
          ((λ z. cc), (λ (a, b). absurd (n a))),
        )
  ]
]
  where
    and-false : (b : Bool) → (b && false) ≡ false
    and-false true = refl
    and-false false = refl

    is_zero-false : (m : ℕ) → m ≢ 0 → (m == 0) ≡ false
    is_zero-false m z = ground arith

    tried_there :
        length p.tried_tbl ≢ 0
        → (peer : Peer) × (peer_at p.tried_tbl (random % length p.tried_tbl) p ≡ some peer)
    tried_there t =
        peer_at_there p.tried_tbl random p h.unique_tried t (λ g k e. h.peers g k (inr e))

    new_there :
        length p.new_tbl ≢ 0
        → (peer : Peer) × (peer_at p.new_tbl (random % length p.new_tbl) p ≡ some peer)
    new_there t = peer_at_there p.new_tbl random p h.unique_new t (λ g k e. h.peers g k (inl e))

    nonzero_of :
        (not new_only && (not (length p.tried_tbl == 0) && coin)) ≡ true → length p.tried_tbl ≢ 0
    nonzero_of o z = go new_only (rw z at o)
      where
        go : (b : Bool) → ¬ ((not b && false) ≡ true)
        go true e = cc
        go false e = cc
