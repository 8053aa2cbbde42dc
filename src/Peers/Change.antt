-- ===== src/Peers/Change.antt =====
-- Every operation of the address book keeps its invariant, and none dereferences a missing peer.
use btcdemo.Prelude.{
  ℕ, ◌≡◌, ◌↔◌, inl, inr, refl, ap, ◌∙◌, subst, Bool, true, false, not, ◌&&◌, ◌||◌, List, Option,
  none, some, Option-cases, Bool-cases, ◌==◌, ==_iff, leb, if◌then◌else◌, ℕ_discrete,
}
use btcdemo.NetAddr.{NetAddr}
use btcdemo.Peers.{Peer, Peers, is_terrible_peer}
use btcdemo.Peers.Table.{find, insert, erase, find-insert_new, find-erase_self, find-erase_ne}
use btcdemo.Peers.Book.{
  Found, Same, is_entry, find_same_group, same_of, erase_new, erase_tried, erase_peer, change_peer,
  insert_new_peer, update_known, add_unknown,
}
use btcdemo.Peers.Listed.{
  Has, Entry, Listed, change_peer-Listed, insert_new_peer-Listed, erase_peer-Listed,
  remove_new-Listed, remove_tried-Listed, insert_new-Listed,
}

is_entry_iff : (o : Option ℕ) (k : ℕ) → (is_entry o k ≡ true) ↔ (o ≡ some k)
unfolding is_entry
is_entry_iff none k = ((λ e. cc), (λ e. cc))
is_entry_iff (some j) k = (
  (λ e. ap some ((==_iff j k).0 e)),
  (λ e. (==_iff j k).1 (ap (λ o. elim o [ none ↦ j | some x ↦ x ]) e)),
)

-- What Find says of a key, when no other group has it.
known_removed :
    (k g : ℕ) (p : Peers) (peer : Peer)
    → Listed p
    → ((i : ℕ) → Entry p i k → i ≡ g)
    → Listed (
        erase_peer k (
          if is_entry (find g p.new_tbl) k
          then erase_new g p
          else if is_entry (find g p.tried_tbl) k
          then erase_tried g p
          else p))
known_removed k g p peer h only = elim (Bool-cases (is_entry (find g p.new_tbl) k)) [
  | inl e ↦ rw e (remove_new-Listed g k p h ((is_entry_iff (find g p.new_tbl) k).0 e))
  | inr e ↦ elim (Bool-cases (is_entry (find g p.tried_tbl) k)) [
    | inl f ↦ rw (e, f) (remove_tried-Listed g k p h ((is_entry_iff (find g p.tried_tbl) k).0 f))
    | inr f ↦ rw (e, f) (erase_peer-Listed k p h (λ i z. nowhere e f i z))
  ]
]
  where
    nowhere :
        is_entry (find g p.new_tbl) k ≡ false
        → is_entry (find g p.tried_tbl) k ≡ false
        → (i : ℕ) → ¬ Entry p i k
    nowhere e f i z =
        let z' = subst (λ (j : ℕ). Entry p j k) (only i z) z in
        elim z' [
          | inl a ↦ let w = (is_entry_iff (find g p.new_tbl) k).1 a in cc
          | inr a ↦ let w = (is_entry_iff (find g p.tried_tbl) k).1 a in cc
        ]

same_of_listed :
    (tried : Bool) (j : ℕ) (p : Peers)
    → Has p.map_peers j
    → (peer : Peer) × (same_of tried j p
        ≡ some (some (record { peer = peer; is_tried = tried; key = j })))
unfolding same_of
same_of_listed tried j p (peer, e) = (peer, rw (same_of, e) refl)

changed_twice :
    (b : Bool) (k : ℕ) (f f' : Peer → Peer) (p : Peers)
    → Listed p
    → Listed (change_peer k f (if b then change_peer k f' p else p))
changed_twice true k f f' p h =
    change_peer-Listed k f (change_peer k f' p) (change_peer-Listed k f' p h)
changed_twice false k f f' p h = change_peer-Listed k f p h

abbrev pub found_of : Peer → ℕ → ℕ → Peers → Found
found_of peer k g p = record {
  peer = peer;
  is_new = is_entry (find g p.new_tbl) k;
  is_tried = is_entry (find g p.tried_tbl) k;
}

pub update_known-Listed :
    (now : ℕ) (addr : NetAddr) (penalty k g : ℕ) (peer : Peer) (p : Peers)
    → Listed p
    → ((i : ℕ) → Entry p i k → i ≡ g)
    → Listed (update_known now addr penalty k g (found_of peer k g p) p)
unfolding update_known
update_known-Listed now addr penalty k g peer p h only =
    elim (Bool-cases (is_terrible_peer now peer)) [
      | inl e ↦ rw (update_known, e) (known_removed k g p peer h only)
      | inr e ↦
          elim (Bool-cases (
            (addr.timestamp == 0)
            || (not (peer.addr.timestamp == 0) && leb addr.timestamp peer.addr.timestamp))) [
              | inl f ↦ rw (update_known, e, f) h
              | inr f ↦ rw (update_known, e, f) (changed_twice _ k _ _ p h)
            ]
    ]

find_erased :
    {V : Type 0} (j k : ℕ) (t : List (ℕ × V)) → find k t ≡ none → find k (erase j t) ≡ none
find_erased j k t h = elim (ℕ_discrete j k) [
  | yes e ↦ subst (λ (i : ℕ). find i (erase j t) ≡ none) e (find-erase_self j t)
  | no e ↦ find-erase_ne j k t e ∙ h
]

-- A new peer with the entry of its group.
grown :
    (addr source : NetAddr) (k g : ℕ) (p : Peers)
    → Listed p
    → find k p.map_peers ≡ none
    → find g p.tried_tbl ≡ none
    → let p1 = insert_new_peer addr source k p in
      Listed (record p1 { new_tbl = insert g k p1.new_tbl })
unfolding insert_new_peer
grown addr source k g p h fresh free =
    let p1 = insert_new_peer addr source k p in
    insert_new-Listed g k p1 (insert_new_peer-Listed addr source k p h)
      (_, find-insert_new k _ p.map_peers fresh) (λ i e. absurd (let (v, q) = h.peers i k e in cc))
      free

unfoldable pub Kept : ℕ → NetAddr → NetAddr → ℕ → ℕ → Peers → Type 0
unfolding find_same_group add_unknown
Kept now addr source k g p =
    (same : Option Same) × (find_same_group g p ≡ some same)
    × Listed (add_unknown now addr source k g same p)

add_unknown-new :
    (now : ℕ) (addr source : NetAddr) (k g j : ℕ) (p : Peers)
    → Listed p
    → find k p.map_peers ≡ none
    → find g p.new_tbl ≡ some j
    → Kept now addr source k g p
unfolding Kept find_same_group add_unknown erase_peer erase_new
add_unknown-new now addr source k g j p h fresh e =
    let (peer, q) = same_of_listed false j p (h.peers g j (inl e)) in
    (
      some (record { peer = peer; is_tried = false; key = j }),
      rw (find_same_group, e) q,
      elim (Bool-cases (is_terrible_peer now peer)) [
        | inl t ↦
            rw (add_unknown, t)
              (grown addr source k g (erase_peer j (erase_new g p)) (remove_new-Listed g j p h e)
                (find_erased j k p.map_peers fresh) (h.apart g j e))
        | inr t ↦ rw (add_unknown, t) (insert_new_peer-Listed addr source k p h)
      ],
    )

add_unknown-tried :
    (now : ℕ) (addr source : NetAddr) (k g j : ℕ) (p : Peers)
    → Listed p
    → find k p.map_peers ≡ none
    → find g p.new_tbl ≡ none
    → find g p.tried_tbl ≡ some j
    → Kept now addr source k g p
unfolding Kept find_same_group add_unknown erase_peer erase_tried
add_unknown-tried now addr source k g j p h fresh n e =
    let (peer, q) = same_of_listed true j p (h.peers g j (inr e)) in
    (
      some (record { peer = peer; is_tried = true; key = j }),
      rw (find_same_group, n, e) q,
      elim (Bool-cases (is_terrible_peer now peer)) [
        | inl t ↦
            rw (add_unknown, t)
              (grown addr source k g (erase_peer j (erase_tried g p))
                (remove_tried-Listed g j p h e) (find_erased j k p.map_peers fresh)
                (find-erase_self g p.tried_tbl))
        | inr t ↦ rw (add_unknown, t) (insert_new_peer-Listed addr source k p h)
      ],
    )

pub add_unknown-Listed :
    (now : ℕ) (addr source : NetAddr) (k g : ℕ) (p : Peers)
    → Listed p
    → find k p.map_peers ≡ none
    → Kept now addr source k g p
unfolding Kept find_same_group add_unknown
add_unknown-Listed now addr source k g p h fresh = elim (Option-cases (find g p.new_tbl)) [
  | inr (j, e) ↦ add_unknown-new now addr source k g j p h fresh e
  | inl n ↦ elim (Option-cases (find g p.tried_tbl)) [
    | inr (j, e) ↦ add_unknown-tried now addr source k g j p h fresh n e
    | inl m ↦ (none, rw (find_same_group, n, m) refl, grown addr source k g p h fresh m)
  ]
]
