-- ===== src/Peers/Listed.antt =====
-- The invariant of the address book, and that its elementary changes keep it.
use btcdemo.Prelude.{
  ℕ, ◌≡◌, ◌≢◌, ◌⊎◌, inl, inr, refl, sym, ◌∙◌, subst, Option, none, some, ℕ_discrete,
}
use btcdemo.NetAddr.{NetAddr}
use btcdemo.Peers.{Peer, Peers, Table, new, clear}
use btcdemo.Peers.Table.{
  find, insert, erase, find-erase_self, find-erase_ne, find-erase-some, find-insert_ne,
  find-insert-some, find-insert_keep, find-change, Unique, insert-Unique, erase-Unique,
}
use btcdemo.Peers.Book.{erase_new, erase_tried, erase_peer, change_peer, insert_new_peer}

abbrev pub Has {ℓ} : {V : Type ℓ} → Table V → ℕ → Type ℓ
Has {V} t k = (v : V) × (find k t ≡ some v)

-- The group `g` has the key `k` in one of the two tables.
abbrev pub Entry : Peers → ℕ → ℕ → Type 0
Entry p g k = (find g p.new_tbl ≡ some k) ⊎ (find g p.tried_tbl ≡ some k)

-- Every entry of the two tables has its peer; a group is in one table at most and a key in one
-- group at most; no table has a group twice.
pub record Listed (p : Peers) : Type 0 where
  pub peers : (g k : ℕ) → Entry p g k → Has p.map_peers k
  pub apart : (g k : ℕ) → find g p.new_tbl ≡ some k → find g p.tried_tbl ≡ none
  pub one_group : (g g' k : ℕ) → Entry p g k → Entry p g' k → g ≡ g'
  pub unique_new : Unique p.new_tbl
  pub unique_tried : Unique p.tried_tbl

pub new-Listed : Listed new
unfolding new find
new-Listed = record {
  peers = λ g k e. elim e [ inl h ↦ cc | inr h ↦ cc ];
  apart = λ g k h. refl;
  one_group = λ g g' k e f. elim e [ inl h ↦ cc | inr h ↦ cc ];
  unique_new = tt;
  unique_tried = tt;
}

pub clear-Listed : (p : Peers) → Listed (clear p)
unfolding clear find
clear-Listed p = record {
  peers = λ g k e. elim e [ inl h ↦ cc | inr h ↦ cc ];
  apart = λ g k h. refl;
  one_group = λ g g' k e f. elim e [ inl h ↦ cc | inr h ↦ cc ];
  unique_new = tt;
  unique_tried = tt;
}

pub change_peer-Listed :
    (k : ℕ) (f : Peer → Peer) (p : Peers) → Listed p → Listed (change_peer k f p)
unfolding change_peer
change_peer-Listed k f p h = record {
  peers = λ g j e. let (v, q) = h.peers g j e in find-change k j f p.map_peers v q;
  apart = h.apart;
  one_group = h.one_group;
  unique_new = h.unique_new;
  unique_tried = h.unique_tried;
}

pub insert_new_peer-Listed :
    (addr source : NetAddr) (k : ℕ) (p : Peers)
    → Listed p
    → Listed (insert_new_peer addr source k p)
unfolding insert_new_peer
insert_new_peer-Listed addr source k p h = record {
  peers = λ g j e. let (v, q) = h.peers g j e in (v, find-insert_keep k j _ v p.map_peers q);
  apart = h.apart;
  one_group = h.one_group;
  unique_new = h.unique_new;
  unique_tried = h.unique_tried;
}

new_before : (g i k : ℕ) (p : Peers) → Entry (erase_new g p) i k → Entry p i k
unfolding erase_new
new_before g i k p e = elim e [
  | inl h ↦ inl ((find-erase-some g i p.new_tbl k h).1)
  | inr h ↦ inr h
]

tried_before : (g i k : ℕ) (p : Peers) → Entry (erase_tried g p) i k → Entry p i k
unfolding erase_tried
tried_before g i k p e = elim e [
  | inl h ↦ inl h
  | inr h ↦ inr ((find-erase-some g i p.tried_tbl k h).1)
]

pub erase_new-Listed : (g : ℕ) (p : Peers) → Listed p → Listed (erase_new g p)
unfolding erase_new
erase_new-Listed g p h = record {
  peers = λ i k e. h.peers i k (new_before g i k p e);
  apart = λ i k e. h.apart i k ((find-erase-some g i p.new_tbl k e).1);
  one_group = λ i j k e f. h.one_group i j k (new_before g i k p e) (new_before g j k p f);
  unique_new = erase-Unique g p.new_tbl h.unique_new;
  unique_tried = h.unique_tried;
}

pub erase_tried-Listed : (g : ℕ) (p : Peers) → Listed p → Listed (erase_tried g p)
unfolding erase_tried
erase_tried-Listed g p h = record {
  peers = λ i k e. h.peers i k (tried_before g i k p e);
  apart = λ i k e. none_erased i (h.apart i k e);
  one_group = λ i j k e f. h.one_group i j k (tried_before g i k p e) (tried_before g j k p f);
  unique_new = h.unique_new;
  unique_tried = erase-Unique g p.tried_tbl h.unique_tried;
}
  where
    none_erased : (i : ℕ) → find i p.tried_tbl ≡ none → find i (erase g p.tried_tbl) ≡ none
    none_erased i e = elim (ℕ_discrete g i) [
      | yes z ↦
          subst (λ (j : ℕ). find j (erase g p.tried_tbl) ≡ none) z (find-erase_self g p.tried_tbl)
      | no z ↦ find-erase_ne g i p.tried_tbl z ∙ e
    ]

-- A peer that no entry names can go.
pub erase_peer-Listed :
    (k : ℕ) (p : Peers) → Listed p → ((g : ℕ) → ¬ Entry p g k) → Listed (erase_peer k p)
unfolding erase_peer
erase_peer-Listed k p h free = record {
  peers = λ g j e.
      let (v, q) = h.peers g j e in
      (v, find-erase_ne k j p.map_peers (λ z. free g (subst (Entry p g) (sym z) e)) ∙ q);
  apart = h.apart;
  one_group = h.one_group;
  unique_new = h.unique_new;
  unique_tried = h.unique_tried;
}

some-none {ℓ} : {A : Type ℓ} {o : Option A} {a : A} → o ≡ some a → o ≢ none
some-none e f = cc

new_gone :
    (g k : ℕ) (p : Peers)
    → Listed p
    → find g p.new_tbl ≡ some k
    → (i : ℕ) → ¬ Entry (erase_new g p) i k
unfolding erase_new
new_gone g k p h e i f =
    let same : i ≡ g = h.one_group i g k (new_before g i k p f) (inl e) in
    go (subst (λ (j : ℕ). Entry (erase_new g p) j k) same f)
  where
    go : ¬ Entry (erase_new g p) g k
    go z = elim z [
      | inl a ↦ some-none a (find-erase_self g p.new_tbl)
      | inr a ↦ some-none a (h.apart g k e)
    ]

tried_gone :
    (g k : ℕ) (p : Peers)
    → Listed p
    → find g p.tried_tbl ≡ some k
    → (i : ℕ) → ¬ Entry (erase_tried g p) i k
unfolding erase_tried
tried_gone g k p h e i f =
    let same : i ≡ g = h.one_group i g k (tried_before g i k p f) (inr e) in
    go (subst (λ (j : ℕ). Entry (erase_tried g p) j k) same f)
  where
    go : ¬ Entry (erase_tried g p) g k
    go z = elim z [
      | inl a ↦ some-none e (h.apart g k a)
      | inr a ↦ some-none a (find-erase_self g p.tried_tbl)
    ]

-- The entry of a group and its peer go together.
pub remove_new-Listed :
    (g k : ℕ) (p : Peers)
    → Listed p
    → find g p.new_tbl ≡ some k
    → Listed (erase_peer k (erase_new g p))
remove_new-Listed g k p h e =
    erase_peer-Listed k (erase_new g p) (erase_new-Listed g p h) (new_gone g k p h e)

pub remove_tried-Listed :
    (g k : ℕ) (p : Peers)
    → Listed p
    → find g p.tried_tbl ≡ some k
    → Listed (erase_peer k (erase_tried g p))
remove_tried-Listed g k p h e =
    erase_peer-Listed k (erase_tried g p) (erase_tried-Listed g p h) (tried_gone g k p h e)

-- A key that has its peer, and no entry of another group, becomes the entry of a group that the
-- other table has not.
pub insert_new-Listed :
    (g k : ℕ) (p : Peers)
    → Listed p
    → Has p.map_peers k
    → ((i : ℕ) → Entry p i k → i ≡ g)
    → find g p.tried_tbl ≡ none
    → Listed (record p { new_tbl = insert g k p.new_tbl })
insert_new-Listed g k p h has only free = record {
  peers =
      λ i j e. elim (from e) [ inl f ↦ h.peers i j f | inr (z, w) ↦ subst (Has p.map_peers) w has ];
  apart = λ i j e. elim (find-insert-some g i k j p.new_tbl e) [
    | inl f ↦ h.apart i j f
    | inr (z, n, w) ↦ subst (λ (t : ℕ). find t p.tried_tbl ≡ none) z free
  ];
  one_group = λ i i' j e f. elim (from e) [
    | inl a ↦ elim (from f) [
      | inl b ↦ h.one_group i i' j a b
      | inr (z, w) ↦ only i (subst (Entry p i) (sym w) a) ∙ z
    ]
    | inr (z, w) ↦ elim (from f) [
      | inl b ↦ sym z ∙ sym (only i' (subst (Entry p i') (sym w) b))
      | inr (z', w') ↦ sym z ∙ z'
    ]
  ];
  unique_new = insert-Unique g k p.new_tbl h.unique_new;
  unique_tried = h.unique_tried;
}
  where
    from :
        {i j : ℕ}
        → Entry (record p { new_tbl = insert g k p.new_tbl }) i j
        → Entry p i j ⊎ ((g ≡ i) × (k ≡ j))
    from {i} {j} e = elim e [
      | inl a ↦ elim (find-insert-some g i k j p.new_tbl a) [
        | inl b ↦ inl (inl b)
        | inr (z, n, w) ↦ inr (z, w)
      ]
      | inr a ↦ inl (inr a)
    ]

-- The same for a group that leaves the new table for the tried one.
pub move_to_tried-Listed :
    (g k : ℕ) (p : Peers)
    → Listed p
    → Has p.map_peers k
    → ((i : ℕ) → Entry p i k → i ≡ g)
    → Listed (erase_new g (record p { tried_tbl = insert g k p.tried_tbl }))
unfolding erase_new
move_to_tried-Listed g k p h has only = record {
  peers =
      λ i j e. elim (from e) [ inl f ↦ h.peers i j f | inr (z, w) ↦ subst (Has p.map_peers) w has ];
  apart = λ i j e.
      let (differs, before) = find-erase-some g i p.new_tbl j e in
      find-insert_ne g i k p.tried_tbl differs ∙ h.apart i j before;
  one_group = λ i i' j e f. elim (from e) [
    | inl a ↦ elim (from f) [
      | inl b ↦ h.one_group i i' j a b
      | inr (z, w) ↦ only i (subst (Entry p i) (sym w) a) ∙ z
    ]
    | inr (z, w) ↦ elim (from f) [
      | inl b ↦ sym z ∙ sym (only i' (subst (Entry p i') (sym w) b))
      | inr (z', w') ↦ sym z ∙ z'
    ]
  ];
  unique_new = erase-Unique g p.new_tbl h.unique_new;
  unique_tried = insert-Unique g k p.tried_tbl h.unique_tried;
}
  where
    from :
        {i j : ℕ}
        → Entry (erase_new g (record p { tried_tbl = insert g k p.tried_tbl })) i j
        → Entry p i j ⊎ ((g ≡ i) × (k ≡ j))
    from {i} {j} e = elim e [
      | inl a ↦ inl (inl ((find-erase-some g i p.new_tbl j a).1))
      | inr a ↦ elim (find-insert-some g i k j p.tried_tbl a) [
        | inl b ↦ inl (inr b)
        | inr (z, n, w) ↦ inr (z, w)
      ]
    ]
