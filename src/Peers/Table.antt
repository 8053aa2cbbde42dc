-- ===== src/Peers/Table.antt =====
-- The protobuf maps of the address book: looking up, inserting, erasing and changing an entry.
use btcdemo.Prelude.{
  ℕ, zero, suc, subst, get_elem?, ◌≡◌, ◌≢◌, ◌⊎◌, refl, sym, ap, ◌∙◌, true, false, [], ◌∷◌, Option,
  none, some, ◌==◌, ==_iff, if◌then◌else◌, inl, inr, ℕ_discrete, Option-cases, arith,
}
use btcdemo.Peers.{Table}

module _ {ℓ} {V : Type ℓ} where
  unfoldable pub find : ℕ → Table V → Option V
  find k [] = none
  find k ((j, v) ∷ t) = let rest = find k t in if k == j then some v else rest

  -- `insert` of a protobuf map keeps the entry that is there.
  unfoldable pub insert : ℕ → V → Table V → Table V
  unfolding find
  insert k v t = elim (find k t) [ some old ↦ t | none ↦ (k, v) ∷ t ]

  unfoldable pub erase : ℕ → Table V → Table V
  erase k [] = []
  erase k ((j, v) ∷ t) = let rest = erase k t in if k == j then rest else (j, v) ∷ rest

  -- A setter on `find(key)->second`.
  unfoldable pub change : ℕ → (V → V) → Table V → Table V
  change k f [] = []
  change k f ((j, v) ∷ t) =
      let rest = change k f t in if k == j then (j, f v) ∷ t else (j, v) ∷ rest

same : (k : ℕ) → (k == k) ≡ true
same k = (==_iff k k).1 refl

other : (k j : ℕ) → k ≢ j → (k == j) ≡ false
other k j h = ground arith

module _ {ℓ} {V : Type ℓ} where
  pub find-erase_self : (k : ℕ) (t : Table V) → find k (erase k t) ≡ none
  unfolding find erase
  find-erase_self k [] = refl
  find-erase_self k ((j, v) ∷ t) = elim (ℕ_discrete k j) [
    | yes e ↦ rw ((==_iff k j).1 e) (find-erase_self k t)
    | no e ↦ rw (other k j e, other k j e) (find-erase_self k t)
  ]

  pub find-erase_ne : (k i : ℕ) (t : Table V) → k ≢ i → find i (erase k t) ≡ find i t
  unfolding find erase
  find-erase_ne k i [] h = refl
  find-erase_ne k i ((j, v) ∷ t) h = elim (ℕ_discrete k j) [
    | yes e ↦ rw ((==_iff k j).1 e, other i j (λ z. h (e ∙ sym z))) (find-erase_ne k i t h)
    | no e ↦ rw (other k j e) (ap (λ o. if i == j then some v else o) (find-erase_ne k i t h))
  ]

  -- What is found after an erasure was there before, under another key.
  pub find-erase-some :
      (k i : ℕ) (t : Table V) (v : V) → find i (erase k t) ≡ some v → (k ≢ i) × (find i t ≡ some v)
  find-erase-some k i t v h = elim (ℕ_discrete k i) [
    | yes e ↦ absurd (let w = find-erase_self k t in let h' = rw (sym e) at h in cc)
    | no e ↦ (e, sym (find-erase_ne k i t e) ∙ h)
  ]

  pub find-insert_new :
      (k : ℕ) (v : V) (t : Table V) → find k t ≡ none → find k (insert k v t) ≡ some v
  unfolding find insert
  find-insert_new k v t h = rw (insert, h, same k) refl

  pub find-insert_ne : (k i : ℕ) (v : V) (t : Table V) → k ≢ i → find i (insert k v t) ≡ find i t
  unfolding find insert
  find-insert_ne k i v t h = elim (Option-cases (find k t)) [
    | inl e ↦ rw (insert, e, other i k (λ z. h (sym z))) refl
    | inr (w, e) ↦ rw (insert, e) refl
  ]

  -- What is found after an insertion was there before, or is the new entry.
  pub find-insert-some :
      (k i : ℕ) (v w : V) (t : Table V)
      → find i (insert k v t) ≡ some w
      → (find i t ≡ some w) ⊎ ((k ≡ i) × (find k t ≡ none) × (v ≡ w))
  unfolding insert
  find-insert-some k i v w t h = elim (Option-cases (find k t)) [
    | inr (u, e) ↦ inl (rw (insert, e) at h)
    | inl e ↦ elim (ℕ_discrete k i) [
      | no z ↦ inl (sym (find-insert_ne k i v t z) ∙ h)
      | yes z ↦ inr (z, e, some-inj (sym (find-insert_new k v t e) ∙ rw (sym z) at h))
    ]
  ]
    where
      some-inj : {a b : V} → some a ≡ some b → a ≡ b
      some-inj {a} e = ap (λ o. elim o [ none ↦ a | some x ↦ x ]) e

  -- A change keeps every key.
  pub find-change :
      (k i : ℕ) (f : V → V) (t : Table V) (v : V)
      → find i t ≡ some v
      → (w : V) × (find i (change k f t) ≡ some w)
  unfolding find change
  find-change k i f [] v h = cc
  find-change k i f ((j, u) ∷ t) v h = elim (ℕ_discrete k j) [
    | yes e ↦ elim (ℕ_discrete i j) [
      | yes z ↦ (f u, rw ((==_iff k j).1 e, (==_iff i j).1 z) refl)
      | no z ↦ (v, rw ((==_iff k j).1 e, other i j z) (rw (other i j z) at h))
    ]
    | no e ↦ elim (ℕ_discrete i j) [
      | yes z ↦ (u, rw (other k j e, (==_iff i j).1 z) refl)
      | no z ↦
          let (w, q) = find-change k i f t v (rw (other i j z) at h) in
          (w, rw (other k j e, other i j z) q)
    ]
  ]

  insert_present :
      (k i : ℕ) (v w : V) (t : Table V) → k ≡ i → find i t ≡ some w → find i (insert k v t) ≡ some w
  unfolding insert
  insert_present k i v w t z h = let h' = rw (sym z) at h in rw (sym z, insert, h') h'

  -- An entry that is there stays under an insertion.
  pub find-insert_keep :
      (k i : ℕ) (v w : V) (t : Table V) → find i t ≡ some w → find i (insert k v t) ≡ some w
  find-insert_keep k i v w t h = elim (ℕ_discrete k i) [
    | no z ↦ find-insert_ne k i v t z ∙ h
    | yes z ↦ insert_present k i v w t z h
  ]

  -- No key stands twice.
  abbrev pub Unique : Table V → Type ℓ
  Unique [] = Unit
  Unique ((j, v) ∷ t) = (find j t ≡ none) × Unique t

  pub insert-Unique : (k : ℕ) (v : V) (t : Table V) → Unique t → Unique (insert k v t)
  unfolding insert
  insert-Unique k v t h = elim (Option-cases (find k t)) [
    | inl e ↦ rw (insert, e) (e, h)
    | inr (w, e) ↦ rw (insert, e) h
  ]

  find-erase-none : (k i : ℕ) (t : Table V) → find i t ≡ none → find i (erase k t) ≡ none
  find-erase-none k i t h = elim (ℕ_discrete k i) [
    | yes e ↦ subst (λ (j : ℕ). find j (erase k t) ≡ none) e (find-erase_self k t)
    | no e ↦ find-erase_ne k i t e ∙ h
  ]

  pub erase-Unique : (k : ℕ) (t : Table V) → Unique t → Unique (erase k t)
  unfolding erase
  erase-Unique k [] h = tt
  erase-Unique k ((j, v) ∷ t) (absent, h) = elim (ℕ_discrete k j) [
    | yes e ↦ rw ((==_iff k j).1 e) (erase-Unique k t h)
    | no e ↦ rw (other k j e) (find-erase-none k j t absent, erase-Unique k t h)
  ]

  -- The entry at a position is the one of its key.
  pub find-get_elem? :
      (t : Table V) (i k : ℕ) (v : V) → Unique t → get_elem? t i ≡ some (k, v) → find k t ≡ some v
  unfolding find
  find-get_elem? [] i k v u h = cc
  find-get_elem? ((j, w) ∷ t) zero k v u h =
      let e = ap (λ o. elim o [ none ↦ k | some x ↦ x.0 ]) h in
      let f = ap (λ o. elim o [ none ↦ v | some x ↦ x.1 ]) h in
      rw ((==_iff k j).1 (sym e)) (ap some f)
  find-get_elem? ((j, w) ∷ t) (suc i) k v (absent, u) h = elim (ℕ_discrete k j) [
    | yes e ↦ absurd (let z = find-get_elem? t i k v u h in let z' = rw e at z in cc)
    | no e ↦ rw (other k j e) (find-get_elem? t i k v u h)
  ]
