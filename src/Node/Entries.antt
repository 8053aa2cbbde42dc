-- ===== src/Node/Entries.antt =====
-- The ids of a table of nodes, class Nodes, under its operations.
use btcdemo.Prelude.{
  ℕ, ◌+◌, ◌≡◌, ◌≢◌, refl, sym, ap, subst, true, false, List, [], ◌∷◌, none, some, length,
  length-append, ◌==◌, Bool-cases, ==_iff, inl, inr, arith,
}
use btcdemo.Prelude.Bytes.{All, All-append}
use btcdemo.Node.{Node}
use btcdemo.Node.Table.{first_node, get_node, add_node, erase_node, put_node}

abbrev pub OtherId : ℕ → Node → Type 0
OtherId id n = n.id ≢ id

-- No id stands twice.
abbrev pub Distinct : List Node → Type 0
Distinct [] = Unit {0}
Distinct (n ∷ ns) = All (OtherId n.id) ns × Distinct ns

pub get_node-OtherId : (id : ℕ) (ns : List Node) → All (OtherId id) ns → get_node id ns ≡ none
unfolding get_node first_node
get_node-OtherId id [] h = refl
get_node-OtherId id (n ∷ ns) (other, h) = ground (arith, other, get_node-OtherId id ns h)

-- What is erased is not found any more, and every other id is found as before.
pub get_node-erase_node :
    (id : ℕ) (ns : List Node)
    → Distinct ns
    → (get_node id (erase_node id ns) ≡ none)
      × ((other : ℕ) → other ≢ id → get_node other (erase_node id ns) ≡ get_node other ns)
unfolding get_node first_node erase_node
get_node-erase_node id [] h = (refl, λ other ne. refl)
get_node-erase_node id (n ∷ ns) (fresh, h) =
    let (out, same) = get_node-erase_node id ns h in
    elim (Bool-cases (n.id == id)) [
      | inl e ↦ rw e (get_node-OtherId id ns (rw (eq_of e) at fresh), λ other ne. ground (arith, e))
      | inr e ↦ rw (e, first_node, e) (out, λ other ne. ground (arith, same other ne))
    ]
  where
    eq_of : (n.id == id) ≡ true → n.id ≡ id
    eq_of e = ground (arith, e)

pub All-erase_node :
    (P : Node → Type 0) (id : ℕ) (ns : List Node) → All P ns → All P (erase_node id ns)
unfolding erase_node
All-erase_node P id [] h = h
All-erase_node P id (n ∷ ns) (p, h) = elim (Bool-cases (n.id == id)) [
  | inl e ↦ rw e h
  | inr e ↦ rw e (p, All-erase_node P id ns h)
]

pub Distinct-erase_node : (id : ℕ) (ns : List Node) → Distinct ns → Distinct (erase_node id ns)
unfolding erase_node
Distinct-erase_node id [] h = h
Distinct-erase_node id (n ∷ ns) (fresh, h) = elim (Bool-cases (n.id == id)) [
  | inl e ↦ rw e h
  | inr e ↦ rw e (All-erase_node (OtherId n.id) id ns fresh, Distinct-erase_node id ns h)
]

-- After the only node of an id is erased, no node has it.
pub erase_node-OtherId :
    (id : ℕ) (ns : List Node) → Distinct ns → All (OtherId id) (erase_node id ns)
unfolding erase_node
erase_node-OtherId id [] h = tt
erase_node-OtherId id (n ∷ ns) (fresh, h) = elim (Bool-cases (n.id == id)) [
  | inl e ↦ rw e (rw (eq_of e) at fresh)
  | inr e ↦ rw e ((λ k. ne_of e k), erase_node-OtherId id ns h)
]
  where
    eq_of : (n.id == id) ≡ true → n.id ≡ id
    eq_of e = ground (arith, e)

    ne_of : (n.id == id) ≡ false → n.id ≢ id
    ne_of e k = ground (arith, e, k)

-- A predicate of all nodes, kept where the new node has it.
pub All-put_node :
    (P : Node → Type 0) (n : Node) (ns : List Node) → P n → All P ns → All P (put_node n ns)
unfolding put_node
All-put_node P n [] p h = h
All-put_node P n (m ∷ ms) p (q, h) = elim (Bool-cases (m.id == n.id)) [
  | inl e ↦ rw e (p, All-put_node P n ms p h)
  | inr e ↦ rw e (q, All-put_node P n ms p h)
]

-- Ids stand as they stood.
pub put_node-OtherId :
    (id : ℕ) (n : Node) (ns : List Node) → All (OtherId id) ns → All (OtherId id) (put_node n ns)
unfolding put_node
put_node-OtherId id n [] h = h
put_node-OtherId id n (m ∷ ms) (q, h) = elim (Bool-cases (m.id == n.id)) [
  | inl e ↦ rw e ((λ k. q (ground (arith, e, k))), put_node-OtherId id n ms h)
  | inr e ↦ rw e (q, put_node-OtherId id n ms h)
]

pub Distinct-put_node : (n : Node) (ns : List Node) → Distinct ns → Distinct (put_node n ns)
unfolding put_node
Distinct-put_node n [] h = h
Distinct-put_node n (m ∷ ms) (fresh, h) = elim (Bool-cases (m.id == n.id)) [
  | inl e ↦ rw e (put_node-OtherId n.id n ms (rw (eq_of e) at fresh), Distinct-put_node n ms h)
  | inr e ↦ rw e (put_node-OtherId m.id n ms fresh, Distinct-put_node n ms h)
]
  where
    eq_of : (m.id == n.id) ≡ true → m.id ≡ n.id
    eq_of e = ground (arith, e)

-- An id that no node has: nothing to put, nothing to erase.
pub put_node-none : (n : Node) (ns : List Node) → get_node n.id ns ≡ none → put_node n ns ≡ ns
unfolding get_node first_node put_node
put_node-none n [] h = refl
put_node-none n (m ∷ ms) h = ground (arith, h, put_node-none n ms)

pub erase_node-none : (id : ℕ) (ns : List Node) → get_node id ns ≡ none → erase_node id ns ≡ ns
unfolding get_node first_node erase_node
erase_node-none id [] h = refl
erase_node-none id (m ∷ ms) h = ground (arith, h, erase_node-none id ms)

pub All-get_node :
    (P : Node → Type 0) (id : ℕ) (ns : List Node) {n : Node}
    → get_node id ns ≡ some n
    → All P ns
    → P n
unfolding get_node first_node
All-get_node P id [] e h = absurd (cc e)
All-get_node P id (m ∷ ms) {n} e (p, h) = elim (Bool-cases (m.id == id)) [
  | inl t ↦ (let q : some m ≡ some n = rw t at e in let same : m ≡ n = cc q in subst P same p)
  | inr t ↦ All-get_node P id ms (rw t at e) h
]

-- The node that was put is the one that is erased.
pub erase_node-put_node :
    (n : Node) (ns : List Node) → Distinct ns → erase_node n.id (put_node n ns) ≡ erase_node n.id ns
unfolding erase_node put_node
erase_node-put_node n [] h = refl
erase_node-put_node n (m ∷ ms) (fresh, h) = elim (Bool-cases (m.id == n.id)) [
  | inl e ↦
      rw (e, ==_refl n.id) (put_node-none n ms (get_node-OtherId n.id ms (rw (eq_of e) at fresh)))
  | inr e ↦ rw (e, erase_node, e) (ap (◌∷◌ m) (erase_node-put_node n ms h))
]
  where
    eq_of : (m.id == n.id) ≡ true → m.id ≡ n.id
    eq_of e = ground (arith, e)

    ==_refl : (k : ℕ) → (k == k) ≡ true
    ==_refl k = (==_iff k k).1 refl

-- A new node stands at the end of the table.
pub get_node-add_node :
    (n : Node) (ns : List Node) → All (OtherId n.id) ns → get_node n.id (add_node n ns) ≡ some n
unfolding get_node first_node add_node
get_node-add_node n [] h = rw ((==_iff n.id n.id).1 refl) refl
get_node-add_node n (m ∷ ms) (other, h) = ground (arith, other, get_node-add_node n ms h)

pub put_node-add_node :
    (m n : Node) (ns : List Node)
    → n.id ≡ m.id
    → All (OtherId m.id) ns
    → put_node m (add_node n ns) ≡ add_node m ns
unfolding put_node add_node
put_node-add_node m n [] e h = rw ((==_iff n.id m.id).1 e) refl
put_node-add_node m n (k ∷ ks) e (other, h) = ground (arith, other, put_node-add_node m n ks e h)

pub Distinct-add_node :
    (n : Node) (ns : List Node) → All (OtherId n.id) ns → Distinct ns → Distinct (add_node n ns)
unfolding add_node
Distinct-add_node n [] h d = (tt, tt)
Distinct-add_node n (m ∷ ms) (other, h) (fresh, d) = (
  All-append (OtherId m.id) ms (n ∷ []) fresh ((λ e. other (sym e)), tt),
  Distinct-add_node n ms h d,
)

pub length-put_node : (n : Node) (ns : List Node) → length (put_node n ns) ≡ length ns
unfolding put_node
length-put_node n [] = refl
length-put_node n (m ∷ ms) = ground (arith, length-put_node n ms)

pub length-add_node : (n : Node) (ns : List Node) → length (add_node n ns) ≡ length ns + 1
unfolding add_node
length-add_node n ns = length-append ns (n ∷ [])
