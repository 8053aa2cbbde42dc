-- ===== src/Node/Table.antt =====
-- class Nodes of network/include/node.h and network/src/node.cpp: the list of the nodes of one
-- table. No two nodes have the same id, so a pointer to a node is its id.
use btcdemo.Prelude.{
  ℕ, ◌+◌, ◌≡◌, refl, ◌↔◌, Bool, true, false, not, ◌&&◌, List, [], ◌∷◌, ◌++◌, Option, none, some,
  length, ltb, ◌==◌, if◌then◌else◌, Bool-cases, inl, inr, arith,
}
use btcdemo.Prelude.Bytes.{All}
use btcdemo.NetAddr.{NetAddr, addr_eq}
use btcdemo.SubNet.{SubNet, match}
use btcdemo.Node.{Node, is_handshake_completed, is_disconnected, is_prefered_download}

-- The first node that passes a test.
unfoldable pub first_node : (Node → Bool) → List Node → Option Node
first_node test [] = none
first_node test (n ∷ ns) = if test n then some n else first_node test ns

unfoldable pub get_node : ℕ → List Node → Option Node
get_node id ns = first_node (λ n. n.id == id) ns

unfoldable pub get_node_of_bev : ℕ → List Node → Option Node
get_node_of_bev bev ns = first_node (λ n. n.connection.bev == bev) ns

unfoldable pub get_node_of_addr : NetAddr → List Node → Option Node
get_node_of_addr addr ns = first_node (λ n. addr_eq n.connection.addr addr) ns

unfoldable pub get_nodes_of_subnet : SubNet → List Node → List Node
get_nodes_of_subnet subnet [] = []
get_nodes_of_subnet subnet (n ∷ ns) =
    let rest = get_nodes_of_subnet subnet ns in
    if match subnet n.connection.addr then n ∷ rest else rest

unfoldable pub add_node : Node → List Node → List Node
add_node n ns = ns ++ n ∷ []

-- Both versions of EraseNode.
unfoldable pub erase_node : ℕ → List Node → List Node
erase_node id [] = []
erase_node id (n ∷ ns) = if n.id == id then ns else n ∷ erase_node id ns

unfoldable pub clear : List Node → List Node
clear ns = []

unfoldable pub size : List Node → ℕ
size ns = length ns

unfoldable pub count_preferred_download : List Node → ℕ
count_preferred_download [] = 0
count_preferred_download (n ∷ ns) =
    (if not (is_disconnected n.connection) && is_prefered_download n then 1 else 0)
    + count_preferred_download ns

unfoldable pub count_full_outbound : List Node → ℕ
count_full_outbound [] = 0
count_full_outbound (n ∷ ns) =
    (if is_handshake_completed n.connection && (not n.connection.manual && not n.is_inbound)
      then 1
      else 0)
    + count_full_outbound ns

unfoldable pub should_dns_lookup : List Node → Bool
unfolding count_full_outbound
should_dns_lookup ns = ltb (count_full_outbound ns) 2

unfoldable pub check_incoming_nonce : ℕ → List Node → Bool
check_incoming_nonce nonce [] = true
check_incoming_nonce nonce (n ∷ ns) =
    if not (is_handshake_completed n.connection)
      && (not n.is_inbound && (n.local_host_nonce == nonce))
    then false
    else check_incoming_nonce nonce ns

-- A change of the node that an id stands for.
unfoldable pub put_node : Node → List Node → List Node
put_node n [] = []
put_node n (m ∷ ms) = if m.id == n.id then n ∷ put_node n ms else m ∷ put_node n ms

-- A node that still waits for its handshake on a connection of ours.
abbrev pub Waits : ℕ → Node → Type 0
Waits nonce n =
    (is_handshake_completed n.connection ≡ false)
    × (n.is_inbound ≡ false)
    × (n.local_host_nonce ≡ nonce)

-- CheckIncomingNonce refuses a nonce exactly if an outbound node of the table whose handshake is not
-- complete sent it.
pub check_incoming_nonce_iff :
    (nonce : ℕ) (ns : List Node)
    → (check_incoming_nonce nonce ns ≡ true) ↔ All (λ n. ¬ Waits nonce n) ns
unfolding check_incoming_nonce
check_incoming_nonce_iff nonce [] = ((λ _. tt), (λ _. refl))
check_incoming_nonce_iff nonce (n ∷ ns) =
    let ih = check_incoming_nonce_iff nonce ns in
    (
      λ e. ((λ w. ground (arith, e, w)), ih.0 (rest e)),
      λ h. ground (arith, not_waits h.0, ih.1 h.1),
    )
  where
    rest : check_incoming_nonce nonce (n ∷ ns) ≡ true → check_incoming_nonce nonce ns ≡ true
    rest e = ground (arith, e)

    not_waits :
        ¬ Waits nonce n
        → (not (is_handshake_completed n.connection)
            && (not n.is_inbound && (n.local_host_nonce == nonce)))
          ≡ false
    not_waits h = tests (is_handshake_completed n.connection) n.is_inbound (n.local_host_nonce) h
      where
        tests :
            (completed inbound : Bool) (sent : ℕ)
            → ¬ ((completed ≡ false) × (inbound ≡ false) × (sent ≡ nonce))
            → (not completed && (not inbound && (sent == nonce))) ≡ false
        tests true inbound sent h = refl
        tests false true sent h = refl
        tests false false sent h = elim (Bool-cases (sent == nonce)) [
          | inl e ↦ absurd (h (refl, refl, ground (arith, e)))
          | inr e ↦ e
        ]
