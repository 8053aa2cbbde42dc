-- ===== src/Node/Flooding.antt =====
-- class FloodingAddrs of network/include/node.h and network/src/node.cpp, and
-- RelayFloodingAddrsTimeoutCb of network/src/net.cpp. The hash function is an argument, and so is
-- `push_back` of boost::circular_buffer on the contents of the ring. RandUint64(max) is an argument
-- from 0 to max, max included. `none` is undefined behaviour.
use mathlib.Core.List.{append_assoc}
use btcdemo.Prelude.{
  ℕ, ◌+◌, ◌≤◌, ◌<◌, ◌≡◌, refl, ◌∙◌, ◌↔◌, Bool, true, false, not, ◌||◌, List, [], ◌∷◌, ◌++◌, Option,
  none, some, length, set, take, ltb, leb, ◌==◌, if◌then◌else◌, Bool-cases, inl, inr, length-append,
  length-set, arith,
}
use btcdemo.Prelude.Bytes.{All}
use btcdemo.Prelude.Hash.{Hash256}
use btcdemo.Endian.{from_little_endian}
use btcdemo.NetAddr.{NetAddr}
use btcdemo.NetAddr.Category.{is_valid}
use btcdemo.Node.{FloodingAddrs, Node, is_disconnected}
use btcdemo.Node.Life.{send_msg}

abbrev pub max_addr_to_send : ℕ
max_addr_to_send = 1000

unfoldable pub contains : ℕ → List ℕ → Bool
contains h [] = false
contains h (k ∷ ks) = (k == h) || contains h ks

-- A message in front of those that are sent later.
unfoldable pub sent_first :
    List NetAddr → List (List NetAddr) × FloodingAddrs → List (List NetAddr) × FloodingAddrs
sent_first msg (sent, f) = (msg ∷ sent, f)

abbrev pub concat : List (List NetAddr) → List NetAddr
concat [] = []
concat (msg ∷ msgs) = msg ++ concat msgs

-- No message is empty or has more than 1000 addresses.
abbrev pub IsFit : List NetAddr → Type 0
IsFit msg = (0 < length msg) × (length msg ≤ 1000)

-- SendMsg of one message after the other, as far as it changes the node.
unfoldable pub send_each : (List NetAddr → Bool) → List (List NetAddr) → Node → Node
send_each written [] n = n
send_each written (msg ∷ msgs) n = send_each written msgs (send_msg (written msg) n).1

module _ (get_hash : NetAddr → Hash256) (push_back : List ℕ → ℕ → List ℕ) where
  -- `util::FromLittleEndian<uint64_t>(addr.GetHash().data())`
  unfoldable pub short_hash : NetAddr → ℕ
  short_hash addr = from_little_endian 8 (take 8 (get_hash addr))

  unfoldable pub is_known_addr : NetAddr → FloodingAddrs → Bool
  is_known_addr addr f = contains (short_hash addr) f.known_addrs

  unfoldable pub push_addr_to_send : ℕ → NetAddr → FloodingAddrs → Option (Bool × FloodingAddrs)
  push_addr_to_send random addr f =
      let size = length f.addrs_to_send in
      if not (is_valid addr) || is_known_addr addr f
      then some (false, f)
      else if leb max_addr_to_send size
      then (if ltb random size
          then some (true, record f { addrs_to_send = set f.addrs_to_send random addr })
          else none)
      else some (true, record f { addrs_to_send = f.addrs_to_send ++ addr ∷ [] })

  unfoldable pub clear_sent_addr : FloodingAddrs → FloodingAddrs
  clear_sent_addr f = record f { addrs_to_send = [] }

  unfoldable pub add_known_addr : NetAddr → FloodingAddrs → Bool × FloodingAddrs
  add_known_addr addr f =
      if not (is_valid addr)
      then (false, f)
      else (true, record f { known_addrs = push_back f.known_addrs (short_hash addr) })

  -- The loop over the copy of the addresses, with the message that grows: the messages that are
  -- sent, and the addresses that are known afterwards.
  unfoldable pub relay_from :
      List NetAddr → List NetAddr → FloodingAddrs → List (List NetAddr) × FloodingAddrs
  relay_from [] [] f = ([], f)
  relay_from [] (addr ∷ msg) f = ((addr ∷ msg) ∷ [], f)
  relay_from (addr ∷ addrs) msg f =
      let f1 = (add_known_addr addr f).1 in
      let msg1 = msg ++ addr ∷ [] in
      let full = sent_first msg1 (relay_from addrs [] f1) in
      let more = relay_from addrs msg1 f1 in
      let skip = relay_from addrs msg f in
      if is_known_addr addr f then skip else if leb 1000 (length msg1) then full else more

  -- RelayFloodingAddrsTimeoutCb: the messages that are handed to SendMsg, and the node after it;
  -- `written` is whether libevent takes the bytes of a message.
  unfoldable pub relay_flooding_addrs :
      Bool → (List NetAddr → Bool) → Node → List (List NetAddr) × Node
  relay_flooding_addrs interrupted written n =
      let (sent, f) = relay_from n.flooding_addrs.addrs_to_send [] n.flooding_addrs in
      if interrupted || is_disconnected n.connection
      then ([], n)
      else (sent, record (send_each written sent n) { flooding_addrs = clear_sent_addr f })

  -- What is to be sent: the addresses that are not known when their turn comes.
  abbrev pub unknown_addrs : List NetAddr → FloodingAddrs → List NetAddr
  unknown_addrs [] f = []
  unknown_addrs (addr ∷ addrs) f =
      let skip = unknown_addrs addrs f in
      let take_it = addr ∷ unknown_addrs addrs (add_known_addr addr f).1 in
      if is_known_addr addr f then skip else take_it

  -- The queue stays within 1000 addresses. The call is undefined exactly if the queue is full, the
  -- address valid and new, and the random number the size of the queue itself.
  pub push_addr_to_send_lem :
      (random : ℕ) (addr : NetAddr) (f : FloodingAddrs)
      → random ≤ length f.addrs_to_send
      → length f.addrs_to_send ≤ max_addr_to_send
      → ((push_addr_to_send random addr f ≡ none) ↔ (
          (is_valid addr ≡ true)
          × (is_known_addr addr f ≡ false)
          × (length f.addrs_to_send ≡ max_addr_to_send)
          × (random ≡ max_addr_to_send)))
        × ((queued : Bool) (g : FloodingAddrs)
            → push_addr_to_send random addr f ≡ some (queued, g)
            → length g.addrs_to_send ≤ max_addr_to_send)
  unfolding push_addr_to_send
  push_addr_to_send_lem random addr f inside small = (
    (λ e. ground (arith, e), λ (valid, new, full, last). rw (valid, new) (ground arith)),
    λ queued g e. ground (
      arith,
      e,
      length-set f.addrs_to_send random addr,
      length-append f.addrs_to_send (addr ∷ []),
    ),
  )

  relay_from_lem :
      (addrs msg : List NetAddr) (f : FloodingAddrs)
      → length msg < 1000
      → (concat (relay_from addrs msg f).0 ≡ msg ++ unknown_addrs addrs f)
        × All IsFit (relay_from addrs msg f).0
  unfolding relay_from sent_first
  relay_from_lem [] [] f h = (refl, tt)
  relay_from_lem [] (addr ∷ msg) f h = (refl, ((omega arith, omega (arith, h)), tt))
  relay_from_lem (addr ∷ addrs) msg f h = elim (Bool-cases (is_known_addr addr f)) [
    | inl known ↦ rw known (relay_from_lem addrs msg f h)
    | inr new ↦ rw new (
        let f1 = (add_known_addr addr f).1 in
        let msg1 = msg ++ addr ∷ [] in
        let size : length msg1 ≡ length msg + 1 = length-append msg (addr ∷ []) in
        elim (Bool-cases (leb 1000 (length msg1))) [
          | inl e ↦ rw e (
              let (same, fit) = relay_from_lem addrs [] f1 (omega arith) in
              (
                rw same (append_assoc msg (addr ∷ []) _),
                ((omega (arith, size), omega (arith, size, h)), fit),
              ))
          | inr e ↦ rw e (
              let (same, fit) = relay_from_lem addrs msg1 f1 (leb-false e) in
              (same ∙ append_assoc msg (addr ∷ []) _, fit))
        ])
  ]
    where
      leb-false : {n : ℕ} → leb 1000 n ≡ false → n < 1000
      leb-false e = ground (arith, e)

  -- RelayFloodingAddrsTimeoutCb does nothing while the program is interrupted and for a disconnected
  -- node. Otherwise it empties the queue and sends exactly the queued addresses that are not known
  -- when their turn comes, in their order, in messages of 1 to 1000.
  pub relay_flooding_addrs_lem :
      (interrupted : Bool) (written : List NetAddr → Bool) (n : Node)
      → (interrupted ≡ true → relay_flooding_addrs interrupted written n ≡ ([], n))
        × (is_disconnected n.connection ≡ true
            → relay_flooding_addrs interrupted written n ≡ ([], n))
        × (interrupted ≡ false
            → is_disconnected n.connection ≡ false
            → let (sent, after) = relay_flooding_addrs interrupted written n in
              (concat sent ≡ unknown_addrs n.flooding_addrs.addrs_to_send n.flooding_addrs)
              × All IsFit sent
              × (after.flooding_addrs.addrs_to_send ≡ []))
  unfolding relay_flooding_addrs clear_sent_addr
  relay_flooding_addrs_lem interrupted written n = (
    (λ e. rw e refl),
    (λ e. rw (e, or-true interrupted) refl),
    λ e d.
        let (same, fit) =
          relay_from_lem n.flooding_addrs.addrs_to_send [] n.flooding_addrs (omega arith) in
        rw (e, d) (same, fit, refl),
  )
    where
      or-true : (b : Bool) → (b || true) ≡ true
      or-true true = refl
      or-true false = refl
