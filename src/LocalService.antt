-- ===== src/LocalService.antt =====
-- class LocalService of network/include/net.h and network/src/net.cpp: the addresses of this host.
-- What getifaddrs gives is an argument, and so is the clock.
mod Runs
use btcdemo.Prelude.{
  ℕ, ◌+◌, ◌%◌, ◌^◌, ◌≤◌, ◌<◌, ◌≡◌, ◌≢◌, refl, sym, ◌⊎◌, inl, inr, Bool, true, false, not, ◌&&◌,
  ◌||◌, List, [], ◌∷◌, ◌++◌, Option, none, some, length, ltb, leb, ◌==◌, if◌then◌else◌, Bool-cases,
  arith,
}
use btcdemo.Prelude.Bytes.{All, All-append}
use btcdemo.Prelude.Hash.{Hash256}
use btcdemo.NetAddr.{NetAddr, new, clear, set_ipv4, set_ipv6, addr_eq}
use btcdemo.NetAddr.Category.{is_routable}
use btcdemo.NetAddr.Reach.{get_reachability}
use btcdemo.Node.{Node, FloodingAddrs, is_disconnected, is_local_addr_good}
use btcdemo.Node.Flooding.{push_addr_to_send}

pub record LocalService : Type 0 where
  pub service : ℕ
  pub local_addrs : List NetAddr

-- kNodeNetwork, kNodeBloom and kNodeNetworkLimited.
unfoldable pub of_addrs : List NetAddr → LocalService
of_addrs addrs = record { service = 1 + 4 + 1024; local_addrs = addrs }

unfoldable pub set_services : ℕ → LocalService → LocalService
set_services flags s = record s { service = flags }

unfoldable pub is_local_in : NetAddr → List NetAddr → Bool
is_local_in addr [] = false
is_local_in addr (entry ∷ entries) = if addr_eq addr entry then true else is_local_in addr entries

unfoldable pub is_local : NetAddr → LocalService → Bool
is_local addr s = is_local_in addr s.local_addrs

unfoldable pub add_local_addr : NetAddr → LocalService → Bool × LocalService
unfolding is_local
add_local_addr addr s =
    if not (is_routable addr)
    then (false, s)
    else if is_local addr s
    then (true, s)
    else (true, record s { local_addrs = s.local_addrs ++ addr ∷ [] })

-- An interface of getifaddrs: the address is missing, of IPv4, of IPv6, or of another family.
pub data IfAddr : Type 0 where
  no_addr other_addr : IfAddr
  ipv4_addr : ℕ → IfAddr
  ipv6_addr : List ℕ → IfAddr

pub record Interface : Type 0 where
  pub if_addr : IfAddr
  pub is_up : Bool
  pub is_lo : Bool

-- The body of the loop for one interface, which is skipped if it is down or the loopback.
unfoldable pub discover_addr : Bool → IfAddr → LocalService → LocalService
discover_addr skipped no_addr s = s
discover_addr skipped other_addr s = s
discover_addr skipped (ipv4_addr word) s =
    if skipped then s else (add_local_addr (set_ipv4 word new) s).1
discover_addr skipped (ipv6_addr bytes) s =
    if skipped then s else (add_local_addr (set_ipv6 bytes new) s).1

unfoldable pub discover_one : Interface → LocalService → LocalService
unfolding discover_addr
discover_one i s = discover_addr (not i.is_up || i.is_lo) i.if_addr s

unfoldable pub discover_each : List Interface → LocalService → LocalService
discover_each [] s = s
discover_each (i ∷ is) s = discover_each is (discover_one i s)

-- `none` is that getifaddrs failed.
unfoldable pub discover_local_addrs : Option (List Interface) → LocalService → Bool × LocalService
discover_local_addrs none s = (false, s)
discover_local_addrs (some is) s =
    let s1 = discover_each is s in (not (length s1.local_addrs == 0), s1)

-- The loop of GetLocalAddr; the `best_reachability` -1 of the beginning is `none`.
unfoldable pub best_from : NetAddr → List NetAddr → Option NetAddr → Option NetAddr
best_from peer_addr [] best = best
best_from peer_addr (entry ∷ entries) none = best_from peer_addr entries (some entry)
best_from peer_addr (entry ∷ entries) (some best) = best_from peer_addr entries (
    if ltb (get_reachability best peer_addr) (get_reachability entry peer_addr)
    then some entry
    else some best)

-- GetLocalAddr, with the address that it is given to fill.
unfoldable pub get_local_addr : NetAddr → ℕ → ℕ → NetAddr → LocalService → NetAddr
get_local_addr peer_addr services now out s =
    let found : NetAddr = elim (best_from peer_addr s.local_addrs none) [
      | none ↦ clear out
      | some addr ↦ addr
    ] in
    record found { services = services; timestamp = now % 2 ^ 32 }

pushed : Option (Bool × FloodingAddrs) → Option FloodingAddrs
pushed none = none
pushed (some (_, f)) = some f

-- AdvertiseLocalAddr: the addresses that the node is to be sent, afterwards; `none` is undefined.
unfoldable pub advertise_local_addr :
    (NetAddr → Hash256)
    → (List ℕ → ℕ → List ℕ)
    → ℕ
    → ℕ
    → Bool
    → Node
    → LocalService
    → Option FloodingAddrs
unfolding pushed
advertise_local_addr get_hash push_back random now discovered_addr_first n s =
    let addr_local = get_local_addr n.connection.addr n.services now new s in
    let push = λ (addr : NetAddr).
      pushed (push_addr_to_send get_hash push_back random addr n.flooding_addrs) in
    if is_disconnected n.connection
    then some n.flooding_addrs
    else if discovered_addr_first && is_routable addr_local
    then push addr_local
    else if is_local_addr_good true n.connection
    then push n.connection.local_addr
    else some n.flooding_addrs

abbrev pub IsIn : NetAddr → List NetAddr → Type 0
IsIn addr [] = ⊥
IsIn addr (entry ∷ entries) = (entry ≡ addr) ⊎ IsIn addr entries

-- An address that is reached no worse than any of a list.
abbrev pub IsBest : NetAddr → NetAddr → List NetAddr → Type 0
IsBest peer_addr addr entries =
    All (λ e. get_reachability e peer_addr ≤ get_reachability addr peer_addr) entries

best_from-some :
    (peer_addr : NetAddr) (entries : List NetAddr) (best : NetAddr)
    → (addr : NetAddr) × (best_from peer_addr entries (some best) ≡ some addr)
      × ((best ≡ addr) ⊎ IsIn addr entries)
      × (get_reachability best peer_addr ≤ get_reachability addr peer_addr)
      × IsBest peer_addr addr entries
unfolding best_from
best_from-some peer_addr [] best = (best, refl, inl refl, omega arith, tt)
best_from-some peer_addr (entry ∷ entries) best =
    elim (Bool-cases (ltb (get_reachability best peer_addr) (get_reachability entry peer_addr))) [
      | inl e ↦
          let (addr, same, place, better, rest) = best_from-some peer_addr entries entry in
          (addr, rw e same, inr place, ground (arith, e, better), (better, rest))
      | inr e ↦
          let (addr, same, place, better, rest) = best_from-some peer_addr entries best in
          (addr, rw e same, later place, better, (ground (arith, e, better), rest))
    ]
  where
    later :
        {addr : NetAddr}
        → (best ≡ addr) ⊎ IsIn addr entries
        → (best ≡ addr) ⊎ ((entry ≡ addr) ⊎ IsIn addr entries)
    later (inl e) = inl e
    later (inr i) = inr (inr i)

best_from-none :
    (peer_addr : NetAddr) (entries : List NetAddr)
    → entries ≢ []
    → (addr : NetAddr) × (best_from peer_addr entries none ≡ some addr)
      × IsIn addr entries
      × IsBest peer_addr addr entries
unfolding best_from
best_from-none peer_addr [] some_addr = absurd (some_addr refl)
best_from-none peer_addr (entry ∷ entries) some_addr =
    let (addr, same, place, better, rest) = best_from-some peer_addr entries entry in
    (addr, same, place, (better, rest))

-- If this host has an address, GetLocalAddr chooses one of its addresses, and no other is reached
-- better from the peer.
pub get_local_addr_lem :
    (peer_addr : NetAddr) (services now : ℕ) (out : NetAddr) (s : LocalService)
    → s.local_addrs ≢ []
    → (addr : NetAddr) × IsIn addr s.local_addrs
      × IsBest peer_addr addr s.local_addrs
      × (get_local_addr peer_addr services now out s
          ≡ record addr { services = services; timestamp = now % 2 ^ 32 })
unfolding get_local_addr
get_local_addr_lem peer_addr services now out s some_addr =
    let (addr, same, place, best) = best_from-none peer_addr s.local_addrs some_addr in
    (addr, place, best, rw (get_local_addr, same) refl)

-- The addresses of this host are routable, and no two of them are equal.
abbrev pub AreLocal : List NetAddr → Type 0
AreLocal [] = Unit {0}
AreLocal (addr ∷ addrs) =
    (is_routable addr ≡ true) × All (λ other. addr_eq other addr ≡ false) addrs × AreLocal addrs

AreLocal-append :
    (addrs : List NetAddr) (addr : NetAddr)
    → is_routable addr ≡ true
    → is_local_in addr addrs ≡ false
    → AreLocal addrs
    → AreLocal (addrs ++ addr ∷ [])
unfolding is_local_in
AreLocal-append [] addr r new_one h = (r, tt, tt)
AreLocal-append (entry ∷ entries) addr r new_one (re, fresh, h) = (
  re,
  All-append (λ other. addr_eq other entry ≡ false) entries (addr ∷ []) fresh
      (ground (arith, new_one), tt),
  AreLocal-append entries addr r (ground (arith, new_one)) h,
)

pub add_local_addr-AreLocal :
    (addr : NetAddr) (s : LocalService)
    → AreLocal s.local_addrs
    → AreLocal (add_local_addr addr s).1.local_addrs
unfolding add_local_addr
add_local_addr-AreLocal addr s h = elim (Bool-cases (is_routable addr)) [
  | inl r ↦ elim (Bool-cases (is_local_in addr s.local_addrs)) [
    | inl e ↦ rw (add_local_addr, r, is_local, e) h
    | inr e ↦ rw (add_local_addr, r, is_local, e) (AreLocal-append s.local_addrs addr r e h)
  ]
  | inr r ↦ rw (add_local_addr, r) h
]

discover_addr-AreLocal :
    (skipped : Bool) (a : IfAddr) (s : LocalService)
    → AreLocal s.local_addrs
    → AreLocal (discover_addr skipped a s).local_addrs
unfolding discover_addr
discover_addr-AreLocal skipped no_addr s h = h
discover_addr-AreLocal skipped other_addr s h = h
discover_addr-AreLocal true (ipv4_addr word) s h = h
discover_addr-AreLocal false (ipv4_addr word) s h = add_local_addr-AreLocal (set_ipv4 word new) s h
discover_addr-AreLocal true (ipv6_addr bytes) s h = h
discover_addr-AreLocal false (ipv6_addr bytes) s h =
    add_local_addr-AreLocal (set_ipv6 bytes new) s h

-- Whatever the interfaces are, the discovery keeps it that all addresses of this host are routable
-- and no two of them are equal.
pub discover_each-AreLocal :
    (interfaces : List Interface) (s : LocalService)
    → AreLocal s.local_addrs
    → AreLocal (discover_each interfaces s).local_addrs
unfolding discover_each discover_one
discover_each-AreLocal [] s h = h
discover_each-AreLocal (i ∷ is) s h =
    discover_each-AreLocal is (discover_one i s)
      (discover_addr-AreLocal (not i.is_up || i.is_lo) i.if_addr s h)
