-- ===== src/NetAddr/Reach.antt =====
-- GetReachability of network/src/network_address.cpp.
use btcdemo.Prelude.{
  ℕ, ◌<◌, ◌≡◌, ◌↔◌, ◌≢◌, refl, Bool, true, false, not, ◌||◌, if◌then◌else◌, Bool-cases, inl, inr,
  arith, Bool-cases,
}
use btcdemo.NetAddr.{NetAddr}
use btcdemo.NetAddr.Category.{is_internal, is_routable, is_rfc3964, is_rfc6052, is_rfc6145}
use btcdemo.NetAddr.Group.{
  AddrFamily, af_unroutable, af_ipv4, af_ipv6, af_tor, af_internal, af_teredo, af_maximum,
  get_ext_family,
}
use btcdemo.NetAddr.Group.Laws.{routable_outside}

-- The enumeration inside of GetReachability, whose numbers it returns.
abbrev reach_unreachable : ℕ
reach_unreachable = 0

abbrev reach_default : ℕ
reach_default = 1

abbrev reach_teredo : ℕ
reach_teredo = 2

abbrev reach_ipv6_weak : ℕ
reach_ipv6_weak = 3

abbrev reach_ipv4 : ℕ
reach_ipv4 = 4

abbrev reach_ipv6_strong : ℕ
reach_ipv6_strong = 5

abbrev reach_private : ℕ
reach_private = 6

-- The inner switches, one for each network of the partner, over our own network.
reach_from_ipv4 : AddrFamily → ℕ
reach_from_ipv4 af_ipv4 = reach_ipv4
reach_from_ipv4 _ = reach_default

reach_from_ipv6 : Bool → AddrFamily → ℕ
reach_from_ipv6 is_tunnel af_teredo = reach_teredo
reach_from_ipv6 is_tunnel af_ipv4 = reach_ipv4
reach_from_ipv6 is_tunnel af_ipv6 = if is_tunnel then reach_ipv6_weak else reach_ipv6_strong
reach_from_ipv6 is_tunnel _ = reach_default

reach_from_tor : AddrFamily → ℕ
reach_from_tor af_ipv4 = reach_ipv4
reach_from_tor af_tor = reach_private
reach_from_tor _ = reach_default

reach_from_teredo : AddrFamily → ℕ
reach_from_teredo af_teredo = reach_teredo
reach_from_teredo af_ipv6 = reach_ipv6_weak
reach_from_teredo af_ipv4 = reach_ipv4
reach_from_teredo _ = reach_default

reach_from_unknown : AddrFamily → ℕ
reach_from_unknown af_teredo = reach_teredo
reach_from_unknown af_ipv6 = reach_ipv6_weak
reach_from_unknown af_ipv4 = reach_ipv4
reach_from_unknown af_tor = reach_private
reach_from_unknown _ = reach_default

reach_switch : AddrFamily → AddrFamily → Bool → ℕ
unfolding reach_from_ipv4 reach_from_ipv6 reach_from_tor reach_from_teredo reach_from_unknown
reach_switch af_ipv4 our_net is_tunnel = reach_from_ipv4 our_net
reach_switch af_ipv6 our_net is_tunnel = reach_from_ipv6 is_tunnel our_net
reach_switch af_tor our_net is_tunnel = reach_from_tor our_net
reach_switch af_teredo our_net is_tunnel = reach_from_teredo our_net
reach_switch af_unroutable our_net is_tunnel = reach_from_unknown our_net
reach_switch af_internal our_net is_tunnel = reach_from_unknown our_net
reach_switch af_maximum our_net is_tunnel = reach_from_unknown our_net

unfoldable pub get_reachability : NetAddr → NetAddr → ℕ
unfolding reach_switch
get_reachability a addr_partner =
    if not (is_routable a) || is_internal a
    then reach_unreachable
    else reach_switch (get_ext_family addr_partner) (get_ext_family a)
        (is_rfc3964 a || (is_rfc6052 a || is_rfc6145 a))

ipv4_positive : (our_net : AddrFamily) → 0 < reach_from_ipv4 our_net
unfolding reach_from_ipv4
ipv4_positive af_unroutable = omega arith
ipv4_positive af_ipv4 = omega arith
ipv4_positive af_ipv6 = omega arith
ipv4_positive af_tor = omega arith
ipv4_positive af_internal = omega arith
ipv4_positive af_teredo = omega arith
ipv4_positive af_maximum = omega arith

tor_positive : (our_net : AddrFamily) → 0 < reach_from_tor our_net
unfolding reach_from_tor
tor_positive af_unroutable = omega arith
tor_positive af_ipv4 = omega arith
tor_positive af_ipv6 = omega arith
tor_positive af_tor = omega arith
tor_positive af_internal = omega arith
tor_positive af_teredo = omega arith
tor_positive af_maximum = omega arith

teredo_positive : (our_net : AddrFamily) → 0 < reach_from_teredo our_net
unfolding reach_from_teredo
teredo_positive af_unroutable = omega arith
teredo_positive af_ipv4 = omega arith
teredo_positive af_ipv6 = omega arith
teredo_positive af_tor = omega arith
teredo_positive af_internal = omega arith
teredo_positive af_teredo = omega arith
teredo_positive af_maximum = omega arith

unknown_positive : (our_net : AddrFamily) → 0 < reach_from_unknown our_net
unfolding reach_from_unknown
unknown_positive af_unroutable = omega arith
unknown_positive af_ipv4 = omega arith
unknown_positive af_ipv6 = omega arith
unknown_positive af_tor = omega arith
unknown_positive af_internal = omega arith
unknown_positive af_teredo = omega arith
unknown_positive af_maximum = omega arith

ipv6_positive : (t : Bool) (our_net : AddrFamily) → 0 < reach_from_ipv6 t our_net
unfolding reach_from_ipv6
ipv6_positive t af_unroutable = omega arith
ipv6_positive t af_ipv4 = omega arith
ipv6_positive true af_ipv6 = omega arith
ipv6_positive false af_ipv6 = omega arith
ipv6_positive t af_tor = omega arith
ipv6_positive t af_internal = omega arith
ipv6_positive t af_teredo = omega arith
ipv6_positive t af_maximum = omega arith

switch_positive : (their_net our_net : AddrFamily) (t : Bool) → 0 < reach_switch their_net our_net t
unfolding reach_switch
switch_positive af_ipv4 our_net t = ipv4_positive our_net
switch_positive af_ipv6 our_net t = ipv6_positive t our_net
switch_positive af_tor our_net t = tor_positive our_net
switch_positive af_teredo our_net t = teredo_positive our_net
switch_positive af_unroutable our_net t = unknown_positive our_net
switch_positive af_internal our_net t = unknown_positive our_net
switch_positive af_maximum our_net t = unknown_positive our_net

-- An address is reachable for a partner, whoever that is, exactly if it is routable.
pub get_reachability-is_routable :
    (a partner : NetAddr) → (get_reachability a partner ≢ 0) ↔ (is_routable a ≡ true)
unfolding get_reachability
get_reachability-is_routable a partner = elim (Bool-cases (is_routable a)) [
  | inl e ↦
      let (l, i) = routable_outside a e in
      let pos =
        switch_positive (get_ext_family partner) (get_ext_family a)
          (is_rfc3964 a || (is_rfc6052 a || is_rfc6145 a)) in
      ((λ _. e), (λ _. rw (e, i) (λ z. absurd (omega (arith, z, pos)))))
  | inr e ↦ rw e ((λ z. absurd (z refl)), (λ z. cc))
]
