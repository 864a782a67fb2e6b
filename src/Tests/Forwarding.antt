-- ===== src/Tests/Forwarding.antt =====
-- internal/ingest/fpm.go, internal/ingest/netlink.go and cmd/pathtrace-exporter/main.go on a forwarding
-- table of two routes and on the addresses of two nodes.
use frr_visible.Base.{
  ◌≡◌, ◌↔◌, map, sym, ◌∙◌, refl, ap, subst, ◌≤◌, ℕ, List, [], ◌∷◌, ◌++◌, false, Option, none, some,
  if◌then◌else◌, inl, inr,
}
use frr_visible.Base.Text.{Text, lit, is_empty, text_eq, text_eq_instance, has_prefix, itoa}
use frr_visible.Base.Map.{Map, lookup}
use frr_visible.Gnmi.{GnmiPath, Update}
use frr_visible.Net.{ip_string}
use frr_visible.Fpm.Attrs.{labels_csv}
use frr_visible.PathTrace.Lookups.{Cidr, RouteEntry, routes_by_prefix, route_lookup, build_ip2node}
use frr_visible.PathTrace.Lookups.Owners.{Address, ip_leaf, known_by, IsOwner, ip2node_exact}
use frr_visible.PathTrace.Lookups.Fib.{
  FibRoute, IsIn, IsFib, ArePrefixesApart, fib_leaves, nexthop_leaf, labels_leaf,
}
use frr_visible.PathTrace.Lookups.Fib.Answer.{Covers, route_lookup-fib}
use frr_visible.PathTrace.Lookups.Fib.Mixed.{routes_by_prefix_mixes}

abbrev wide : FibRoute
wide = record {
  vrf = lit "default";
  af_name = lit "ipv4-unicast";
  prefix = lit "10.1.0.0/16";
  nexthop = lit "10.0.0.1";
  labels = 16 ∷ 17 ∷ [];
}

abbrev narrow : FibRoute
narrow = record {
  vrf = lit "cust";
  af_name = lit "ipv4-unicast";
  prefix = lit "10.1.2.0/24";
  nexthop = lit "10.0.0.2";
  labels = [];
}

abbrev routes : List FibRoute
routes = wide ∷ narrow ∷ []

-- As a cache may return them.
abbrev answered : List Update
answered = labels_leaf wide ∷ nexthop_leaf narrow ∷ nexthop_leaf wide ∷ []

parse_cidr : Text → Option Cidr
parse_cidr p =
    if text_eq p (lit "10.1.0.0/16")
    then some (record { ones = 16; contains = λ a. has_prefix a (lit "10.1.") })
    else if text_eq p (lit "10.1.2.0/24")
    then some (record { ones = 24; contains = λ a. has_prefix a (lit "10.1.2.") })
    else none

routes_valid : (r : FibRoute) → IsIn routes r → is_empty r.prefix ≡ false
unfolding lit
routes_valid r (inl e) = rw e refl
routes_valid r (inr (inl e)) = rw e refl
routes_valid r (inr (inr e)) = elim e [ ]

wide-ne-narrow : wide.prefix ≡ narrow.prefix → ⊥
unfolding lit text_eq
wide-ne-narrow e = cc (ap (λ p. text_eq p (lit "10.1.0.0/16")) e)

routes_apart : ArePrefixesApart routes
routes_apart r s (inl e) (inl f) p = cc
routes_apart r s (inl e) (inr (inl f)) p = absurd (wide-ne-narrow (cc))
routes_apart r s (inr (inl e)) (inl f) p = absurd (wide-ne-narrow (cc))
routes_apart r s (inr (inl e)) (inr (inl f)) p = cc
routes_apart r s (inr (inr e)) at p = elim e [ ]
routes_apart r s at (inr (inr f)) p = elim f [ ]

routes_answered : IsFib routes answered
unfolding fib_leaves frr_visible.PathTrace.Lookups.Fib.leaves frr_visible.Fpm.Routes.aft_updates
routes_answered = record {
  sound = (
    (wide, inl refl, inr (inl refl)),
    ((narrow, inr (inl refl), inl refl), ((wide, inl refl, inl refl), tt)),
  );
  complete = λ r at u leaf. go r at u leaf;
}
  where
    of_wide : (u : Update) → IsIn (fib_leaves wide) u → IsIn answered u
    of_wide u (inl e) = inr (inr (inl e))
    of_wide u (inr (inl e)) = inl e
    of_wide u (inr (inr e)) = elim e [ ]

    of_narrow : (u : Update) → IsIn (fib_leaves narrow) u → IsIn answered u
    of_narrow u (inl e) = inr (inl e)
    of_narrow u (inr e) = elim e [ ]

    go : (r : FibRoute) → IsIn routes r → (u : Update) → IsIn (fib_leaves r) u → IsIn answered u
    go r (inl e) u leaf = of_wide u (subst (λ x. IsIn (fib_leaves x) u) e leaf)
    go r (inr (inl e)) u leaf = of_narrow u (subst (λ x. IsIn (fib_leaves x) u) e leaf)
    go r (inr (inr e)) u leaf = elim e [ ]

abbrev address : Text
address = lit "10.1.7.7"

wide-Covers : Covers parse_cidr address wide 16
unfolding parse_cidr text_eq lit has_prefix
wide-Covers = record {
  cidr = record { ones = 16; contains = λ a. has_prefix a (lit "10.1.") };
  parsed = refl;
  contains = refl;
  long = refl;
  says = refl;
}

route_lookup-fib_example :
    (s : FibRoute) × (k : ℕ) × IsIn routes s
    × Covers parse_cidr address s k
    × ((t : FibRoute) (l : ℕ) → IsIn routes t → Covers parse_cidr address t l → l ≤ k)
    × (route_lookup parse_cidr (λ a. some a) answered address ≡ record {
      vrf = s.vrf;
      prefix = s.prefix;
      nexthop = s.nexthop;
      labels = labels_csv s.labels;
    })
route_lookup-fib_example =
    route_lookup-fib routes answered routes_valid routes_apart routes_answered parse_cidr address
      (λ a. some a) address wide 16 refl (inl refl) wide-Covers

-- The prefix of `wide` in another VRF.
abbrev twin : FibRoute
twin = record wide { vrf = lit "cust"; nexthop = lit "10.0.0.9"; labels = [] }

routes_by_prefix_mixes_example :
    lookup (lit "10.1.0.0/16") (routes_by_prefix (fib_leaves wide ++ fib_leaves twin) [])
    ≡ some (record { vrf = lit "cust"; nh = lit "10.0.0.9"; lbl = labels_csv (16 ∷ 17 ∷ []) })
routes_by_prefix_mixes_example =
    routes_by_prefix_mixes wide twin (unfold lit in refl) refl refl refl

-- Two nodes with a loopback address each.
abbrev on_link : ℕ → Address
on_link n = (lit "eth0", record { ip = 10 ∷ 0 ∷ 0 ∷ n ∷ []; ones = 24 })

abbrev loopback : Address
loopback = (lit "lo", record { ip = 127 ∷ 0 ∷ 0 ∷ 1 ∷ []; ones = 8 })

abbrev addrs : Text → List Address
addrs node = loopback ∷ on_link (if text_eq node (lit "a") then 1 else 2) ∷ []

abbrev two_nodes : Map Text Text
two_nodes = (lit "a", lit "172.31.0.1") ∷ (lit "b", lit "172.31.0.2") ∷ []

abbrev answer : Text → GnmiPath → List Update
answer node p = map ip_leaf (addrs node)

only_b : (n : Text) → IsOwner addrs (lit "10.0.0.2") n two_nodes → n ≡ lit "b"
unfolding known_by ip_string frr_visible.Net.to4 frr_visible.Net.dotted itoa lit text_eq has_prefix
only_b n (inl (e, known)) = cc
only_b n (inr (inl (e, known))) = e
only_b n (inr (inr none_left)) = elim none_left [ ]

ip2node_exact_example :
    (lookup (lit "10.0.0.2") (build_ip2node answer two_nodes []) ≡ some (lit "b"))
    ↔ IsOwner addrs (lit "10.0.0.2") (lit "b") two_nodes
ip2node_exact_example =
    ip2node_exact addrs answer two_nodes (lit "10.0.0.2") (lit "b") (refl, (refl, tt))
      (λ n n' o o'. only_b n o ∙ sym (only_b n' o'))
