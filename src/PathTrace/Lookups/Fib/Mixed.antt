-- ===== src/PathTrace/Lookups/Fib/Mixed.antt =====
-- cmd/pathtrace-exporter/main.go: routeLookup on a prefix that is in two VRFs.
use frr_visible.Base.{◌≡◌, refl, ap, ap₂, ◌∙◌, [], ◌∷◌, ◌++◌, false, some}
use frr_visible.Base.Text.{Text, is_empty, text_eq_instance}
use frr_visible.Base.Map.{Map, lookup, insert}
use frr_visible.PathTrace.Lookups.Fib.Leaf.{with_nexthop, with_labels, lookup-insert_self}
use frr_visible.Fpm.Attrs.{labels_csv}
use frr_visible.Fpm.Routes.{aft_updates}
use frr_visible.PathTrace.Lookups.{RouteEntry, routes_by_prefix}
use frr_visible.PathTrace.Lookups.Fib.{
  FibRoute, fib_leaves, leaves, nexthop_leaf, labels_leaf, meet_nexthop, meet_labels,
}

fib_leaves_labelled :
    (r : FibRoute) → is_empty r.labels ≡ false → fib_leaves r ≡ nexthop_leaf r ∷ labels_leaf r ∷ []
unfolding fib_leaves leaves aft_updates
fib_leaves_labelled r h = rw h refl

fib_leaves_bare : (s : FibRoute) → s.labels ≡ [] → fib_leaves s ≡ nexthop_leaf s ∷ []
unfolding fib_leaves leaves aft_updates
fib_leaves_bare s h = rw (ap is_empty h) refl

-- Two routes of one prefix that is not empty, the first with labels and the second, in whatever VRF,
-- without: the entry that routeLookup collects has the VRF and the next hop of the second and the
-- labels of the first.
pub routes_by_prefix_mixes :
    (r s : FibRoute)
    → is_empty r.prefix ≡ false
    → s.prefix ≡ r.prefix
    → is_empty r.labels ≡ false
    → s.labels ≡ []
    → lookup r.prefix (routes_by_prefix (fib_leaves r ++ fib_leaves s) [])
      ≡ some (record { vrf = s.vrf; nh = s.nexthop; lbl = labels_csv r.labels })
unfolding routes_by_prefix
routes_by_prefix_mixes r s h same has none_of =
    let m1 : Map Text RouteEntry = insert r.prefix (with_nexthop r (lookup r.prefix [])) [] in
    let v : RouteEntry = with_labels r (lookup r.prefix m1) in
    let m2 : Map Text RouteEntry = insert r.prefix v m1 in
    ap₂ (λ us vs. lookup r.prefix (routes_by_prefix (us ++ vs) [])) (fib_leaves_labelled r has)
      (fib_leaves_bare s none_of)
    ∙ (ap (lookup r.prefix) (
          meet_nexthop r (labels_leaf r ∷ nexthop_leaf s ∷ []) [] h
          ∙ (meet_labels r (nexthop_leaf s ∷ []) m1 h
              ∙ meet_nexthop s [] m2 (ap is_empty same ∙ h)))
        ∙ (ap (λ q. lookup r.prefix (insert q (with_nexthop s (lookup q m2)) m2)) same
            ∙ (lookup-insert_self r.prefix (with_nexthop s (lookup r.prefix m2)) m2
                ∙ ap (λ o. some (with_nexthop s o)) (lookup-insert_self r.prefix v m1))))
