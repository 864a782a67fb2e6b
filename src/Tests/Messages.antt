-- ===== src/Tests/Messages.antt =====
-- internal/ingest/netlink.go on concrete inputs.
use frr_visible.Base.{
  ℕ, ◌-◌, ◌<◌, ◌≡◌, refl, List, [], ◌∷◌, ◌++◌, map, true, false, All, subst, Option, none, some,
  if◌then◌else◌, ◌==◌, arith, inl, inr,
}
use frr_visible.Base.Text.{Text, lit, itoa, text_eq, text_eq_instance}
use frr_visible.Base.Map.{lookup, insert}
use frr_visible.Gnmi.{Wiring, Update, leaf_update, with_leaf}
use frr_visible.Lineage
use frr_visible.Lineage.{
  Tracker, Entry, Hop, present, new, witness, fresh_entry, reconcile, row_of, settle,
}
use frr_visible.Lineage.Live.{IsLive, IsLive-new, observe-IsLive}
use frr_visible.Lineage.Gap.{reports}
use frr_visible.Lineage.Told.{tell}
use frr_visible.PathTrace.{Network, LfibAnswer, mpls_phase}
use frr_visible.PathTrace.Lookups.{mpls_lookup, dissect}
use frr_visible.Netlink.Routes.{Route, RouteUpdate, route_prefix, route_step}
use frr_visible.Netlink.Routes.Confirm.{route_add_confirms, route_del_reports}
use frr_visible.Netlink.Labels.{MplsRoute, lfib_updates, ints_csv, out_iface}
use frr_visible.Netlink.Labels.Lfib.{stack_after, mentions, IsIn, mpls_phase-lfib_updates}

abbrev wired : Wiring
wired = record { cor = true; lin = true }

-- A default route of zebra, added and deleted.
abbrev default_route : Route
default_route = record { family = 2; dst = none; gw = []; table = 254; protocol = 11 }

abbrev added : RouteUpdate
added = record { type = 24; route = default_route }

abbrev removed : RouteUpdate
removed = record { type = 25; route = default_route }

route_add_confirms_example :
    let t' = tell 5 (route_step wired added) (new 100) in
    ((ds : ℕ → Text) (later : ℕ)
      → reports (route_prefix default_route) (reconcile ds later t').1 ≡ false)
    × ((e : Entry) × (lookup (route_prefix default_route) t'.routes ≡ some e)
        × ((row_of e).gap
            ≡ (if present e 1 then [] else if 11 == 11 then lit "orphan-kernel" else [])))
route_add_confirms_example =
    route_add_confirms wired refl 5 (new 100) (IsLive-new 100) added refl refl

-- A tracker that knows the route from FPM only.
abbrev prefix : Text
prefix = lit "0.0.0.0/0"

abbrev hop : Hop
hop = record { present = true; ts = 0; detail = [] }

abbrev pushed : Tracker
pushed = record { routes = (prefix, witness (fresh_entry prefix) 1 hop) ∷ []; grace = 100 }

pushed-observe : Lineage.observe 0 prefix 1 true [] (new 100) ≡ pushed
unfolding Lineage.observe settle new insert lookup lit
pushed-observe = refl

pushed-lookup :
    lookup (route_prefix default_route) pushed.routes ≡ some (witness (fresh_entry prefix) 1 hop)
unfolding lookup text_eq lit route_prefix
pushed-lookup = refl

pushed-IsLive : IsLive pushed
pushed-IsLive =
    subst IsLive pushed-observe (observe-IsLive 0 prefix 1 true [] (new 100) (IsLive-new 100))

pushed-fpm : present (witness (fresh_entry prefix) 1 hop) 1 ≡ true
unfolding witness
pushed-fpm = refl

pushed-flagged : (witness (fresh_entry prefix) 1 hop).flagged ≡ false
unfolding witness
pushed-flagged = refl

pushed-late : 100 < 500 - ((witness (fresh_entry prefix) 1 hop).hops 1).ts
unfolding witness
pushed-late = omega arith

route_del_reports_example :
    reports
      (route_prefix default_route)
      (reconcile (λ n. []) 500 (tell 5 (route_step wired removed) pushed)).1
    ≡ true
route_del_reports_example =
    route_del_reports wired refl 5 pushed pushed-IsLive removed (witness (fresh_entry prefix) 1 hop)
      refl refl pushed-lookup pushed-fpm pushed-flagged (λ n. []) 500 pushed-late

-- Label 16 goes out as 17 and 18 on the interface of index 3.
abbrev eth : ℕ → Option Text
eth i = some (lit "eth0")

abbrev swap_route : MplsRoute
swap_route = record {
  mpls_dst = some 16;
  new_dst = some (17 ∷ 18 ∷ []);
  via = none;
  gw = [];
  link_index = 3;
}

abbrev leaves : List Update
leaves = lfib_updates eth 16 swap_route

abbrev swap_answer : LfibAnswer
swap_answer = record { out_label = ints_csv (17 ∷ 18 ∷ []); nexthop = []; iface = out_iface eth 3 }

all_leaves :
    (link_name : ℕ → Option Text) (label : ℕ) (r : MplsRoute)
    → All (IsIn (lfib_updates link_name label r)) (lfib_updates link_name label r)
unfolding lfib_updates
all_leaves link_name label r =
    (inl refl, (inr (inl refl), (inr (inr (inl refl)), (inr (inr (inr (inl refl))), tt))))

leaves-whole :
    (mentions (lit "out-label") leaves ≡ true)
    × (mentions (lit "next-hop") leaves ≡ true)
    × (mentions (lit "interface") leaves ≡ true)
unfolding mentions lfib_updates leaf_update dissect with_leaf lit text_eq
leaves-whole = (refl, refl, refl)

-- A node that knows this entry only.
abbrev net : Network
net = record {
  ip2node = [];
  route_lookup = λ node dst. record { vrf = []; prefix = []; nexthop = []; labels = [] };
  mpls_lookup = λ node label. mpls_lookup leaves;
}

mpls_phase-lfib_updates_example :
    stack_after (mpls_phase net (lit "a") (itoa 16) (lit "9" ∷ []) 1)
    ≡ some (map itoa (17 ∷ 18 ∷ []) ++ lit "9" ∷ [])
mpls_phase-lfib_updates_example =
    mpls_phase-lfib_updates eth 16 swap_route net (lit "a") (itoa 16) (lit "9" ∷ []) 1 leaves
      (all_leaves eth 16 swap_route) leaves-whole refl refl
