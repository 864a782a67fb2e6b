-- ===== src/Tests/Walks.antt =====
-- internal/ingest/ospf.go and cmd/pathtrace-exporter on concrete inputs.
use frr_visible.Base.{
  ℕ, ◌≡◌, refl, ◌↔◌, List, [], ◌∷◌, Bool, true, false, Option, none, some, arith, ◌<◌, ◌≤◌, ◌+◌,
  ◌++◌, length,
}
use frr_visible.Base.Text.{Text, lit, text_eq, text_eq_instance, text_eq_iff}
use frr_visible.Base.Map.{Map, lookup, IsDistinct}
use frr_visible.Gnmi.{Wiring}
use frr_visible.Ospf.Runs.{run, nothing_tracked}
use frr_visible.Ospf.{Session, parse_ospf_nbrs, Neighbor, Ospf, reconcile_with}
use frr_visible.Ospf.Snapshot.{IsTracked, state_of}
use frr_visible.Ospf.Transitions.{kinds, change, reconcile_reports}
use frr_visible.PathTrace.{Network, RouteAnswer, LfibAnswer, max_rounds, trace}
use frr_visible.PathTrace.Forward.{Reaches}
use frr_visible.PathTrace.Walk.{Numbered, trace-Reaches, trace-Numbered}
use frr_visible.Gnmi.{Update, elem, keyed, string_val}
use frr_visible.PathTrace.Lookups.{parse_inventory, Cidr, route_lookup, routes_by_prefix}
use frr_visible.PathTrace.Lookups.Longest.{Matches, here, there}

abbrev wired : Wiring
wired = record { cor = true; lin = true }

-- Two router ids.
abbrev r1 : Text
r1 = b'1' ∷ []

abbrev r2 : Text
r2 = b'2' ∷ []

abbrev eth0 : Text
eth0 = b'e' ∷ []

-- Both were full; now the first is in another state and the second is gone.
abbrev before : Ospf
before = record {
  seen = (r1, eth0) ∷ (r2, eth0) ∷ [];
  st = (r1, lit "FULL") ∷ (r2, lit "FULL") ∷ [];
}

abbrev snapshot : Map Text Neighbor
snapshot = (r1, record { router_id = r1; iface = eth0; addr = r1; state = lit "Init/DROther" }) ∷ []

snapshot-IsDistinct : IsDistinct snapshot
unfolding lookup
snapshot-IsDistinct = (refl, tt)

before-IsTracked : IsTracked before
unfolding lookup text_eq
before-IsTracked = record { distinct = (refl, (refl, tt)); stated = λ r. ground arith }

-- A read that fails, a list that does not parse, and a list with one session.
abbrev root : Map Text (List Session)
root =
    (
      r1,
      record {
        nbr_state = lit "Full/DR";
        converged = lit "Full";
        iface_name = eth0;
        iface_address = r1;
      }
          ∷ [],
    )
    ∷ (r2, [])
    ∷ []

root_stated : (run wired (some (some root) ∷ []) nothing_tracked).st ≡ (r1, lit "FULL") ∷ []
unfolding run frr_visible.Ospf.reconcile frr_visible.Base.Map.insert lit frr_visible.Ospf.adj_state
    text_eq frr_visible.Base.Text.cut_byte
root_stated = refl

reconcile_reports_example :
    kinds r2 (reconcile_with wired snapshot before).1
    ≡ change (lookup r2 before.st) (state_of (lookup r2 snapshot))
reconcile_reports_example =
    reconcile_reports wired refl snapshot before r2 snapshot-IsDistinct before-IsTracked

-- Two nodes; the first pushes a label that the second pops into a VRF.
abbrev addr : Text
addr = b'9' ∷ []

abbrev network : Network
network = record {
  ip2node = (addr, r2) ∷ (eth0, r2) ∷ [];
  route_lookup = λ node dst. record { vrf = []; prefix = dst; nexthop = eth0; labels = b'8' ∷ [] };
  mpls_lookup = λ node label. record { out_label = []; nexthop = []; iface = b'v' ∷ [] };
}

trace-Reaches_example :
    ((trace network r1 addr).1 ≡ true) ↔ ((k : ℕ) × (k < 24) × Reaches network addr k r1 [])
trace-Reaches_example = trace-Reaches network addr r1

trace-Numbered_example :
    Numbered network addr 1 (trace network r1 addr).0
    × (length (trace network r1 addr).0 ≤ max_rounds + 1)
trace-Numbered_example = trace-Numbered network addr r1

network_reached : (trace network r1 addr).1 ≡ true
unfolding trace frr_visible.PathTrace.trace_loop frr_visible.PathTrace.round text_eq lookup
    frr_visible.Base.Text.split
network_reached = refl

-- Of the prefixes, "8" is eight bits long and "9" nine, and both match every address.
abbrev cidr_of : Text → Option Cidr
cidr_of [] = none
cidr_of (c ∷ _) = some (record { ones = c; contains = λ a. true })

abbrev next_hop_update : Text → Update
next_hop_update pfx = record {
  path = keyed "ipv4-entry" ((lit "prefix", pfx) ∷ []) ∷ elem "state" ∷ elem "next-hop" ∷ [];
  val = string_val eth0;
}

abbrev updates : List Update
updates = next_hop_update (9 ∷ []) ∷ next_hop_update (8 ∷ []) ∷ []

eight_listed :
    Matches cidr_of addr
      (routes_by_prefix updates [])
      8
      (record { vrf = []; prefix = 8 ∷ []; nexthop = eth0; labels = [] })
unfolding routes_by_prefix frr_visible.PathTrace.Lookups.match_of lookup frr_visible.Base.Map.insert
    text_eq lit
eight_listed = there _ _ _ _ (here _ _ _ _ _ refl refl)

inventory_read :
    parse_inventory (λ s. s) (lit "a=1,=2,b,c=3=4") ≡ (lit "a", lit "1") ∷ (lit "c", lit "3=4") ∷ []
unfolding parse_inventory frr_visible.Base.Text.split lit frr_visible.Base.Text.cut_byte
    frr_visible.Base.Map.insert text_eq
inventory_read = refl
