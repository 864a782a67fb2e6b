-- ===== src/PathTrace.antt =====
-- cmd/pathtrace-exporter/main.go: the walk of a flow through the network (`trace`, `nodeOf`). The two
-- lookups that it makes at a node are functions of the node and of what is looked up, so the tables
-- stand still during one walk; PathTrace.Lookups has those of the source.
pub mod Forward
pub mod Lookups
pub mod Walk
pub mod Report
pub mod Client
use frr_visible.Base.{
  ℕ, zero, suc, ◌+◌, List, [], ◌∷◌, ◌++◌, Bool, true, false, ◌&&◌, not, Option, none, some,
  if◌then◌else◌,
}
use frr_visible.Base.Text.{Text, lit, is_empty, split, join, text_eq, text_eq_instance}
use frr_visible.Base.Map.{Map, lookup}

pub record Hop : Type 0 where
  pub seq : ℕ
  pub node : Text
  pub kind : Text
  pub nexthop : Text
  pub label : Text
  pub detail : Text

-- The results of routeLookup and mplsLookup.
pub record RouteAnswer : Type 0 where
  pub vrf : Text
  pub prefix : Text
  pub nexthop : Text
  pub labels : Text

pub record LfibAnswer : Type 0 where
  pub out_label : Text
  pub nexthop : Text
  pub iface : Text

pub record Network : Type 0 where
  pub ip2node : Map Text Text
  pub route_lookup : Text → Text → RouteAnswer
  pub mpls_lookup : Text → Text → LfibAnswer

-- m[k] of a map of strings: "" for a missing key.
abbrev or_empty : Option Text → Text
or_empty none = []
or_empty (some s) = s

unfoldable pub node_or_empty : Network → Text → Text
node_or_empty net ip = or_empty (lookup ip net.ip2node)

abbrev pub unknown : Text
unknown = b'?' ∷ []

abbrev or_unknown : Option Text → Text
or_unknown none = unknown
or_unknown (some n) = n

unfoldable pub node_of : Network → Text → Text
node_of net ip = or_unknown (lookup ip net.ip2node)

-- What one round of the loop does: it returns after a last hop, or it goes on after one.
pub data Round : Type 0 where
  stop : Hop → Bool → Round
  move : Hop → Text → List Text → Round

unfoldable pub arrived : Network → Text → Text → List Text → Bool
unfolding node_or_empty
arrived net dst node stack = text_eq (node_or_empty net dst) node && is_empty stack

unfoldable pub ip_phase : Network → Text → Text → ℕ → Round
unfolding node_of
ip_phase net dst node seq =
    let r = net.route_lookup node dst in
    let detail = lit "vrf=" ++ (r.vrf ++ (lit " " ++ r.prefix)) in
    if is_empty r.nexthop && (is_empty r.labels && is_empty r.prefix)
    then stop
        (record {
          seq = seq;
          node = node;
          kind = lit "drop";
          nexthop = [];
          label = [];
          detail = lit "no route to " ++ dst;
        })
        false
    else if is_empty r.labels
    then move
        (record {
          seq = seq;
          node = node;
          kind = lit "ip";
          nexthop = r.nexthop;
          label = [];
          detail = detail;
        })
        (node_of net r.nexthop) []
    else move
        (record {
          seq = seq;
          node = node;
          kind = lit "ip-push";
          nexthop = r.nexthop;
          label = r.labels;
          detail = detail;
        })
        (node_of net r.nexthop) (split r.labels b',')

abbrev if_detail : Text → List Text → Text
if_detail iface stack = lit "if=" ++ (iface ++ (lit " stack[" ++ (join stack (lit " ") ++ lit "]")))

unfoldable pub mpls_phase : Network → Text → Text → List Text → ℕ → Round
unfolding node_of
mpls_phase net node top rest seq =
    let r = net.mpls_lookup node top in
    let swapped = split r.out_label b',' ++ rest in
    if is_empty r.out_label && (is_empty r.nexthop && is_empty r.iface)
    then stop
        (record {
          seq = seq;
          node = node;
          kind = lit "drop";
          nexthop = [];
          label = [];
          detail = lit "no LFIB entry for label " ++ top;
        })
        false
    else if not (is_empty r.out_label)
    then move
        (record {
          seq = seq;
          node = node;
          kind = lit "mpls-swap";
          nexthop = r.nexthop;
          label = top ++ (lit "->" ++ r.out_label);
          detail = if_detail r.iface swapped;
        })
        (node_of net r.nexthop) swapped
    else if not (is_empty r.nexthop)
    then move
        (record {
          seq = seq;
          node = node;
          kind = lit "mpls-pop-php";
          nexthop = r.nexthop;
          label = top;
          detail = if_detail r.iface rest;
        })
        (node_of net r.nexthop) rest
    else move
        (record {
          seq = seq;
          node = node;
          kind = lit "mpls-pop-vrf";
          nexthop = [];
          label = top;
          detail = lit "-> VRF " ++ r.iface;
        })
        node rest

abbrev phase : Network → Text → Text → List Text → ℕ → Round
phase net dst node [] seq = ip_phase net dst node seq
phase net dst node (top ∷ rest) seq = mpls_phase net node top rest seq

unfoldable pub round : Network → Text → Text → List Text → ℕ → Round
unfolding arrived ip_phase mpls_phase
round net dst node stack seq =
    if arrived net dst node stack
    then stop
        (record {
          seq = seq;
          node = node;
          kind = lit "dest";
          nexthop = [];
          label = [];
          detail = lit "destination " ++ (dst ++ lit " reached");
        })
        true
    else phase net dst node stack seq

abbrev lost_hop : ℕ → Hop
lost_hop seq = record {
  seq = seq;
  node = lit "?";
  kind = lit "drop";
  nexthop = [];
  label = [];
  detail = lit "next-hop not in inventory";
}

-- The loop with `rounds` still to run.
unfoldable pub trace_loop : Network → Text → ℕ → Text → List Text → ℕ → List Hop × Bool
trace_loop net dst zero node stack seq = ([], false)
trace_loop net dst (suc rounds) node stack seq = elim (round net dst node stack seq) [
  | stop h reached ↦ (h ∷ [], reached)
  | move h node' stack' ↦ elim (text_eq node' unknown) [
    | true ↦ (h ∷ lost_hop (seq + 1) ∷ [], false)
    | false ↦
        let (hops, reached) = trace_loop net dst rounds node' stack' (seq + 1) in
        (h ∷ hops, reached)
  ]
]

abbrev pub max_rounds : ℕ
max_rounds = 24

unfoldable pub trace : Network → Text → Text → List Hop × Bool
trace net start dst = trace_loop net dst max_rounds start [] 1
