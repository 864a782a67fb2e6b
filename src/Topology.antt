-- ===== src/Topology.antt =====
-- cmd/topology-exporter/main.go: the graph that render builds from what `get` returns for the nodes, and
-- the lines that it writes. dissect, sval and buildIP2Node are the same text as in the path-trace
-- exporter. Text that EqualFold compares is ASCII.
pub mod Paths
pub mod Graph
pub mod Lines
use frr_visible.Base.{
  ℕ, ◌-◌, List, [], ◌∷◌, ◌++◌, Bool, true, false, not, ◌&&◌, ◌||◌, Option, none, some,
  if◌then◌else◌, leb, length, drop, ◌+◌, map,
}
use frr_visible.Base.Text.{Text, lit, is_empty, text_eq, text_eq_instance, text_gt, split}
use frr_visible.Base.Map.{Map, lookup, insert}
use frr_visible.Gnmi.{GnmiPath, Update}
use frr_visible.PathTrace.Lookups.{dissect, sval}
use frr_visible.Topology.Paths.{lldp_path, ospf_path, bgp_path, lfib_path, fdb_path}

pub record Edge : Type 0 where
  pub layer : Text
  pub src : Text
  pub dst : Text
  pub detail : Text

-- A call of addEdge or addPseudo.
pub data Offer : Type 0 where
  add_edge : Text → Text → Text → Text → Offer
  add_pseudo : Text → Text → Text → Offer

-- m[k] of a map of strings
abbrev pub or_blank : Option Text → Text
or_blank none = []
or_blank (some s) = s

abbrev pub at_key : Text → Map Text Text → Text
at_key k m = or_blank (lookup k m)

abbrev pub is_there {ℓ} : {A : Type ℓ} → Option A → Bool
is_there none = false
is_there (some a) = true

-- strings.HasSuffix
unfoldable pub has_suffix : Text → Text → Bool
has_suffix s k = leb (length k) (length s) && text_eq (drop (length s - length k) s) k

abbrev pub key_of : Text → Text → Text → Text
key_of layer x y = layer ++ (lit "|" ++ (x ++ (lit "|" ++ y)))

-- The edge between two nodes, the lesser name first.
unfoldable pub edge_of : Text → Text → Text → Text → Edge
edge_of layer a b detail = record {
  layer = layer;
  src = if text_gt a b then b else a;
  dst = if text_gt a b then a else b;
  detail = detail;
}

abbrev pub edge_key : Edge → Text
edge_key e = key_of e.layer e.src e.dst

-- An edge is kept, but for one whose detail is the default.
abbrev pub keeps : Option Edge → Bool
keeps none = false
keeps (some prev) = not (has_suffix prev.detail (lit "=default"))

unfoldable pub put_edge : Edge → Map Text Edge → Map Text Edge
put_edge e edges = if keeps (lookup (edge_key e) edges) then edges else insert (edge_key e) e edges

-- addPseudo keeps every edge that is there.
unfoldable pub put_pseudo : Edge → Map Text Edge → Map Text Edge
put_pseudo e edges =
    if is_there (lookup (edge_key e) edges) then edges else insert (edge_key e) e edges

-- ifacePeer
abbrev pub other_part : Text → List Text → Text
other_part self [] = []
other_part self (part ∷ parts) =
    let rest = other_part self parts in
    if not (is_empty part) && not (text_eq part self) then part else rest

unfoldable pub iface_peer : Text → Text → Text
iface_peer iface self = other_part self (split iface b'-')

-- niName
unfoldable pub ni_name : GnmiPath → Text
ni_name [] = []
ni_name (e ∷ p) =
    let rest = ni_name p in
    if text_eq e.name (lit "network-instance") then at_key (lit "name") e.key else rest

-- strings.EqualFold on ASCII
abbrev upper : ℕ → ℕ
upper c = if leb b'a' c && leb c b'z' then c - 32 else c

unfoldable pub equal_fold : Text → Text → Bool
equal_fold s t = text_eq (map upper s) (map upper t)

unfoldable pub lldp_offers : Text → List Update → List Offer
lldp_offers node [] = []
lldp_offers node (u ∷ us) =
    add_edge (lit "physical") node (sval u.val) (lit "lldp") ∷ lldp_offers node us

abbrev first_nonblank : Text → Text → Text
first_nonblank s t = if is_empty s then t else s

-- The maps `nh` and `oif` from the updates of the label table.
abbrev hop_leaf : Text → Text → Text → Map Text Text × Map Text Text → Map Text Text × Map Text Text
hop_leaf leaf label v (nh, oif) =
    if text_eq leaf (lit "next-hop")
    then (insert label v nh, oif)
    else if text_eq leaf (lit "interface")
    then (nh, insert label v oif)
    else (nh, oif)

unfoldable pub hops_loop :
    List Update → Map Text Text × Map Text Text → Map Text Text × Map Text Text
hops_loop [] hops = hops
hops_loop (u ∷ us) hops =
    hops_loop us
      (hop_leaf (dissect u.path).1 (at_key (lit "label") (dissect u.path).0) (sval u.val) hops)

module _ (ip2node : Map Text Text) (node : Text) where
  unfoldable pub ospf_offers : List Update → List Offer
  ospf_offers [] = []
  ospf_offers (u ∷ us) =
      let rest = ospf_offers us in
      let keys = (dissect u.path).0 in
      let peer =
        first_nonblank (iface_peer (at_key (lit "id") keys) node)
          (at_key (at_key (lit "router-id") keys) ip2node) in
      if equal_fold (sval u.val) (lit "FULL")
      then add_edge (lit "ospf") node peer (lit "area") ∷ rest
      else rest

  unfoldable pub bgp_offers : List Update → List Offer
  bgp_offers [] = []
  bgp_offers (u ∷ us) =
      let rest = bgp_offers us in
      let peer = at_key (at_key (lit "neighbor-address") (dissect u.path).0) ip2node in
      if equal_fold (sval u.val) (lit "ESTABLISHED")
      then add_edge (lit "bgp") node peer (lit "vrf=" ++ ni_name u.path) ∷ rest
      else rest

  unfoldable pub hop_offers : Map Text Text → Map Text Text → List Offer
  hop_offers [] oif = []
  hop_offers ((lbl, hop) ∷ nh) oif =
      let peer = first_nonblank (at_key hop ip2node) (iface_peer (at_key lbl oif) node) in
      add_edge (lit "mpls") node peer (lit "lsp") ∷ hop_offers nh oif

  unfoldable pub mpls_offers : List Update → List Offer
  mpls_offers us = let (nh, oif) = hops_loop us ([], []) in hop_offers nh oif

abbrev skips_vlan : Text → Text → Bool
skips_vlan vlan mac =
    is_empty vlan || (text_eq vlan (lit "0") || (text_eq vlan (lit "1") || is_empty mac))

unfoldable pub vlan_offers : Text → List Update → List Offer
vlan_offers node [] = []
vlan_offers node (u ∷ us) =
    let rest = vlan_offers node us in
    let keys = (dissect u.path).0 in
    let vlan = at_key (lit "vlan") keys in
    let mac = at_key (lit "mac-address") keys in
    if not (text_eq (dissect u.path).1 (lit "mac-address")) || skips_vlan vlan mac
    then rest
    else add_pseudo node (lit "vlan:" ++ vlan) (lit "member")
      ∷ add_pseudo (lit "vlan:" ++ vlan) (lit "mac:" ++ mac) (lit "learned")
      ∷ rest

module _ (inventory : Map Text Text) where
  abbrev pub is_node : Text → Bool
  is_node a = is_there (lookup a inventory)

  -- The early returns of addEdge and addPseudo.
  unfoldable pub accepts : Offer → Bool
  accepts (add_edge layer a b detail) = is_node a && (is_node b && not (text_eq a b))
  accepts (add_pseudo a b detail) = not (is_empty a) && (not (is_empty b) && not (text_eq a b))

  unfoldable pub offer : Offer → Map Text Edge → Map Text Edge
  offer (add_edge layer a b detail) edges =
      if accepts (add_edge layer a b detail)
      then put_edge (edge_of layer a b detail) edges
      else edges
  offer (add_pseudo a b detail) edges =
      if accepts (add_pseudo a b detail)
      then put_pseudo (edge_of (lit "vlan") a b detail) edges
      else edges

  unfoldable pub offer_all : List Offer → Map Text Edge → Map Text Edge
  offer_all [] edges = edges
  offer_all (o ∷ os) edges = offer_all os (offer o edges)

  -- The loop over the nodes, with the nodes still to visit.
  unfoldable pub node_offers :
      (Text → GnmiPath → List Update) → Map Text Text → Map Text Text → List Offer
  node_offers get ip2node [] = []
  node_offers get ip2node ((node, _) ∷ nodes) =
      lldp_offers node (get node lldp_path)
      ++ (ospf_offers ip2node node (get node ospf_path)
          ++ (bgp_offers ip2node node (get node bgp_path)
              ++ (mpls_offers ip2node node (get node lfib_path)
                  ++ (vlan_offers node (get node fdb_path) ++ node_offers get ip2node nodes))))

  unfoldable pub edges_of : (Text → GnmiPath → List Update) → Map Text Text → Map Text Edge
  edges_of get ip2node = offer_all (node_offers get ip2node inventory) []
