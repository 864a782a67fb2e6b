-- ===== src/PathTrace/Lookups.antt =====
-- cmd/pathtrace-exporter/main.go: routeLookup, mplsLookup and buildIP2Node over what `get` returns for
-- a node and a path, and parseInventory. `get`, which asks the node's gNMI server, is an argument, as
-- are net.ParseCIDR with IPNet.Contains, net.ParseIP with To4, and strings.TrimSpace.
pub mod Longest
pub mod Fib
pub mod Owners
use frr_visible.Base.{
  ℕ, zero, suc, List, [], ◌∷◌, ◌++◌, Bool, true, false, ◌&&◌, ◌||◌, not, Option, none, some,
  if◌then◌else◌, ltb, ◌==◌,
}
use frr_visible.Base.Text.{
  Text, lit, is_empty, text_eq, text_eq_instance, itoa, split, cut_byte, has_prefix,
}
use frr_visible.Base.Map.{Map, lookup, insert}
use frr_visible.Gnmi.{
  PathElem, elem, keyed, GnmiPath, TypedValue, string_val, uint_val, json_ietf_val, json_val,
  other_val, Update,
}
use frr_visible.PathTrace.{RouteAnswer, LfibAnswer, Network}

unfoldable pub addr_path : GnmiPath
addr_path =
    elem "interfaces"
    ∷ keyed "interface" ((lit "name", lit "*") ∷ [])
    ∷ elem "subinterfaces"
    ∷ keyed "subinterface" ((lit "index", lit "0") ∷ [])
    ∷ elem "ipv4"
    ∷ elem "addresses"
    ∷ keyed "address" ((lit "ip", lit "*") ∷ [])
    ∷ elem "state"
    ∷ elem "ip"
    ∷ []

unfoldable pub afts_path : GnmiPath
afts_path =
    elem "network-instances"
    ∷ keyed "network-instance" ((lit "name", lit "*") ∷ [])
    ∷ elem "afts"
    ∷ elem "ipv4-unicast"
    ∷ keyed "ipv4-entry" ((lit "prefix", lit "*") ∷ [])
    ∷ elem "state"
    ∷ []

unfoldable pub lfib_path : Text → GnmiPath
lfib_path label =
    elem "mpls" ∷ elem "lfib" ∷ keyed "entry" ((lit "label", label) ∷ []) ∷ elem "state" ∷ []

insert_all : Map Text Text → Map Text Text → Map Text Text
insert_all [] keys = keys
insert_all ((k, v) ∷ kvs) keys = insert_all kvs (insert k v keys)

dissect_loop : GnmiPath → Map Text Text → Text → Map Text Text × Text
dissect_loop [] keys leaf = (keys, leaf)
dissect_loop (e ∷ p) keys leaf = dissect_loop p (insert_all e.key keys) e.name

-- All keys of the path, and the name of its last element.
unfoldable pub dissect : GnmiPath → Map Text Text × Text
unfolding insert_all dissect_loop
dissect p = dissect_loop p [] []

trim_left : ℕ → Text → Text
trim_left q [] = []
trim_left q (c ∷ s) = let rest = trim_left q s in if c == q then rest else c ∷ s

trim_right : ℕ → Text → Text
trim_right q [] = []
trim_right q (c ∷ s) = let rest = trim_right q s in if is_empty rest && c == q then [] else c ∷ rest

-- strings.Trim(s, `"`)
unfoldable pub trim_quotes : Text → Text
unfolding trim_left trim_right
trim_quotes s = trim_right b'"' (trim_left b'"' s)

unfoldable pub sval : TypedValue → Text
sval (string_val s) = s
sval (json_ietf_val s) = trim_quotes s
sval (json_val s) = trim_quotes s
sval (uint_val n) = itoa n
sval other_val = []

abbrev pub key_or_empty : Option Text → Text
key_or_empty none = []
key_or_empty (some s) = s

unfoldable pub lfib_loop : List Update → LfibAnswer → LfibAnswer
unfolding dissect sval
lfib_loop [] r = r
lfib_loop (u ∷ us) r =
    let leaf = (dissect u.path).1 in
    lfib_loop us (
      if text_eq leaf (lit "out-label")
      then record r { out_label = sval u.val }
      else if text_eq leaf (lit "next-hop")
      then record r { nexthop = sval u.val }
      else if text_eq leaf (lit "interface")
      then record r { iface = sval u.val }
      else r)

-- `ent` of the source.
pub record RouteEntry : Type 0 where
  pub vrf : Text
  pub nh : Text
  pub lbl : Text

abbrev entry_or_blank : Option RouteEntry → RouteEntry
entry_or_blank none = record { vrf = []; nh = []; lbl = [] }
entry_or_blank (some e) = e

unfoldable pub route_leaf : Map Text Text → Text → TypedValue → RouteEntry → RouteEntry
unfolding sval
route_leaf keys leaf val e =
    if text_eq leaf (lit "next-hop")
    then record e { nh = sval val; vrf = key_or_empty (lookup (lit "name") keys) }
    else if text_eq leaf (lit "pushed-mpls-label-stack")
    then record e { lbl = sval val }
    else e

-- The first loop of routeLookup: what the updates say of each prefix.
unfoldable pub routes_by_prefix : List Update → Map Text RouteEntry → Map Text RouteEntry
unfolding dissect route_leaf
routes_by_prefix [] m = m
routes_by_prefix (u ∷ us) m =
    let (keys, leaf) = dissect u.path in
    let pfx = key_or_empty (lookup (lit "prefix") keys) in
    routes_by_prefix us (
      if is_empty pfx
      then m
      else insert pfx (route_leaf keys leaf u.val (entry_or_blank (lookup pfx m))) m)

-- What net.ParseCIDR returns for a prefix that is one: its length, and which addresses it contains.
pub record Cidr : Type 0 where
  pub ones : ℕ
  pub contains : Text → Bool

-- `best` and the four results; `none` is best = -1.
abbrev pub Best : Type 0
Best = Option (ℕ × RouteAnswer)

module _ (parse_cidr : Text → Option Cidr) where
  -- The prefix matches the address, and its entry says something.
  unfoldable pub match_of : Text → Text → RouteEntry → Option ℕ
  match_of di pfx e = if is_empty e.nh && is_empty e.lbl then none else elim (parse_cidr pfx) [
    | none ↦ none
    | some c ↦ if c.contains di then some c.ones else none
  ]

  abbrev pub better : Option ℕ → RouteAnswer → Best → Best
  better none r best = best
  better (some ones) r none = some (ones, r)
  better (some ones) r (some (b, old)) = if ltb b ones then some (ones, r) else some (b, old)

  abbrev pub answer_of : Text → RouteEntry → RouteAnswer
  answer_of pfx e = record { vrf = e.vrf; prefix = pfx; nexthop = e.nh; labels = e.lbl }

  -- The second loop of routeLookup.
  unfoldable pub best_loop : Text → Map Text RouteEntry → Best → Best
  unfolding match_of
  best_loop di [] best = best
  best_loop di ((pfx, e) ∷ m) best =
      best_loop di m (better (match_of di pfx e) (answer_of pfx e) best)

  abbrev pub no_answer : RouteAnswer
  no_answer = record { vrf = []; prefix = []; nexthop = []; labels = [] }

  abbrev pub result : Best → RouteAnswer
  result none = no_answer
  result (some (ones, r)) = r

  -- `parse_v4` is net.ParseIP followed by To4.
  unfoldable pub route_lookup : (Text → Option Text) → List Update → Text → RouteAnswer
  unfolding routes_by_prefix best_loop
  route_lookup parse_v4 ups dst = elim (parse_v4 dst) [
    | none ↦ no_answer
    | some di ↦ result (best_loop di (routes_by_prefix ups []) none)
  ]

unfoldable pub mpls_lookup : List Update → LfibAnswer
unfolding lfib_loop
mpls_lookup ups = lfib_loop ups (record { out_label = []; nexthop = []; iface = [] })

node_addresses : Text → List Update → Map Text Text → Map Text Text
unfolding dissect
node_addresses node [] m = m
node_addresses node (u ∷ us) m =
    let ip = key_or_empty (lookup (lit "ip") (dissect u.path).0) in
    node_addresses node us (
      if is_empty ip || (has_prefix ip (lit "127.") || has_prefix ip (lit "172.31."))
      then m
      else insert ip node m)

module _ (get : Text → GnmiPath → List Update) where
  -- `inventory` is the nodes that the exporter knows, with their addresses.
  unfoldable pub build_ip2node : Map Text Text → Map Text Text → Map Text Text
  unfolding node_addresses addr_path
  build_ip2node [] m = m
  build_ip2node ((node, _) ∷ inventory) m =
      build_ip2node inventory (node_addresses node (get node addr_path) m)

  -- What the walk of the source runs on.
  unfoldable pub network : (Text → Option Cidr) → (Text → Option Text) → Map Text Text → Network
  unfolding build_ip2node route_lookup mpls_lookup afts_path lfib_path
  network parse_cidr parse_v4 inventory = record {
    ip2node = build_ip2node inventory [];
    route_lookup = λ node dst. route_lookup parse_cidr parse_v4 (get node afts_path) dst;
    mpls_lookup = λ node label. mpls_lookup (get node (lfib_path label));
  }

module _ (trim_space : Text → Text) where
  abbrev add_node : Option (Text × Text) → Map Text Text → Map Text Text
  add_node none m = m
  add_node (some (name, addr)) m = if is_empty name then m else insert name addr m

  inventory_loop : List Text → Map Text Text → Map Text Text
  inventory_loop [] m = m
  inventory_loop (kv ∷ kvs) m = inventory_loop kvs (add_node (cut_byte b'=' (trim_space kv)) m)

  unfoldable pub parse_inventory : Text → Map Text Text
  unfolding inventory_loop
  parse_inventory s = inventory_loop (split s b',') []
