-- ===== src/Ospf.antt =====
-- internal/ingest/ospf.go: the OSPF neighbors, reconciled from a snapshot of vtysh. The output of the
-- command is an argument, after json.Unmarshal: the neighbors by router id, each with a list of
-- sessions; `none` stands for a failed unmarshal, and for a failed command in `reconcile`.
pub mod Runs
pub mod Snapshot
pub mod Transitions
pub mod Triggers
use frr_visible.Base.{
  ℕ, ◌+◌, List, [], ◌∷◌, ◌++◌, map, Bool, true, false, ◌&&◌, not, Option, none, some, if◌then◌else◌,
  leb, ◌==◌,
}
use frr_visible.Base.Text.{Text, lit, is_empty, cut_byte, text_eq, text_eq_instance}
use frr_visible.Base.Map.{Map, lookup, insert, delete}
use frr_visible.Gnmi.{GnmiPath, elem, keyed, with_leaf, leaf_update, Effect, updates, Wiring, emit}

-- One element of the JSON array of a router id.
pub record Session : Type 0 where
  pub nbr_state : Text
  pub converged : Text
  pub iface_name : Text
  pub iface_address : Text

-- `ospfNbr` of the source.
pub record Neighbor : Type 0 where
  pub router_id : Text
  pub iface : Text
  pub addr : Text
  pub state : Text

pub record Ospf : Type 0 where
  pub seen : Map Text Text
  pub st : Map Text Text

-- The text before the first byte `b`, or all of it.
unfoldable pub up_to : ℕ → Text → Text
up_to b s = elim (cut_byte b s) [ none ↦ s | some (before, _) ↦ before ]

unfoldable pub neighbor_of : Text → Session → Neighbor
neighbor_of rid n = record {
  router_id = rid;
  iface = up_to b':' n.iface_name;
  addr = n.iface_address;
  state = if is_empty n.converged then n.nbr_state else n.converged;
}

abbrev pub add_neighbor : Text → List Session → Map Text Neighbor → Map Text Neighbor
add_neighbor rid [] res = res
add_neighbor rid (n ∷ _) res = insert rid (neighbor_of rid n) res

unfoldable pub parse_loop : Map Text (List Session) → Map Text Neighbor → Map Text Neighbor
parse_loop [] res = res
parse_loop ((rid, arr) ∷ root) res = parse_loop root (add_neighbor rid arr res)

unfoldable pub parse_ospf_nbrs : Option (Map Text (List Session)) → Map Text Neighbor
unfolding parse_loop neighbor_of
parse_ospf_nbrs none = []
parse_ospf_nbrs (some root) = parse_loop root []

unfoldable pub adj_state : Text → Text
unfolding up_to
adj_state s =
    let head = up_to b'/' s in
    if text_eq head (lit "Full")
    then lit "FULL"
    else if text_eq head (lit "2-Way")
    then lit "TWO_WAY"
    else if text_eq head (lit "Init")
    then lit "INIT"
    else if text_eq head (lit "Down")
    then lit "DOWN"
    else if text_eq head (lit "ExStart")
    then lit "EXCHANGE_START"
    else if text_eq head (lit "Exchange")
    then lit "EXCHANGE"
    else if text_eq head (lit "Loading")
    then lit "LOADING"
    else if text_eq head (lit "Attempt")
    then lit "ATTEMPT"
    else lit "UNKNOWN"

-- lc
unfoldable pub lower : Text → Text
lower s = map (λ c. if leb b'A' c && leb c b'Z' then c + 32 else c) s

unfoldable pub ospf_nbr_elems : Text → Text → Text → GnmiPath
unfolding with_leaf
ospf_nbr_elems iface rid leaf =
    with_leaf
      (elem "network-instances"
        ∷ keyed "network-instance" ((lit "name", lit "default") ∷ [])
        ∷ elem "protocols"
        ∷ keyed "protocol" ((lit "identifier", lit "OSPF") ∷ (lit "name", lit "ospf") ∷ [])
        ∷ elem "ospfv2"
        ∷ elem "areas"
        ∷ keyed "area" ((lit "identifier", lit "0.0.0.0") ∷ [])
        ∷ elem "interfaces"
        ∷ keyed "interface" ((lit "id", iface) ∷ [])
        ∷ elem "neighbors"
        ∷ keyed "neighbor" ((lit "router-id", rid) ∷ [])
        ∷ [])
      leaf

-- A transition of a neighbor that was there before, and nothing for a neighbor first seen.
unfoldable pub transition : Wiring → Text → Text → Text → Option Text → List Effect
unfolding lower
transition w rid iface new none = []
transition w rid iface new (some old) =
    if text_eq old new
    then []
    else emit w (lit "ospf") (lit "adj-" ++ lower new) rid
        (lit "if=" ++ (iface ++ (lit " " ++ (old ++ (lit "->" ++ new))))) true

abbrev nbr_updates : Text → Neighbor → List Effect
nbr_updates rid n =
    updates (lit "openconfig")
      (leaf_update (ospf_nbr_elems n.iface rid (lit "adjacency-state")) (adj_state n.state)
        ∷ leaf_update (ospf_nbr_elems n.iface rid (lit "neighbor-address")) n.addr
        ∷ [])
      []
    ∷ []

module _ (w : Wiring) where
  -- The loop over the current neighbors: the new `seen`, the new `st` and the calls.
  unfoldable pub present_loop :
      Map Text Neighbor
      → Map Text Text
      → Map Text Text
      → record { seen : Map Text Text; st : Map Text Text; calls : List Effect }
  present_loop [] seen st = record { seen = seen; st = st; calls = [] }
  present_loop ((rid, n) ∷ cur) seen st =
      let rest = present_loop cur (insert rid n.iface seen) (insert rid (adj_state n.state) st) in
      record {
        seen = rest.seen;
        st = rest.st;
        calls =
            nbr_updates rid n
            ++ (transition w rid n.iface (adj_state n.state) (lookup rid st) ++ rest.calls);
      }

  -- The loop over the neighbors seen last time.
  unfoldable pub gone_loop :
      Map Text Text → Map Text Text → Map Text Text → Map Text Text × List Effect
  gone_loop [] seen st = (st, [])
  gone_loop ((rid, iface) ∷ old) seen st = elim (lookup rid seen) [
    | some _ ↦ gone_loop old seen st
    | none ↦
        let (st', calls) = gone_loop old seen (delete rid st) in
        (
          st',
          updates (lit "openconfig") [] (ospf_nbr_elems iface rid [] ∷ [])
              ∷ (emit w (lit "ospf") (lit "adj-down") rid
                    (lit "if=" ++ (iface ++ lit " neighbor gone")) true
                  ++ calls),
        )
  ]

  unfoldable pub reconcile_with : Map Text Neighbor → Ospf → Ospf × List Effect
  unfolding present_loop gone_loop
  reconcile_with cur o =
      let now = present_loop cur [] o.st in
      let (st', gone) = gone_loop o.seen now.seen now.st in
      (record { seen = now.seen; st = st' }, now.calls ++ gone)

  unfoldable pub reconcile : Option (Option (Map Text (List Session))) → Ospf → Ospf × List Effect
  unfolding parse_ospf_nbrs reconcile_with
  reconcile none o = (o, [])
  reconcile (some out) o = reconcile_with (parse_ospf_nbrs out) o
