-- ===== src/Tests/Neighbors.antt =====
-- internal/ingest/lldp.go and cmd/topology-exporter on concrete inputs.
use frr_visible.Base.{◌≡◌, refl, List, [], ◌∷◌, true, some}
use frr_visible.Base.Text.{Text, lit, text_eq, text_eq_instance}
use frr_visible.Base.Map.{Map, lookup, IsDistinct}
use frr_visible.Gnmi.{GnmiPath, Update, elem, string_val}
use frr_visible.Lldp.{Json, str, arr, obj, Fields, end, field, Lldp, parse_lldp, reconcile}
use frr_visible.Lldp.Shapes.{singles, with_names, printed, parse_lldp_shapes}
use frr_visible.Lldp.Cached.{cached, current}
use frr_visible.Lldp.Cached.Reconcile.{kept, reconcile-cached}
use frr_visible.Topology.{is_there, node_offers, edges_of}
use frr_visible.Topology.Graph.{IsGraph, names, edges_of_exact}

-- One neighbor on eth0, whose chassis is keyed by the system's name.
abbrev eth0 : Text
eth0 = lit "eth0"

abbrev chassis : Json
chassis = obj (
    field (lit "leaf1")
      (obj (field (lit "id") (obj (field (lit "value") (str (lit "aa")) end)) end)) end)

abbrev shown : Fields
shown = field eth0 (obj (field (lit "chassis") chassis end)) end

parse_lldp_shapes_example :
    (parse_lldp (printed (arr (singles shown))) ≡ parse_lldp (printed (obj shown)))
    × (parse_lldp (printed (arr (with_names shown))) ≡ parse_lldp (printed (obj shown)))
unfolding lit text_eq
parse_lldp_shapes_example = parse_lldp_shapes shown (refl, refl, tt)

-- The neighbor on eth0 was another one before.
abbrev changed : Lldp
changed = record { seen = (eth0, lit "bb") ∷ [] }

changed-IsDistinct : IsDistinct changed.seen
unfolding lookup
changed-IsDistinct = (refl, tt)

reconcile-cached_example :
    IsDistinct (reconcile (some (printed (obj shown))) changed).0.seen
    × (lookup eth0 (reconcile (some (printed (obj shown))) changed).0.seen
        ≡ current (parse_lldp (printed (obj shown))) eth0)
    × (cached eth0 (lit "bb") (reconcile (some (printed (obj shown))) changed).1 true
        ≡ kept
            (current (parse_lldp (printed (obj shown))) eth0)
            (lookup eth0 changed.seen)
            (lit "bb")
            true)
reconcile-cached_example =
    reconcile-cached (printed (obj shown)) changed eth0 (lit "bb") true changed-IsDistinct

-- The entry of the old neighbor stays in the cache.
old_neighbor_stays :
    cached eth0 (lit "bb") (reconcile (some (printed (obj shown))) changed).1 true ≡ true
unfolding cached reconcile frr_visible.Lldp.reconcile_with frr_visible.Lldp.present_loop parse_lldp
    frr_visible.Lldp.first_obj frr_visible.Lldp.get text_eq lit frr_visible.Lldp.object_loop
    frr_visible.Base.Map.insert frr_visible.Lldp.parse_iface frr_visible.Lldp.has
    frr_visible.Lldp.fill_chassis frr_visible.Lldp.as_str frr_visible.Lldp.gone_loop lookup
    frr_visible.Lldp.as_map frr_visible.Lldp.nbr_updates frr_visible.Lldp.lldp_elems
    frr_visible.Lldp.Cached.any_update frr_visible.Lldp.Cached.any_path
    frr_visible.Lldp.Cached.is_entry frr_visible.PathTrace.Lookups.dissect
    frr_visible.Gnmi.leaf_update
old_neighbor_stays = refl

-- Two nodes that see each other.
abbrev inventory : Map Text Text
inventory = (lit "a", []) ∷ (lit "b", []) ∷ []

abbrev get : Text → GnmiPath → List Update
get node path = record { path = elem "lldp" ∷ []; val = string_val (lit "b") } ∷ []

edges_of_exact_example :
    IsGraph inventory (edges_of inventory get [])
    × ((k : Text)
        → is_there (lookup k (edges_of inventory get []))
          ≡ names inventory k (node_offers inventory get [] inventory))
edges_of_exact_example = edges_of_exact inventory get []
