-- ===== src/Topology/Paths.antt =====
-- cmd/topology-exporter/main.go: the paths that render asks for.
use frr_visible.Base.{[], ◌∷◌}
use frr_visible.Base.Text.{lit}
use frr_visible.Gnmi.{GnmiPath, elem, keyed}

unfoldable pub lldp_path : GnmiPath
lldp_path =
    elem "lldp"
    ∷ elem "interfaces"
    ∷ keyed "interface" ((lit "name", lit "*") ∷ [])
    ∷ elem "neighbors"
    ∷ keyed "neighbor" ((lit "id", lit "*") ∷ [])
    ∷ elem "state"
    ∷ elem "system-name"
    ∷ []

unfoldable pub ospf_path : GnmiPath
ospf_path =
    elem "network-instances"
    ∷ keyed "network-instance" ((lit "name", lit "*") ∷ [])
    ∷ elem "protocols"
    ∷ keyed "protocol" ((lit "identifier", lit "*") ∷ (lit "name", lit "*") ∷ [])
    ∷ elem "ospfv2"
    ∷ elem "areas"
    ∷ keyed "area" ((lit "identifier", lit "*") ∷ [])
    ∷ elem "interfaces"
    ∷ keyed "interface" ((lit "id", lit "*") ∷ [])
    ∷ elem "neighbors"
    ∷ keyed "neighbor" ((lit "router-id", lit "*") ∷ [])
    ∷ elem "state"
    ∷ elem "adjacency-state"
    ∷ []

unfoldable pub bgp_path : GnmiPath
bgp_path =
    elem "network-instances"
    ∷ keyed "network-instance" ((lit "name", lit "*") ∷ [])
    ∷ elem "protocols"
    ∷ keyed "protocol" ((lit "identifier", lit "*") ∷ (lit "name", lit "*") ∷ [])
    ∷ elem "bgp"
    ∷ elem "neighbors"
    ∷ keyed "neighbor" ((lit "neighbor-address", lit "*") ∷ [])
    ∷ elem "state"
    ∷ elem "session-state"
    ∷ []

unfoldable pub lfib_path : GnmiPath
lfib_path =
    elem "mpls" ∷ elem "lfib" ∷ keyed "entry" ((lit "label", lit "*") ∷ []) ∷ elem "state" ∷ []

unfoldable pub fdb_path : GnmiPath
fdb_path =
    elem "network-instances"
    ∷ keyed "network-instance" ((lit "name", lit "*") ∷ [])
    ∷ elem "fdb"
    ∷ elem "mac-table"
    ∷ elem "entries"
    ∷ keyed "entry" ((lit "mac-address", lit "*") ∷ (lit "vlan", lit "*") ∷ [])
    ∷ elem "state"
    ∷ []
