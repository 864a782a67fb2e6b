-- ===== src/Netlink/Paths.antt =====
-- internal/ingest/netlink.go: the paths that the ingester writes.
use frr_visible.Base.{ℕ, [], ◌∷◌}
use frr_visible.Base.Text.{Text, lit, itoa}
use frr_visible.Gnmi.{GnmiPath, elem, keyed, with_leaf, Update, uint_val_of}

unfoldable pub iface_elems : Text → Text → GnmiPath
unfolding with_leaf
iface_elems name leaf =
    with_leaf (elem "interfaces" ∷ keyed "interface" ((lit "name", name) ∷ []) ∷ []) leaf

unfoldable pub counter_update : Text → Text → ℕ → Update
unfolding uint_val_of
counter_update name leaf v = record {
  path =
      elem "interfaces"
      ∷ keyed "interface" ((lit "name", name) ∷ [])
      ∷ elem "state"
      ∷ elem "counters"
      ∷ record { name = leaf; key = [] }
      ∷ [];
  val = uint_val_of v;
}

unfoldable pub fdb_elems : Text → Text → Text → GnmiPath
unfolding with_leaf
fdb_elems mac vlan leaf =
    with_leaf
      (elem "network-instances"
        ∷ keyed "network-instance" ((lit "name", lit "default") ∷ [])
        ∷ elem "fdb"
        ∷ elem "mac-table"
        ∷ elem "entries"
        ∷ keyed "entry" ((lit "mac-address", mac) ∷ (lit "vlan", vlan) ∷ [])
        ∷ [])
      leaf

unfoldable pub mpls_elems : ℕ → Text → GnmiPath
unfolding with_leaf
mpls_elems label leaf =
    with_leaf (elem "mpls" ∷ elem "lfib" ∷ keyed "entry" ((lit "label", itoa label) ∷ []) ∷ []) leaf

unfoldable pub addr_elems : Text → Text → Text → GnmiPath
unfolding with_leaf
addr_elems ifname ip leaf =
    with_leaf
      (elem "interfaces"
        ∷ keyed "interface" ((lit "name", ifname) ∷ [])
        ∷ elem "subinterfaces"
        ∷ keyed "subinterface" ((lit "index", lit "0") ∷ [])
        ∷ elem "ipv4"
        ∷ elem "addresses"
        ∷ keyed "address" ((lit "ip", ip) ∷ [])
        ∷ [])
      leaf

unfoldable pub route_elems : Text → Text → Text → GnmiPath
unfolding with_leaf
route_elems prefix table leaf =
    with_leaf
      (elem "kernel-fib"
        ∷ elem "routes"
        ∷ keyed "route" ((lit "prefix", prefix) ∷ (lit "table", table) ∷ [])
        ∷ [])
      leaf
