-- ===== src/Netlink/Fdb.antt =====
-- internal/ingest/netlink.go: neighLoop and snapshotFDB. `link_name` is LinkByIndex followed by the
-- link's name, `none` its error.
use frr_visible.Base.{
  ℕ, ◌%◌, List, [], ◌∷◌, ◌++◌, map, Bool, not, ◌&&◌, ◌||◌, Option, none, some, if◌then◌else◌, ◌==◌,
  length,
}
use frr_visible.Base.Text.{Text, lit, itoa, hex2, join}
use frr_visible.Base.Bytes.{byte_at}
use frr_visible.Gnmi.{Effect, updates, leaf_update}
use frr_visible.Netlink.Paths.{fdb_elems}

pub record Neigh : Type 0 where
  pub family : ℕ
  pub hardware_addr : List ℕ
  pub vlan : ℕ
  pub link_index : ℕ

pub record NeighUpdate : Type 0 where
  pub type : ℕ
  pub neigh : Neigh

-- unix.AF_BRIDGE, unix.RTM_DELNEIGH
abbrev pub af_bridge : ℕ
af_bridge = 7

abbrev pub rtm_delneigh : ℕ
rtm_delneigh = 29

unfoldable pub is_unicast_mac : List ℕ → Bool
is_unicast_mac addr = length addr == 6 && byte_at addr 0 % 2 == 0

-- (HardwareAddr).String
unfoldable pub mac_string : List ℕ → Text
mac_string addr = join (map hex2 addr) (lit ":")

abbrev or_blank : Option Text → Text
or_blank none = []
or_blank (some name) = name

module _ (link_name : ℕ → Option Text) where
  -- What neighLoop and snapshotFDB write for an entry.
  unfoldable pub fdb_add : Neigh → List Effect
  unfolding fdb_elems mac_string
  fdb_add n =
      let mac = mac_string n.hardware_addr in
      let vlan = itoa n.vlan in
      updates (lit "openconfig")
        (leaf_update (fdb_elems mac vlan (lit "mac-address")) mac
          ∷ leaf_update (fdb_elems mac vlan (lit "interface")) (or_blank (link_name n.link_index))
          ∷ [])
        []
      ∷ []

  unfoldable pub neigh_step : NeighUpdate → List Effect
  unfolding is_unicast_mac fdb_add fdb_elems mac_string
  neigh_step u =
      if not (u.neigh.family == af_bridge) || not (is_unicast_mac u.neigh.hardware_addr)
      then []
      else if u.type == rtm_delneigh
      then updates (lit "openconfig") []
          (fdb_elems (mac_string u.neigh.hardware_addr) (itoa u.neigh.vlan) [] ∷ [])
        ∷ []
      else fdb_add u.neigh

  unfoldable pub neigh_loop : List NeighUpdate → List Effect
  unfolding neigh_step
  neigh_loop [] = []
  neigh_loop (u ∷ us) = neigh_step u ++ neigh_loop us

  unfoldable pub fdb_loop : List Neigh → List Effect
  unfolding is_unicast_mac fdb_add
  fdb_loop [] = []
  fdb_loop (n ∷ ns) = (if is_unicast_mac n.hardware_addr then fdb_add n else []) ++ fdb_loop ns

  -- `neighs` is what NeighList returns for the bridges.
  unfoldable pub snapshot_fdb : Option (List Neigh) → List Effect
  unfolding fdb_loop
  snapshot_fdb none = []
  snapshot_fdb (some ns) = fdb_loop ns
