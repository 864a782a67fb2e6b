-- ===== src/Netlink/Snapshot.antt =====
-- internal/ingest/netlink.go: the full state at the start and a round of the counter loop.
use frr_visible.Base.{ℕ, List, [], ◌++◌, Option, none, some}
use frr_visible.Base.Text.{Text}
use frr_visible.Gnmi.{Effect}
use frr_visible.Netlink.Links.{Link, links_loop, sample_counters}
use frr_visible.Netlink.Fdb.{Neigh, snapshot_fdb}
use frr_visible.Netlink.Labels.{MplsRoute, Addrs, snapshot_mpls, snapshot_addrs}

-- The kernel, as the netlink library's calls show it during a snapshot: LinkList as `links` and, for
-- the later call in snapshotAddrs, as `addrs`; LinkByIndex, NeighList and RouteList.
pub record Kernel : Type 0 where
  pub links : Option (List Link)
  pub addrs : Option (List (Text × Addrs))
  pub link_name : ℕ → Option Text
  pub neighs : Option (List Neigh)
  pub routes : Option (List MplsRoute)

-- One tick of counterLoop.
unfoldable pub counter_tick : Kernel → List Effect
counter_tick k =
    sample_counters k.links ++ (snapshot_mpls k.link_name k.routes ++ snapshot_addrs k.addrs)

abbrev snapshot_links : Kernel → Option (List Link) → List Effect
snapshot_links k none = []
snapshot_links k (some ls) =
    links_loop ls
    ++ (sample_counters k.links
        ++ (snapshot_fdb k.link_name k.neighs
            ++ (snapshot_mpls k.link_name k.routes ++ snapshot_addrs k.addrs)))

unfoldable pub snapshot : Kernel → List Effect
unfolding links_loop sample_counters snapshot_fdb snapshot_mpls snapshot_addrs
snapshot k = snapshot_links k k.links
