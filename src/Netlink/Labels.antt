-- ===== src/Netlink/Labels.antt =====
-- internal/ingest/netlink.go: snapshotMPLS and snapshotAddrs. A route of the label table is what the
-- netlink library decodes: `new_dst` are the labels of an MPLSDestination, and `none` for any other
-- destination; `via` is the address of a Via. A label is an int of the library, cut to 32 bits.
pub mod Lfib
use frr_visible.Base.{
  ℕ, ◌%◌, List, [], ◌∷◌, ◌++◌, Bool, true, false, Option, none, some, if◌then◌else◌, ltb,
}
use frr_visible.Base.Text.{Text, lit, itoa, is_empty}
use frr_visible.Net.{Ip, ip_string}
use frr_visible.Gnmi.{Update, Effect, updates, leaf_update}
use frr_visible.Netlink.Paths.{mpls_elems, addr_elems}
use frr_visible.Netlink.Routes.{IpNet}

pub record MplsRoute : Type 0 where
  pub mpls_dst : Option ℕ
  pub new_dst : Option (List ℕ)
  pub via : Option Ip
  pub gw : Ip
  pub link_index : ℕ

ints_rest : List ℕ → Text
ints_rest [] = []
ints_rest (x ∷ xs) = lit "," ++ (itoa x ++ ints_rest xs)

unfoldable pub ints_csv : List ℕ → Text
unfolding ints_rest
ints_csv [] = []
ints_csv (x ∷ xs) = itoa x ++ ints_rest xs

abbrev pub out_labels : Option (List ℕ) → Text
out_labels none = []
out_labels (some ls) = ints_csv ls

abbrev gw_or_blank : Ip → Text
gw_or_blank gw = if is_empty gw then [] else ip_string gw

abbrev next_hop : Option Ip → Ip → Text
next_hop none gw = gw_or_blank gw
next_hop (some addr) gw = if is_empty addr then gw_or_blank gw else ip_string addr

module _ (link_name : ℕ → Option Text) where
  abbrev link_or_blank : Option Text → Text
  link_or_blank none = []
  link_or_blank (some name) = name

  unfoldable pub out_iface : ℕ → Text
  out_iface i = if ltb 0 i then link_or_blank (link_name i) else []

  -- The leaves of one entry.
  unfoldable pub lfib_updates : ℕ → MplsRoute → List Update
  unfolding mpls_elems ints_csv out_iface
  lfib_updates label r =
      leaf_update (mpls_elems label (lit "in-label")) (itoa label)
      ∷ leaf_update (mpls_elems label (lit "out-label")) (out_labels r.new_dst)
      ∷ leaf_update (mpls_elems label (lit "next-hop")) (next_hop r.via r.gw)
      ∷ leaf_update (mpls_elems label (lit "interface")) (out_iface r.link_index)
      ∷ []

  abbrev lfib_entry : Option ℕ → MplsRoute → List Effect
  lfib_entry none r = []
  lfib_entry (some dst) r = updates (lit "frr") (lfib_updates (dst % 4294967296) r) [] ∷ []

  unfoldable pub mpls_loop : List MplsRoute → List Effect
  unfolding lfib_updates
  mpls_loop [] = []
  mpls_loop (r ∷ rs) = lfib_entry r.mpls_dst r ++ mpls_loop rs

  -- `routes` is what RouteList returns for AF_MPLS.
  unfoldable pub snapshot_mpls : Option (List MplsRoute) → List Effect
  unfolding mpls_loop
  snapshot_mpls none = []
  snapshot_mpls (some rs) = mpls_loop rs

-- What AddrList returns for a link: `none` is its error, and an address without an IPNet is skipped.
abbrev pub Addrs : Type 0
Addrs = Option (List (Option IpNet))

unfoldable pub addr_updates : Text → IpNet → List Update
unfolding addr_elems
addr_updates name a =
    let ip = ip_string a.ip in
    leaf_update (addr_elems name ip (lit "ip")) ip
    ∷ leaf_update (addr_elems name ip (lit "prefix-length")) (itoa a.ones)
    ∷ []

abbrev addr_entry : Text → Option IpNet → List Effect
addr_entry name none = []
addr_entry name (some a) = updates (lit "openconfig") (addr_updates name a) [] ∷ []

unfoldable pub addrs_loop : Text → List (Option IpNet) → List Effect
unfolding addr_updates
addrs_loop name [] = []
addrs_loop name (a ∷ as') = addr_entry name a ++ addrs_loop name as'

abbrev addrs_of : Text → Addrs → List Effect
addrs_of name none = []
addrs_of name (some l) = addrs_loop name l

-- The links by name, each with its addresses.
unfoldable pub link_addrs_loop : List (Text × Addrs) → List Effect
unfolding addrs_loop
link_addrs_loop [] = []
link_addrs_loop ((name, a) ∷ ls) = addrs_of name a ++ link_addrs_loop ls

unfoldable pub snapshot_addrs : Option (List (Text × Addrs)) → List Effect
unfolding link_addrs_loop
snapshot_addrs none = []
snapshot_addrs (some ls) = link_addrs_loop ls
