-- ===== src/Netlink/Routes.antt =====
-- internal/ingest/netlink.go: routeLoop, routePrefix and routeProto. A route is what the netlink
-- library decodes; its destination has the mask that net.CIDRMask makes of the prefix length, so its
-- text is the address, a slash and the length.
pub mod Kernel
pub mod Confirm
use frr_visible.Base.{
  ℕ, List, [], ◌∷◌, ◌++◌, Bool, true, false, not, ◌||◌, ◌&&◌, Option, none, some, if◌then◌else◌,
  ◌==◌,
}
use frr_visible.Base.Text.{Text, lit, itoa, is_empty}
use frr_visible.Net.{Ip, ip_string}
use frr_visible.Gnmi.{Effect, updates, leaf_update, Wiring, emit, observe}
use frr_visible.Lineage.{kernel}
use frr_visible.Netlink.Paths.{route_elems}

-- net.IPNet
pub record IpNet : Type 0 where
  pub ip : Ip
  pub ones : ℕ

unfoldable pub net_string : IpNet → Text
net_string n = ip_string n.ip ++ (lit "/" ++ itoa n.ones)

pub record Route : Type 0 where
  pub family : ℕ
  pub dst : Option IpNet
  pub gw : Ip
  pub table : ℕ
  pub protocol : ℕ

pub record RouteUpdate : Type 0 where
  pub type : ℕ
  pub route : Route

-- unix.AF_INET, unix.AF_INET6, unix.RTM_DELROUTE
abbrev pub af_inet : ℕ
af_inet = 2

abbrev pub af_inet6 : ℕ
af_inet6 = 10

abbrev pub rtm_delroute : ℕ
rtm_delroute = 25

abbrev pub dst_text : ℕ → Option IpNet → Text
dst_text family none = if family == af_inet6 then lit "::/0" else lit "0.0.0.0/0"
dst_text family (some n) = net_string n

unfoldable pub route_prefix : Route → Text
unfolding net_string
route_prefix r = dst_text r.family r.dst

-- RTPROT_KERNEL, RTPROT_BOOT, RTPROT_STATIC, 11, RTPROT_BGP and RTPROT_OSPF.
unfoldable pub route_proto : ℕ → Text
route_proto p =
    if p == 2
    then lit "kernel"
    else if p == 3
    then lit "boot"
    else if p == 4
    then lit "static"
    else if p == 11
    then lit "zebra"
    else if p == 186
    then lit "bgp"
    else if p == 188
    then lit "ospf"
    else itoa p

abbrev pub gw_text : Ip → Text
gw_text gw = if is_empty gw then lit "-" else ip_string gw

abbrev pub add_detail : Route → Text
add_detail r =
    lit "proto="
    ++ (route_proto r.protocol ++ (lit " nh=" ++ (gw_text r.gw ++ (lit " table=" ++ itoa r.table))))

-- One round of routeLoop behind its two tests.
unfoldable pub route_del : Wiring → Text → Text → List Effect
unfolding route_elems
route_del w prefix table =
    updates (lit "frr") [] (route_elems prefix table [] ∷ [])
    ∷ (emit w (lit "netlink") (lit "kernel-route-del") prefix (lit "table=" ++ table) false
        ++ observe w prefix kernel false (lit "table=" ++ table))

unfoldable pub route_add : Wiring → Text → Text → Route → List Effect
unfolding route_elems route_proto
route_add w prefix table r =
    updates (lit "frr")
      (leaf_update (route_elems prefix table (lit "next-hop")) (gw_text r.gw)
        ∷ leaf_update (route_elems prefix table (lit "protocol")) (route_proto r.protocol)
        ∷ [])
      []
    ∷ (emit w (lit "netlink") (lit "kernel-route-add") prefix (add_detail r) false
        ++ observe w prefix kernel true (add_detail r))

unfoldable pub route_step : Wiring → RouteUpdate → List Effect
unfolding route_prefix route_del route_add
route_step w u =
    let prefix = route_prefix u.route in
    if not (u.route.family == af_inet) && not (u.route.family == af_inet6)
    then []
    else if is_empty prefix
    then []
    else if u.type == rtm_delroute
    then route_del w prefix (itoa u.route.table)
    else route_add w prefix (itoa u.route.table) u.route

-- The messages of the channel, in order.
unfoldable pub route_loop : Wiring → List RouteUpdate → List Effect
unfolding route_step
route_loop w [] = []
route_loop w (u ∷ us) = route_step w u ++ route_loop w us
