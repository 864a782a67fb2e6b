-- ===== src/Fpm/Routes.antt =====
-- internal/ingest/fpm.go: routes (RTM_NEWROUTE / RTM_DELROUTE) and the dispatch on netlink messages.
-- What LinkList returns during a message is the argument `links`.
pub mod Afts
use frr_visible.Base.{
  ℕ, zero, suc, ◌+◌, ◌-◌, List, [], ◌∷◌, ◌++◌, Bool, true, false, not, ◌&&◌, ◌||◌, Option, none,
  some, if◌then◌else◌, ltb, leb, ◌==◌, length, take, drop, nat_eq,
}
use frr_visible.Base.Map.{Map}
use frr_visible.Base.Outcome.{Outcome, ret, panic, stuck, ◌>>=◌}
use frr_visible.Base.Bytes.{byte_at, le16, le32, be16}
use frr_visible.Base.Text.{Text, lit, itoa, is_empty, text_eq}
use frr_visible.Net.{Ip, to4, ip_string, copied}
use frr_visible.Gnmi.{
  GnmiPath, elem, keyed, Update, TypedValue, str_val, Effect, updates, Wiring, emit, observe,
  PathElem,
}
use frr_visible.Vrf
use frr_visible.Lineage.{fpm}
use frr_visible.Fpm.Attrs.{for_each_attr, parse_mpls_encap, labels_csv}
use frr_visible.Fpm.Nexthops.{
  Nexthop, nl_hdr_len, rt_msg_len, push_labels, handle_nexthop, resolve_nh, Resolved, unresolved,
}

pub record Fpm : Type 0 where
  pub nh : Map ℕ Nexthop
  pub vrf : Map ℕ Text

abbrev or_nil : Option Ip → Ip
or_nil none = []
or_nil (some ip) = ip

-- formatPrefix for AF_INET, AF_INET6 and any other family.
unfoldable pub format_prefix : ℕ → Ip → ℕ → Text × Text
unfolding copied
format_prefix family dst dst_len =
    if family == 2
    then (ip_string (copied 4 (or_nil (to4 dst))) ++ (lit "/" ++ itoa dst_len), lit "ipv4-unicast")
    else if family == 10
    then (ip_string (copied 16 dst) ++ (lit "/" ++ itoa dst_len), lit "ipv6-unicast")
    else ([], [])

unfoldable pub aft_path : Text → Text → Text → Text → GnmiPath
aft_path vrf af_name prefix leaf =
    let entry =
      if text_eq af_name (lit "ipv6-unicast") then lit "ipv6-entry" else lit "ipv4-entry" in
    elem "network-instances"
    ∷ keyed "network-instance" ((lit "name", vrf) ∷ [])
    ∷ elem "afts"
    ∷ record { name = af_name; key = [] }
    ∷ record { name = entry; key = (lit "prefix", prefix) ∷ [] }
    ∷ elem "state"
    ∷ record { name = leaf; key = [] }
    ∷ []

-- The variables of handleRoute that the attributes set.
pub record RouteAttrs : Type 0 where
  pub dst : Ip
  pub gw : Ip
  pub oif : ℕ
  pub rta_tbl : ℕ
  pub nhid : ℕ
  pub encap_labels : List ℕ
  pub encap_type : ℕ

abbrev pub no_route_attrs : RouteAttrs
no_route_attrs = record {
  dst = [];
  gw = [];
  oif = 0;
  rta_tbl = 0;
  nhid = 0;
  encap_labels = [];
  encap_type = 0;
}

-- The cases RTA_DST, RTA_GATEWAY, RTA_OIF, RTA_TABLE, RTA_ENCAP_TYPE, RTA_ENCAP and RTA_NH_ID.
unfoldable pub route_attr : RouteAttrs → ℕ → List ℕ → Outcome RouteAttrs
route_attr s t p =
    if t == 1
    then ret (record s { dst = p })
    else if t == 5
    then ret (record s { gw = p })
    else if t == 4
    then ret (if leb 4 (length p) then record s { oif = le32 p 0 } else s)
    else if t == 15
    then ret (if leb 4 (length p) then record s { rta_tbl = le32 p 0 } else s)
    else if t == 21
    then ret (if leb 2 (length p) then record s { encap_type = le16 p 0 } else s)
    else if t == 22
    then parse_mpls_encap p >>= (λ labels. ret (record s { encap_labels = labels }))
    else if t == 30
    then ret (if leb 4 (length p) then record s { nhid = le32 p 0 } else s)
    else ret s

-- Where the route has a nexthop id and no gateway of its own, its gateway comes from the object.
unfoldable pub route_nexthop : Map ℕ Nexthop → ℕ → RouteAttrs → Resolved
route_nexthop nh rt_type s =
    let dropped = rt_type == 6 || (rt_type == 7 || rt_type == 8) in
    let pushed = push_labels s.encap_type s.encap_labels in
    let r = resolve_nh 5 nh s.nhid in
    if is_empty s.gw && not (s.nhid == 0)
    then record {
      gw = r.gw;
      oif = if r.oif == 0 then s.oif else r.oif;
      blackhole = dropped || r.blackhole;
      labels = if is_empty pushed then r.labels else pushed;
    }
    else record { gw = s.gw; oif = s.oif; blackhole = dropped; labels = pushed }

unfoldable pub nexthop_text : Resolved → Text
nexthop_text r =
    if r.blackhole then lit "blackhole" else if is_empty r.gw then lit "-" else ip_string r.gw

-- The calls on the cache at the end of handleRoute.
unfoldable pub aft_updates : Text → Text → Text → Text → List ℕ → Bool → List Effect
unfolding aft_path
aft_updates vrf af_name prefix nh_str labels del =
    let nh_path = aft_path vrf af_name prefix (lit "next-hop") in
    let lbl_path = aft_path vrf af_name prefix (lit "pushed-mpls-label-stack") in
    let nh_up : Update = record { path = nh_path; val = str_val nh_str } in
    let lbl_up : Update = record { path = lbl_path; val = str_val (labels_csv labels) } in
    if del
    then updates (lit "openconfig") [] (nh_path ∷ lbl_path ∷ []) ∷ []
    else if is_empty labels
    then updates (lit "openconfig") [] (lbl_path ∷ [])
      ∷ updates (lit "openconfig") (nh_up ∷ []) []
      ∷ []
    else updates (lit "openconfig") (nh_up ∷ lbl_up ∷ []) [] ∷ []

-- handleRoute once the attributes are read.
unfoldable pub finish_route :
    Option (List (ℕ × Text)) → Wiring → List ℕ → Bool → RouteAttrs → Fpm → Fpm × List Effect
unfolding format_prefix route_nexthop nexthop_text aft_updates
finish_route links w rtm del s f =
    let table = if s.rta_tbl == 0 then byte_at rtm 4 else s.rta_tbl in
    let (prefix, af_name) = format_prefix (byte_at rtm 0) s.dst (byte_at rtm 1) in
    let r = route_nexthop f.nh (byte_at rtm 7) s in
    let nh_str = nexthop_text r in
    let (vrf, names) = Vrf.name links table f.vrf in
    let detail = lit "vrf=" ++ (vrf ++ (lit " nh=" ++ nh_str)) in
    if is_empty prefix then (f, []) else (
      record f { vrf = names },
      emit w (lit "fpm") (if del then lit "route-del" else lit "route-add") prefix detail false
          ++ (observe w prefix fpm (not del) detail
              ++ aft_updates vrf af_name prefix nh_str r.labels del),
    )

unfoldable pub handle_route :
    Option (List (ℕ × Text)) → Wiring → List ℕ → Bool → Fpm → Outcome (Fpm × List Effect)
unfolding route_attr finish_route
handle_route links w b del f =
    let rtm = drop nl_hdr_len b in
    if ltb (length b) (nl_hdr_len + rt_msg_len)
    then ret (f, [])
    else for_each_attr route_attr (drop rt_msg_len rtm) no_route_attrs
      >>= (λ s. ret (finish_route links w rtm del s f))

abbrev with_nexthops : Fpm → Map ℕ Nexthop → Fpm × List Effect
with_nexthops f nh = (record f { nh = nh }, [])

unfoldable pub handle_netlink :
    Option (List (ℕ × Text)) → Wiring → List ℕ → Fpm → Outcome (Fpm × List Effect)
handle_netlink links w b f =
    let kind = le16 b 4 in
    if ltb (length b) nl_hdr_len
    then ret (f, [])
    else if kind == 104
    then handle_nexthop b false f.nh >>= (λ nh. ret (with_nexthops f nh))
    else if kind == 105
    then handle_nexthop b true f.nh >>= (λ nh. ret (with_nexthops f nh))
    else if kind == 24
    then handle_route links w b false f
    else if kind == 25
    then handle_route links w b true f
    else ret (f, [])
