-- ===== src/Fpm/Nexthops.antt =====
-- internal/ingest/fpm.go: nexthop objects, from RTM_NEWNEXTHOP / RTM_DELNEXTHOP to their resolution.
pub mod Resolve
use frr_visible.Base.{
  ℕ, zero, suc, ◌+◌, List, [], ◌∷◌, ◌++◌, Bool, true, false, not, ◌&&◌, ◌||◌, Option, none, some,
  if◌then◌else◌, ltb, leb, ◌==◌, length, drop, nat_eq,
}
use frr_visible.Base.Map.{Map, lookup, insert, delete}
use frr_visible.Base.Outcome.{Outcome, ret, panic, stuck, ◌>>=◌}
use frr_visible.Base.Bytes.{le16, le32}
use frr_visible.Base.Text.{is_empty}
use frr_visible.Net.{Ip}
use frr_visible.Fpm.Attrs.{for_each_attr, parse_mpls_encap}

pub record Nexthop : Type 0 where
  pub gw : Ip
  pub oif : ℕ
  pub group : List ℕ
  pub labels : List ℕ
  pub blackhole : Bool

-- nlHdrLen, rtMsgLen, nhMsgLen
abbrev pub nl_hdr_len : ℕ
nl_hdr_len = 16

abbrev pub rt_msg_len : ℕ
rt_msg_len = 12

abbrev pub nh_msg_len : ℕ
nh_msg_len = 8

-- The variables of handleNexthop that the attributes set.
pub record NexthopAttrs : Type 0 where
  pub id : ℕ
  pub oif : ℕ
  pub gw : Ip
  pub group : List ℕ
  pub labels : List ℕ
  pub encap_type : ℕ
  pub bh : Bool

abbrev pub no_attrs : NexthopAttrs
no_attrs = record { id = 0; oif = 0; gw = []; group = []; labels = []; encap_type = 0; bh = false }

-- The array of nexthop_grp, eight bytes each.
unfoldable pub group_ids : List ℕ → List ℕ
group_ids (a ∷ b ∷ c ∷ d ∷ e ∷ f ∷ g ∷ h ∷ p) = le32 (a ∷ b ∷ c ∷ d ∷ []) 0 ∷ group_ids p
group_ids _ = []

-- The cases NHA_ID, NHA_OIF, NHA_GATEWAY, NHA_BLACKHOLE, NHA_ENCAP_TYPE, NHA_ENCAP and NHA_GROUP.
unfoldable pub nexthop_attr : NexthopAttrs → ℕ → List ℕ → Outcome NexthopAttrs
nexthop_attr s t p =
    if t == 1
    then ret (if leb 4 (length p) then record s { id = le32 p 0 } else s)
    else if t == 5
    then ret (if leb 4 (length p) then record s { oif = le32 p 0 } else s)
    else if t == 6
    then ret (record s { gw = p })
    else if t == 3
    then ret (record s { bh = true })
    else if t == 7
    then ret (if leb 2 (length p) then record s { encap_type = le16 p 0 } else s)
    else if t == 8
    then parse_mpls_encap p >>= (λ labels. ret (record s { labels = labels }))
    else if t == 2
    then ret (record s { group = s.group ++ group_ids p })
    else ret s

-- LWTUNNEL_ENCAP_MPLS; only an MPLS encapsulation carries a label stack.
unfoldable pub push_labels : ℕ → List ℕ → List ℕ
push_labels encap_type labels =
    if not (encap_type == 0) && not (encap_type == 1) then [] else labels

-- The end of handleNexthop: an object with no id changes nothing.
unfoldable pub store_nexthop : NexthopAttrs → Bool → Map ℕ Nexthop → Map ℕ Nexthop
unfolding push_labels
store_nexthop s del nh =
    if s.id == 0
    then nh
    else if del
    then delete s.id nh
    else insert s.id
        (record {
          gw = s.gw;
          oif = s.oif;
          group = s.group;
          labels = push_labels s.encap_type s.labels;
          blackhole = s.bh;
        })
        nh

unfoldable pub handle_nexthop : List ℕ → Bool → Map ℕ Nexthop → Outcome (Map ℕ Nexthop)
unfolding nexthop_attr store_nexthop
handle_nexthop b del nh =
    if ltb (length b) (nl_hdr_len + nh_msg_len)
    then ret nh
    else for_each_attr nexthop_attr (drop (nl_hdr_len + nh_msg_len) b) no_attrs
      >>= (λ s. ret (store_nexthop s del nh))

pub record Resolved : Type 0 where
  pub gw : Ip
  pub oif : ℕ
  pub blackhole : Bool
  pub labels : List ℕ

abbrev pub unresolved : Resolved
unresolved = record { gw = []; oif = 0; blackhole = false; labels = [] }

-- resolveNH. The argument is 5 - depth: `depth > 4` is where none is left.
unfoldable pub resolve_nh : ℕ → Map ℕ Nexthop → ℕ → Resolved
resolve_nh zero nh id = unresolved
resolve_nh (suc left) nh id = elim (lookup id nh) [
  | none ↦ unresolved
  | some n ↦ elim n.blackhole [
    | true ↦ record { gw = []; oif = 0; blackhole = true; labels = [] }
    | false ↦ elim (not (is_empty n.gw) || not (n.oif == 0)) [
      | true ↦ record { gw = n.gw; oif = n.oif; blackhole = false; labels = n.labels }
      | false ↦ elim n.group [ [] ↦ unresolved | m ∷ _ ↦ resolve_nh left nh m ]
    ]
  ]
]
