-- ===== src/Bmp/Updates.antt =====
-- internal/ingest/bmp.go: parseUpdate and handleMP. The path attributes are a slice into the message
-- body: `mem` has the bytes from its start to the end of its capacity, and `len` is its length. Reading
-- `attrs[2:4]` panics where the capacity is below four.
pub mod Attributes
pub mod Loops
pub mod Evpn
use frr_visible.Base.{
  ℕ, zero, suc, ◌+◌, ◌-◌, List, [], ◌∷◌, ◌++◌, Bool, true, false, not, ◌&&◌, ◌||◌, Option, none,
  some, if◌then◌else◌, ltb, leb, ◌==◌, length, take, drop,
}
use frr_visible.Base.Outcome.{Outcome, ret, panic, stuck, ◌>>=◌}
use frr_visible.Base.Bytes.{byte_at, slice, be16, has_bit}
use frr_visible.Base.Text.{Text}
use frr_visible.Net.{Ip}
use frr_visible.Gnmi.{Effect, Wiring}
use frr_visible.Bmp.Wire.{Nlri, parse_vpn_nlri, parse_rts, mp_next_hop}
use frr_visible.Bmp.Writes.{write_vpn_route, handle_evpn}

-- bgpHdrLen
abbrev pub bgp_hdr_len : ℕ
bgp_hdr_len = 19

-- The variables that the attributes set; `none` is the nil slice.
pub record PathAttrs : Type 0 where
  pub mp_reach : Option (List ℕ)
  pub mp_unreach : Option (List ℕ)
  pub rts : List Text

abbrev pub no_path_attrs : PathAttrs
no_path_attrs = record { mp_reach = none; mp_unreach = none; rts = [] }

unfoldable pub path_attr : ℕ → List ℕ → PathAttrs → PathAttrs
path_attr atype val s =
    if atype == 14
    then record s { mp_reach = some val }
    else if atype == 15
    then record s { mp_unreach = some val }
    else if atype == 16
    then record s { rts = parse_rts val }
    else s

-- The header and the value of the attribute at the front, as two lengths.
unfoldable pub attr_size : List ℕ → ℕ × ℕ
attr_size mem = if has_bit 16 (byte_at mem 0) then (4, be16 mem 2) else (3, byte_at mem 2)

unfoldable pub path_attrs : ℕ → List ℕ → ℕ → PathAttrs → Outcome PathAttrs
path_attrs zero mem len s = stuck
path_attrs (suc f) mem len s =
    let (hdr, alen) = attr_size mem in
    let s' = path_attr (byte_at mem 1) (slice hdr (hdr + alen) mem) s in
    elim (ltb len 3) [
      | true ↦ ret s
      | false ↦ elim (has_bit 16 (byte_at mem 0) && ltb (length mem) 4) [
        | true ↦ panic
        | false ↦ elim (ltb len (hdr + alen)) [
          | true ↦ ret s
          | false ↦ path_attrs f (drop (hdr + alen) mem) (len - (hdr + alen)) s'
        ]
      ]
    ]

-- `for len(p) > 0` over VPN-IPv4 NLRIs.
unfoldable pub vpn_loop : ℕ → Wiring → Ip → List ℕ → Ip → List Text → Bool → Outcome (List Effect)
vpn_loop zero w peer p nh rts withdraw = stuck
vpn_loop (suc f) w peer p nh rts withdraw =
    let r = parse_vpn_nlri p in
    elim (ltb 0 (length p) && not (r.consumed == 0)) [
      | false ↦ ret []
      | true ↦ vpn_loop f w peer (drop r.consumed p) nh rts withdraw >>= λ more.
          ret (write_vpn_route w peer r.rd r.prefix r.label nh rts withdraw ++ more)
    ]

-- `for len(p) >= 2` over EVPN NLRIs.
unfoldable pub evpn_loop : ℕ → Wiring → Ip → List ℕ → Ip → List Text → Bool → Outcome (List Effect)
evpn_loop zero w peer p nh rts withdraw = stuck
evpn_loop (suc f) w peer p nh rts withdraw =
    let l = byte_at p 1 in
    elim (leb 2 (length p) && not (l == 0 || ltb (length p) (2 + l))) [
      | false ↦ ret []
      | true ↦ evpn_loop f w peer (drop (2 + l) p) nh rts withdraw >>= λ more.
          ret (handle_evpn w peer (byte_at p 0) (slice 2 (2 + l) p) nh rts withdraw ++ more)
    ]

-- The NLRIs of handleMP, behind the next hop.
unfoldable pub mp_nlris :
    Wiring → Ip → Bool → List ℕ → Ip → List Text → Bool → Outcome (List Effect)
unfolding vpn_loop evpn_loop
mp_nlris w peer is_vpn p nh rts withdraw =
    if is_vpn
    then vpn_loop (suc (length p)) w peer p nh rts withdraw
    else evpn_loop (suc (length p)) w peer p nh rts withdraw

unfoldable pub handle_mp : Wiring → Ip → List ℕ → List Text → Bool → Outcome (List Effect)
unfolding mp_nlris
handle_mp w peer v rts withdraw =
    let afi = be16 v 0 in
    let safi = byte_at v 2 in
    let is_vpn = afi == 1 && safi == 128 in
    let is_evpn = afi == 25 && safi == 70 in
    let p = drop 3 v in
    let nh_len = byte_at p 0 in
    let p1 = drop 1 p in
    let p2 = drop nh_len p1 in
    if ltb (length v) 3
    then ret []
    else if not is_vpn && not is_evpn
    then ret []
    else if withdraw
    then mp_nlris w peer is_vpn p [] rts withdraw
    else if ltb (length p) 1
    then ret []
    else if ltb (length p1) nh_len
    then ret []
    else if ltb (length p2) 1
    then ret []
    else mp_nlris w peer is_vpn (drop 1 p2) (mp_next_hop (take nh_len p1) is_vpn) rts withdraw

abbrev if_some : Option (List ℕ) → (List ℕ → Outcome (List Effect)) → Outcome (List Effect)
if_some none h = ret []
if_some (some v) h = h v

-- The end of parseUpdate.
unfoldable pub handle_attrs : Wiring → Ip → PathAttrs → Outcome (List Effect)
unfolding handle_mp
handle_attrs w peer s = if_some s.mp_reach (λ v. handle_mp w peer v s.rts false) >>= λ reached.
    if_some s.mp_unreach (λ v. handle_mp w peer v [] true) >>= λ withdrawn.
    ret (reached ++ withdrawn)

unfoldable pub parse_update : Wiring → Ip → List ℕ → Outcome (List Effect)
unfolding path_attrs handle_attrs
parse_update w peer m =
    let p = drop bgp_hdr_len m in
    let w_len = be16 p 0 in
    let p1 = drop 2 p in
    let p2 = drop w_len p1 in
    let pa_len = be16 p2 0 in
    let p3 = drop 2 p2 in
    if ltb (length m) bgp_hdr_len || not (byte_at m 18 == 2)
    then ret []
    else if ltb (length p) 2
    then ret []
    else if ltb (length p1) (w_len + 2)
    then ret []
    else if ltb (length p3) pa_len
    then ret []
    else path_attrs (suc pa_len) p3 pa_len no_path_attrs >>= handle_attrs w peer
