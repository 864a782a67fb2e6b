-- ===== src/Bmp/Writes.antt =====
-- internal/ingest/bmp.go: the paths, writeVPNRoute, writeEVPN and handleEVPN.
pub mod Withdraw
pub mod EvpnWithdraw
use frr_visible.Base.{
  ℕ, ◌+◌, ◌/◌, List, [], ◌∷◌, ◌++◌, Bool, true, false, not, ◌&&◌, ◌||◌, if◌then◌else◌, ltb, leb,
  ◌==◌, length, take, drop,
}
use frr_visible.Base.Bytes.{byte_at, slice}
use frr_visible.Base.Text.{Text, lit, itoa, join, is_empty, text_eq}
use frr_visible.Net.{Ip, ip_string}
use frr_visible.Gnmi.{
  GnmiPath, elem, keyed, Update, leaf_update, with_leaf, Effect, updates, Wiring, emit, observe,
}
use frr_visible.Lineage.{rib_in}
use frr_visible.Bmp.Wire.{format_rd, format_mac}

unfoldable pub neighbor_elems : Text → Text → Text → GnmiPath
neighbor_elems vrf peer leaf =
    elem "network-instances"
    ∷ keyed "network-instance" ((lit "name", vrf) ∷ [])
    ∷ elem "protocols"
    ∷ keyed "protocol" ((lit "identifier", lit "BGP") ∷ (lit "name", lit "bgp") ∷ [])
    ∷ elem "bgp"
    ∷ elem "neighbors"
    ∷ keyed "neighbor" ((lit "neighbor-address", peer) ∷ [])
    ∷ elem "state"
    ∷ record { name = leaf; key = [] }
    ∷ []

unfoldable pub vpn_route_elems : Text → Text → Text → GnmiPath
unfolding with_leaf
vpn_route_elems rd prefix leaf =
    with_leaf
      (elem "bgp-rib"
        ∷ elem "afi-safis"
        ∷ keyed "afi-safi" ((lit "name", lit "l3vpn-ipv4-unicast") ∷ [])
        ∷ elem "routes"
        ∷ keyed "route" ((lit "rd", rd) ∷ (lit "prefix", prefix) ∷ [])
        ∷ [])
      leaf

unfoldable pub evpn_route_elems : Text → Text → Text → Text → GnmiPath
unfolding with_leaf
evpn_route_elems rd rtype key leaf =
    with_leaf
      (elem "bgp-rib"
        ∷ elem "afi-safis"
        ∷ keyed "afi-safi" ((lit "name", lit "l2vpn-evpn") ∷ [])
        ∷ elem "routes"
        ∷ keyed "route" ((lit "rd", rd) ∷ (lit "type", rtype) ∷ (lit "key", key) ∷ [])
        ∷ [])
      leaf

-- "-" for the nil IP.
abbrev next_hop_text : Ip → Text
next_hop_text nh = if is_empty nh then lit "-" else ip_string nh

abbrev peer_detail : Text → Ip → Text
peer_detail rd peer = lit "rd=" ++ (rd ++ (lit " peer=" ++ ip_string peer))

unfoldable pub write_vpn_route : Wiring → Ip → Text → Text → ℕ → Ip → List Text → Bool → List Effect
unfolding vpn_route_elems
write_vpn_route w peer rd prefix label nh rts withdraw =
    observe w prefix rib_in (not withdraw) (peer_detail rd peer)
    ++ (if withdraw
        then updates (lit "frr") [] (vpn_route_elems rd prefix [] ∷ [])
          ∷ emit w (lit "bmp") (lit "vpn-withdraw") prefix (peer_detail rd peer) false
        else emit w (lit "bmp") (lit "vpn-announce") prefix (peer_detail rd peer) false
          ++ updates (lit "frr")
              (leaf_update (vpn_route_elems rd prefix (lit "label")) (itoa label)
                ∷ leaf_update (vpn_route_elems rd prefix (lit "next-hop")) (next_hop_text nh)
                ∷ leaf_update (vpn_route_elems rd prefix (lit "route-target")) (join rts (lit ","))
                ∷ leaf_update (vpn_route_elems rd prefix (lit "peer")) (ip_string peer)
                ∷ [])
              []
            ∷ [])

unfoldable pub write_evpn : Wiring → Ip → Text → Text → Text → Ip → List Text → Bool → List Effect
unfolding evpn_route_elems
write_evpn w peer kind rd key nh rts withdraw =
    let verb = if withdraw then lit "withdraw" else lit "announce" in
    emit w (lit "bmp") (lit "evpn-" ++ (kind ++ (lit "-" ++ verb))) key (peer_detail rd peer) false
    ++ ((if text_eq kind (lit "prefix")
          then observe w key rib_in (not withdraw) (lit "evpn-t5 " ++ peer_detail rd peer)
          else [])
        ++ (if withdraw
            then updates (lit "frr") [] (evpn_route_elems rd kind key [] ∷ []) ∷ []
            else updates (lit "frr")
                (leaf_update (evpn_route_elems rd kind key (lit "next-hop")) (next_hop_text nh)
                  ∷ leaf_update (evpn_route_elems rd kind key (lit "route-target"))
                      (join rts (lit ","))
                  ∷ leaf_update (evpn_route_elems rd kind key (lit "peer")) (ip_string peer)
                  ∷ [])
                []
              ∷ []))

-- The address that follows at `at`, with its length in bits at `at - 1`; "" where there is none.
abbrev pub sized_ip : List ℕ → ℕ → ℕ → Text → Text → Text
sized_ip v at bits absent before =
    let n = bits / 8 in
    if ltb 0 n && leb (at + n) (length v) then before ++ ip_string (slice at (at + n) v) else absent

-- The length of the prefix's address in a type-5 route.
abbrev pub prefix_ip_len : List ℕ → ℕ → ℕ
prefix_ip_len rest plen = if leb 35 (length rest) || ltb 32 plen then 16 else 4

unfoldable pub handle_evpn : Wiring → Ip → ℕ → List ℕ → Ip → List Text → Bool → List Effect
unfolding write_evpn
handle_evpn w peer rtype v nh rts withdraw =
    let rd = format_rd (slice 0 8 v) in
    let mac = format_mac (slice 23 29 v) in
    let plen = byte_at v 22 in
    let rest = drop 23 v in
    if rtype == 2
    then (if ltb (length v) 30
        then []
        else write_evpn w peer (lit "mac") rd (sized_ip v 30 (byte_at v 29) mac (mac ++ lit "/")) nh
            rts withdraw)
    else if rtype == 3
    then (if ltb (length v) 13
        then []
        else write_evpn w peer (lit "imet") rd (sized_ip v 13 (byte_at v 12) [] []) nh rts withdraw)
    else if rtype == 5
    then (if ltb (length v) 23
        then []
        else if ltb (length rest) (prefix_ip_len rest plen)
        then []
        else write_evpn w peer (lit "prefix") rd
            (ip_string (take (prefix_ip_len rest plen) rest) ++ (lit "/" ++ itoa plen)) nh rts
            withdraw)
    else []
