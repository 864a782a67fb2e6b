-- ===== src/Bmp/Updates/Evpn.antt =====
-- internal/ingest/bmp.go: the wire form (RFC 7432 and RFC 9136) of the routes that handleEVPN knows, and
-- what is written of each.
pub mod Fields
pub mod Handle
pub mod Stream
use frr_visible.Base.{
  ℕ, zero, suc, ◌+◌, ◌-◌, ◌*◌, ◌/◌, ◌<◌, ◌≤◌, ◌≡◌, refl, sym, ap, subst, ◌∙◌, ◌⊎◌, inl, inr, List,
  [], ◌∷◌, ◌++◌, Bool, true, false, not, ◌&&◌, ◌||◌, if◌then◌else◌, ltb, leb, ◌==◌, length, get_or,
  take, drop, All, arith, length-append, append_assoc, append-nil, take-length-append,
  drop-length-append,
}
use frr_visible.Base.Outcome.{ret, ◌>>=◌}
use frr_visible.Base.Bytes.{byte_at, slice}
use frr_visible.Base.Text.{Text, lit, itoa, is_empty}
use frr_visible.Net.{Ip, ip_string}
use frr_visible.Gnmi.{Effect, Wiring}
use frr_visible.Bmp.Wire.{format_rd, format_mac}
use frr_visible.Bmp.Writes.{write_evpn, handle_evpn, sized_ip, prefix_ip_len}
use frr_visible.Bmp.Updates.{evpn_loop, mp_nlris}
use frr_visible.Bmp.Updates.Loops.{evpn_go, evpn_round}

-- The routes that handleEVPN knows: type 2, type 3 and type 5. `segment` is the Ethernet segment and the
-- tag, which are not read.
pub data Evpn : Type 0 where
  mac_ip : (rd segment mac : List ℕ) → (ip labels : List ℕ) → Evpn
  imet : (rd tag ip : List ℕ) → Evpn
  prefix : (rd segment : List ℕ) → (plen : ℕ) → (ip gateway label : List ℕ) → Evpn

unfoldable pub encode_value : Evpn → List ℕ
encode_value (mac_ip rd segment mac ip labels) =
    rd ++ (segment ++ 48 ∷ (mac ++ (8 * length ip) ∷ (ip ++ labels)))
encode_value (imet rd tag ip) = rd ++ (tag ++ (8 * length ip) ∷ ip)
encode_value (prefix rd segment plen ip gateway label) =
    rd ++ (segment ++ plen ∷ (ip ++ (gateway ++ label)))

abbrev pub route_type : Evpn → ℕ
route_type (mac_ip rd segment mac ip labels) = 2
route_type (imet rd tag ip) = 3
route_type (prefix rd segment plen ip gateway label) = 5

unfoldable pub encode_evpn : Evpn → List ℕ
unfolding encode_value
encode_evpn e = route_type e ∷ length (encode_value e) ∷ encode_value e

abbrev pub IsEvpn : Evpn → Type 0
IsEvpn (mac_ip rd segment mac ip labels) =
    (length rd ≡ 8)
    × (length segment ≡ 14)
    × (length mac ≡ 6)
    × (length ip ≤ 16)
    × (length labels ≤ 6)
IsEvpn (imet rd tag ip) = (length rd ≡ 8) × (length tag ≡ 4) × (length ip ≤ 16)
IsEvpn (prefix rd segment plen ip gateway label) =
    (length rd ≡ 8)
    × (length segment ≡ 14)
    × (length label ≡ 3)
    × (length gateway ≡ length ip)
    × ((length ip ≡ 4) × (plen ≤ 32) ⊎ (length ip ≡ 16) × (plen ≤ 128))

-- What is written of a route: its kind and its key.
abbrev pub kind_of : Evpn → Text
kind_of (mac_ip rd segment mac ip labels) = lit "mac"
kind_of (imet rd tag ip) = lit "imet"
kind_of (prefix rd segment plen ip gateway label) = lit "prefix"

abbrev pub key_of : Evpn → Text
key_of (mac_ip rd segment mac ip labels) =
    if is_empty ip then format_mac mac else format_mac mac ++ lit "/" ++ ip_string ip
key_of (imet rd tag ip) = if is_empty ip then [] else ip_string ip
key_of (prefix rd segment plen ip gateway label) = ip_string ip ++ (lit "/" ++ itoa plen)

abbrev pub rd_of : Evpn → List ℕ
rd_of (mac_ip rd segment mac ip labels) = rd
rd_of (imet rd tag ip) = rd
rd_of (prefix rd segment plen ip gateway label) = rd
