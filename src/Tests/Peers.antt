-- ===== src/Tests/Peers.antt =====
-- internal/ingest/bmp.go on concrete inputs.
use frr_visible.Base.{
  ℕ, ◌≡◌, ◌≢◌, ◌↔◌, refl, List, [], ◌∷◌, ◌++◌, All, Bool, true, false, Option, none, some, arith,
  ◌<◌, ◌≤◌, ◌+◌, ◌/◌, ◌%◌, length, take, inl, inr,
}
use frr_visible.Base.Outcome.{ret, panic, stuck, ◌>>=◌}
use frr_visible.Base.Text.{Text, text_eq_instance}
use frr_visible.Base.Map.{lookup}
use frr_visible.Gnmi.{Wiring}
use frr_visible.Bmp.Wire.{parse_vpn_nlri, format_rd}
use frr_visible.Bmp.Wire.Encode.{Route, IsRoute, parse_vpn_nlri_shifted}
use frr_visible.Bmp.Wire.Distinguishers.{as2, as4, encode_rd, admin_of, number_of, format_rd_exact}
use frr_visible.Bmp.Updates.{path_attrs, no_path_attrs, mp_nlris, parse_update}
use frr_visible.Bmp.Updates.Loops.{encode_routes, write_routes, mp_nlris-encode}
use frr_visible.Bmp.Updates.Evpn.{Evpn, mac_ip, imet, prefix, IsEvpn}
use frr_visible.Bmp.Updates.Evpn.Stream.{encode_evpns, write_evpns, mp_nlris-encode_evpns}
use frr_visible.Bmp.Updates.Attributes.{
  Attribute, encode_attributes, read_attributes, path_attrs-encode, parse_update_panics,
}
use frr_visible.Bmp.Peers.{Bmp, learn_name, peer_vrf, peer_state}
use frr_visible.Bmp.Stream.{handle_conn}
use frr_visible.Bmp.Stream.Total.{handle_conn_ends}

abbrev wired : Wiring
wired = record { cor = true; lin = true }

-- 65000:1, with the label 80 below a transport label, for 10.1.0.0/16
abbrev rd_bytes : List ℕ
rd_bytes = 0 ∷ 0 ∷ 253 ∷ 232 ∷ 0 ∷ 0 ∷ 0 ∷ 1 ∷ []

abbrev route : Route
route = record {
  above = record { label = 16004; tc = 5 } ∷ [];
  last = record { label = 80; tc = 0 };
  rd = rd_bytes;
  plen = 16;
  bytes = 10 ∷ 1 ∷ [];
}

route-IsRoute : IsRoute route
route-IsRoute = record {
  labels = ((omega arith, omega arith), tt);
  bottom = (omega arith, omega arith);
  rd_size = refl;
  plen_max = omega arith;
  size = refl;
}

-- 65000:1 as a distinguisher of type 0 and of type 2.
format_rd_exact_example :
    (format_rd (encode_rd (as2 65000 1)) ≡ format_rd (encode_rd (as4 65000 1))) ↔ (
      (admin_of (as2 65000 1) ≡ admin_of (as4 65000 1))
      × (number_of (as2 65000 1) ≡ number_of (as4 65000 1)))
format_rd_exact_example =
    format_rd_exact (as2 65000 1) (as4 65000 1) (omega arith, omega arith)
      (omega arith, omega arith)

-- The label 0x800000 of a withdrawal, and the distinguisher 65001:1.
parse_vpn_nlri_shifted_example :
    (parse_vpn_nlri (112 ∷ 128 ∷ 0 ∷ 0 ∷ 0 ∷ 0 ∷ 253 ∷ 233 ∷ 0 ∷ 0 ∷ 0 ∷ 1 ∷ 10 ∷ 1 ∷ 5 ∷ [])).rd
    ≡ format_rd (take 8 (233 ∷ 0 ∷ 0 ∷ 0 ∷ 1 ∷ 10 ∷ 1 ∷ 5 ∷ []))
parse_vpn_nlri_shifted_example =
    parse_vpn_nlri_shifted 112 128 0 0 0 0 253 (233 ∷ 0 ∷ 0 ∷ 0 ∷ 1 ∷ 10 ∷ 1 ∷ 5 ∷ []) refl refl
      refl (omega arith)

mp_nlris-encode_example :
    mp_nlris wired
      (10 ∷ 0 ∷ 0 ∷ 1 ∷ [])
      true
      (encode_routes (route ∷ route ∷ []))
      (10 ∷ 0 ∷ 0 ∷ 2 ∷ [])
      []
      false
    ≡ ret (
        write_routes wired
          (10 ∷ 0 ∷ 0 ∷ 1 ∷ [])
          (route ∷ route ∷ [])
          (10 ∷ 0 ∷ 0 ∷ 2 ∷ [])
          []
          false)
mp_nlris-encode_example =
    mp_nlris-encode wired (10 ∷ 0 ∷ 0 ∷ 1 ∷ []) (10 ∷ 0 ∷ 0 ∷ 2 ∷ []) [] false (route ∷ route ∷ [])
      (route-IsRoute, (route-IsRoute, tt))

-- A MAC with an address and a VNI, a route to the ingress replication, and an IPv4 and an IPv6 prefix.
abbrev segment : List ℕ
segment = 0 ∷ 0 ∷ 0 ∷ 0 ∷ 0 ∷ 0 ∷ 0 ∷ 0 ∷ 0 ∷ 0 ∷ 0 ∷ 0 ∷ 0 ∷ 100 ∷ []

abbrev ipv6 : ℕ → List ℕ
ipv6 n = 32 ∷ 1 ∷ 13 ∷ 184 ∷ 0 ∷ 0 ∷ 0 ∷ 0 ∷ 0 ∷ 0 ∷ 0 ∷ 0 ∷ 0 ∷ 0 ∷ 0 ∷ n ∷ []

abbrev evpns : List Evpn
evpns =
    mac_ip rd_bytes segment (2 ∷ 66 ∷ 10 ∷ 0 ∷ 0 ∷ 9 ∷ []) (10 ∷ 1 ∷ 0 ∷ 9 ∷ []) (0 ∷ 6 ∷ 64 ∷ [])
    ∷ imet rd_bytes (0 ∷ 0 ∷ 0 ∷ 0 ∷ []) (10 ∷ 0 ∷ 0 ∷ 1 ∷ [])
    ∷ prefix rd_bytes segment 24 (10 ∷ 1 ∷ 0 ∷ 0 ∷ []) (0 ∷ 0 ∷ 0 ∷ 0 ∷ []) (0 ∷ 7 ∷ 208 ∷ [])
    ∷ prefix rd_bytes segment 64 (ipv6 0) (ipv6 1) (0 ∷ 7 ∷ 208 ∷ [])
    ∷ []

evpns-IsEvpn : All IsEvpn evpns
evpns-IsEvpn = (
  (refl, refl, refl, omega arith, omega arith),
  (
    (refl, refl, omega arith),
    (
      (refl, refl, refl, refl, inl (refl, omega arith)),
      ((refl, refl, refl, refl, inr (refl, omega arith)), tt),
    ),
  ),
)

mp_nlris-encode_evpns_example :
    mp_nlris wired (10 ∷ 0 ∷ 0 ∷ 1 ∷ []) false (encode_evpns evpns) (10 ∷ 0 ∷ 0 ∷ 2 ∷ []) [] true
    ≡ ret (write_evpns wired (10 ∷ 0 ∷ 0 ∷ 1 ∷ []) evpns (10 ∷ 0 ∷ 0 ∷ 2 ∷ []) [] true)
mp_nlris-encode_evpns_example =
    mp_nlris-encode_evpns wired (10 ∷ 0 ∷ 0 ∷ 1 ∷ []) (10 ∷ 0 ∷ 0 ∷ 2 ∷ []) [] true evpns
      evpns-IsEvpn

-- ORIGIN, and extended communities with a two-byte length.
abbrev attributes : List Attribute
attributes =
    record { flags = 64; type = 1; value = 0 ∷ [] }
    ∷ record { flags = 208; type = 16; value = 0 ∷ 2 ∷ 253 ∷ 232 ∷ 0 ∷ 0 ∷ 0 ∷ 100 ∷ [] }
    ∷ []

path_attrs-encode_example :
    path_attrs 100
      (encode_attributes attributes ++ 9 ∷ [])
      (length (encode_attributes attributes))
      no_path_attrs
    ≡ ret (read_attributes attributes no_path_attrs)
unfolding frr_visible.Bmp.Updates.Attributes.encode_attribute
path_attrs-encode_example =
    path_attrs-encode attributes 100 (9 ∷ []) no_path_attrs
      (unfold encode_attributes in omega arith)

abbrev header : List ℕ
header = 0 ∷ 0 ∷ 0 ∷ 0 ∷ 0 ∷ 0 ∷ 0 ∷ 0 ∷ 0 ∷ 0 ∷ 0 ∷ 0 ∷ 0 ∷ 0 ∷ 0 ∷ 0 ∷ 0 ∷ 26 ∷ []

parse_update_panics_example :
    parse_update wired (10 ∷ 0 ∷ 0 ∷ 1 ∷ []) (header ++ 2 ∷ 0 ∷ 0 ∷ 0 ∷ 3 ∷ 80 ∷ 14 ∷ 0 ∷ [])
    ≡ panic
parse_update_panics_example =
    parse_update_panics wired (10 ∷ 0 ∷ 0 ∷ 1 ∷ []) header 80 14 0 refl refl

abbrev red : Text
red = b'r' ∷ []

abbrev rd : Text
rd = b'1' ∷ []

abbrev devices : Option (List (ℕ × Text))
devices = some ((100, red) ∷ [])

abbrev nothing_learned : Bmp
nothing_learned = record { rd_vrf = []; vrf = [] }

abbrev red_learned : Bmp
red_learned = record { rd_vrf = (rd, red) ∷ []; vrf = [] }

sole_device : (learn_name devices true [] [] >>= (λ r. ret r.0)) ≡ ret red
unfolding learn_name frr_visible.Bmp.Peers.peer_up_vrf frr_visible.Vrf.non_default_names
    frr_visible.Base.Map.insert
sole_device = refl

handle_conn_ends_example :
    handle_conn (λ n. devices) wired (3 ∷ 0 ∷ 0 ∷ 0 ∷ 6 ∷ 3 ∷ 3 ∷ []) nothing_learned ≢ stuck
handle_conn_ends_example =
    handle_conn_ends (λ n. devices) wired (3 ∷ 0 ∷ 0 ∷ 0 ∷ 6 ∷ 3 ∷ 3 ∷ []) nothing_learned
