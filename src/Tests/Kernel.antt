-- ===== src/Tests/Kernel.antt =====
-- internal/ingest/fpm.go and vrf.go on concrete inputs.
use frr_visible.Base.{
  ℕ, ◌≡◌, ◌≢◌, refl, List, [], ◌∷◌, ◌++◌, map, All, Bool, true, false, Option, none, some, arith,
  ◌<◌, ◌-◌, nat_eq, ◌%◌, length,
}
use frr_visible.Base.Outcome.{panic, stuck}
use frr_visible.Base.Text.{Text, lit, text_eq, is_empty, text_eq_instance}
use frr_visible.Base.Map.{Map, lookup}
use frr_visible.Gnmi.{Wiring}
use frr_visible.Net.{ip_string}
use frr_visible.Fpm.Attrs.{labels_csv, for_each_attr}
use frr_visible.Fpm.Attrs.Walk.{Attr, encode, encode_bare, visit, for_each_attr-encode}
use frr_visible.Fpm.Attrs.Unpadded.{for_each_attr_unpadded}
use frr_visible.Fpm.Nexthops.{Nexthop, resolve_nh, nexthop_attr, no_attrs}
use frr_visible.Fpm.Nexthops.Resolve.{object, member, answer, resolve_complete}
use frr_visible.Fpm.Routes.{Fpm, RouteAttrs, no_route_attrs, finish_route}
use frr_visible.Fpm.Routes.Afts.{prefix_of}
use frr_visible.Fpm.Stream.{Frame, encode_frames, handle_conn, deliver, Links, handle_conn-encode}
use frr_visible.Fpm.Total.{handle_conn-ne-stuck}
use frr_visible.Vrf.{name}
use frr_visible.Vrf.Laws.{last_name, device_or_table, IsVrf, name_fresh}

abbrev seconds : ℕ → Text
seconds n = []

abbrev wired : Wiring
wired = record { cor = true; lin = true }

-- NHA_ID 7 and an NHA_GATEWAY that is marked nested.
abbrev attrs : List Attr
attrs =
    record { kind = 1; flags = 0; payload = 7 ∷ 0 ∷ 0 ∷ 0 ∷ [] }
    ∷ record { kind = 6; flags = 2; payload = 10 ∷ 0 ∷ 0 ∷ 1 ∷ [] }
    ∷ []

for_each_attr-encode_example :
    for_each_attr nexthop_attr (encode attrs) no_attrs ≡ visit nexthop_attr attrs no_attrs
for_each_attr-encode_example =
    for_each_attr-encode nexthop_attr attrs no_attrs
      ((omega arith, omega arith, omega arith), ((omega arith, omega arith, omega arith), tt))

-- RTA_ENCAP_TYPE has two bytes.
abbrev encap_type : Attr
encap_type = record { kind = 7; flags = 0; payload = 1 ∷ 0 ∷ [] }

-- NHA_ID with its four bytes.
abbrev nh_id : Attr
nh_id = record { kind = 1; flags = 0; payload = 7 ∷ 0 ∷ 0 ∷ 0 ∷ [] }

for_each_attr_unpadded_example :
    for_each_attr nexthop_attr (encode (nh_id ∷ []) ++ encode_bare encap_type) no_attrs ≡ panic
unfolding nexthop_attr visit
for_each_attr_unpadded_example =
    for_each_attr_unpadded nexthop_attr (nh_id ∷ []) encap_type no_attrs
      (record no_attrs { id = 7; encap_type = 1 }) ((omega arith, omega arith, omega arith), tt)
      (omega arith, omega arith, omega arith) (λ e. cc) refl

-- 30 is a group of 7, which has a gateway.
abbrev via : Nexthop
via = record { gw = 10 ∷ 0 ∷ 0 ∷ 1 ∷ []; oif = 3; group = []; labels = 16 ∷ []; blackhole = false }

abbrev group : Nexthop
group = record { gw = []; oif = 0; group = 7 ∷ 8 ∷ []; labels = []; blackhole = false }

abbrev table : Map ℕ Nexthop
table = (7, via) ∷ (30, group) ∷ []

resolve_complete_example : resolve_nh 5 table 30 ≡ answer via
unfolding lookup
resolve_complete_example =
    resolve_complete table 5 1 30 via
      (member 0 30 7 (8 ∷ []) group via refl refl refl (object 7 via refl)) (omega arith) refl

abbrev fpm_state : Fpm
fpm_state = record { nh = table; vrf = [] }

-- 10.1.0.0/16 in the main table, through the nexthop 30.
abbrev rtm : List ℕ
rtm = 2 ∷ 16 ∷ 0 ∷ 0 ∷ 254 ∷ 11 ∷ 0 ∷ 1 ∷ 0 ∷ 0 ∷ 0 ∷ 0 ∷ []

abbrev route : RouteAttrs
route = record no_route_attrs { dst = 10 ∷ 1 ∷ 0 ∷ 0 ∷ []; nhid = 30 }

route_has_prefix : is_empty (prefix_of rtm route) ≡ false
unfolding frr_visible.Fpm.Routes.format_prefix frr_visible.Net.ip_string frr_visible.Base.Text.itoa
route_has_prefix = refl

-- A frame of another protocol, and one that is a netlink message of no known kind.
abbrev frames : List Frame
frames =
    record { version = 1; type = 2; body = 1 ∷ [] }
    ∷ record {
      version = 1;
      type = 1;
      body = 16 ∷ 0 ∷ 0 ∷ 0 ∷ 3 ∷ 0 ∷ 0 ∷ 0 ∷ 0 ∷ 0 ∷ 0 ∷ 0 ∷ 0 ∷ 0 ∷ 0 ∷ 0 ∷ [];
    }
    ∷ []

abbrev no_links : Links
no_links n = none

handle_conn-encode_example :
    handle_conn no_links wired (encode_frames frames) fpm_state
    ≡ deliver no_links wired 0 frames fpm_state
handle_conn-encode_example =
    handle_conn-encode no_links wired frames fpm_state (omega arith, (omega arith, tt))

handle_conn-ne-stuck_example : handle_conn no_links wired (1 ∷ 1 ∷ 0 ∷ 9 ∷ []) fpm_state ≢ stuck
handle_conn-ne-stuck_example = handle_conn-ne-stuck no_links wired (1 ∷ 1 ∷ 0 ∷ 9 ∷ []) fpm_state

abbrev devices : List (ℕ × Text)
devices = (100, b'r' ∷ []) ∷ (200, b'b' ∷ []) ∷ []

two_hundred-IsVrf : IsVrf 200
two_hundred-IsVrf = ((λ e. omega (arith, e)), (λ e. omega (arith, e)), (λ e. omega (arith, e)))

name_fresh_example :
    ((name (some devices) 200 []).0 ≡ device_or_table 200 (last_name 200 devices none))
    × ((q : ℕ) → lookup q (name (some devices) 200 []).1 ≡ last_name q devices none)
unfolding lookup
name_fresh_example = name_fresh devices 200 [] two_hundred-IsVrf refl

route_text : prefix_of rtm route ≡ lit "10.1.0.0/16"
unfolding frr_visible.Fpm.Routes.format_prefix lit ip_string frr_visible.Base.Text.itoa
route_text = refl

-- 2001:db8::1
v6_text :
    ip_string (32 ∷ 1 ∷ 13 ∷ 184 ∷ 0 ∷ 0 ∷ 0 ∷ 0 ∷ 0 ∷ 0 ∷ 0 ∷ 0 ∷ 0 ∷ 0 ∷ 0 ∷ 1 ∷ [])
    ≡ lit "2001:db8::1"
unfolding ip_string lit frr_visible.Base.Text.hex16
v6_text = refl

labels_text : labels_csv (16004 ∷ 80 ∷ []) ≡ lit "16004,80"
unfolding labels_csv lit frr_visible.Base.Text.itoa
labels_text = refl
