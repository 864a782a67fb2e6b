-- ===== src/Fpm/Total.antt =====
-- internal/ingest/fpm.go: termination of the loop over an FPM connection.
use frr_visible.Base.{
  ℕ, zero, suc, ◌+◌, ◌<◌, ◌≡◌, ◌≢◌, List, [], Bool, true, false, Option, ltb, length, drop, arith,
  Bool-cases, inl, inr, length-drop, ◌==◌, if◌then◌else◌, nat_eq,
}
use frr_visible.Base.Map.{Map}
use frr_visible.Base.Outcome.{ret, stuck, bind-ne-stuck}
use frr_visible.Base.Bytes.{be16, byte_at, slice}
use frr_visible.Base.Text.{Text}
use frr_visible.Gnmi.{Wiring}
use frr_visible.Fpm.Attrs.{parse_mpls_encap, for_each_attr}
use frr_visible.Fpm.Attrs.Walk.{for_each_attr-ne-stuck}
use frr_visible.Fpm.Nexthops.{NexthopAttrs, Nexthop, nexthop_attr, handle_nexthop, no_attrs}
use frr_visible.Fpm.Routes.{
  Fpm, RouteAttrs, route_attr, handle_route, handle_netlink, no_route_attrs,
}
use frr_visible.Fpm.Stream.{Links, handle_frame, handle, handle_conn, stream_ends, round}

parse_mpls_encap-ne-stuck : (p : List ℕ) → parse_mpls_encap p ≢ stuck
unfolding parse_mpls_encap
parse_mpls_encap-ne-stuck p = for_each_attr-ne-stuck _ p [] (λ x k v. labels_step x k v)
  where
    labels_step :
        (x : List ℕ) (k : ℕ) (v : List ℕ)
        → (if k == 1 then ret (frr_visible.Fpm.Attrs.decode_mpls_stack v) else ret x) ≢ stuck
    labels_step x k v = ground arith

nexthop_attr-ne-stuck : (s : NexthopAttrs) (k : ℕ) (p : List ℕ) → nexthop_attr s k p ≢ stuck
unfolding nexthop_attr
nexthop_attr-ne-stuck s k p = ground (arith, parse_mpls_encap-ne-stuck p)

route_attr-ne-stuck : (s : RouteAttrs) (k : ℕ) (p : List ℕ) → route_attr s k p ≢ stuck
unfolding route_attr
route_attr-ne-stuck s k p = ground (arith, parse_mpls_encap-ne-stuck p)

handle_nexthop-ne-stuck :
    (b : List ℕ) (del : Bool) (nh : Map ℕ Nexthop) → handle_nexthop b del nh ≢ stuck
unfolding handle_nexthop
handle_nexthop-ne-stuck b del nh = elim (Bool-cases (ltb (length b) 24)) [
  | inl short ↦ rw short (λ e. cc)
  | inr full ↦ rw full (
      bind-ne-stuck _ _
        (for_each_attr-ne-stuck nexthop_attr (drop 24 b) no_attrs nexthop_attr-ne-stuck)
        (λ s e. cc))
]

handle_route-ne-stuck :
    (links : Option (List (ℕ × Text))) (w : Wiring) (b : List ℕ) (del : Bool) (f : Fpm)
    → handle_route links w b del f ≢ stuck
unfolding handle_route
handle_route-ne-stuck links w b del f = elim (Bool-cases (ltb (length b) 28)) [
  | inl short ↦ rw short (λ e. cc)
  | inr full ↦ rw full (
      bind-ne-stuck _ _
        (for_each_attr-ne-stuck route_attr (drop 12 (drop 16 b)) no_route_attrs route_attr-ne-stuck)
        (λ s e. cc))
]

handle_netlink-ne-stuck :
    (links : Option (List (ℕ × Text))) (w : Wiring) (b : List ℕ) (f : Fpm)
    → handle_netlink links w b f ≢ stuck
unfolding handle_netlink
handle_netlink-ne-stuck links w b f = ground (
  arith,
  handle_nexthop-ne-stuck b false f.nh,
  handle_nexthop-ne-stuck b true f.nh,
  handle_route-ne-stuck links w b false f,
  handle_route-ne-stuck links w b true f,
)

module _ (links : Links) (w : Wiring) where
  handle_frame-ne-stuck :
      (n type : ℕ) (body : List ℕ) (f : Fpm) → handle_frame links w n type body f ≢ stuck
  unfolding handle_frame
  handle_frame-ne-stuck n type body f = ground (arith, handle_netlink-ne-stuck (links n) w body f)

  handle-ne-stuck :
      (fuel n : ℕ) (bytes : List ℕ) (f : Fpm)
      → length bytes < fuel
      → handle links w fuel n bytes f ≢ stuck
  handle-ne-stuck zero n bytes f h = absurd (omega arith)
  handle-ne-stuck (suc fuel) n bytes f h = elim (Bool-cases (stream_ends bytes)) [
    | inl done ↦ unfold handle in rw (done, handle) (λ e. cc)
    | inr more ↦ rw (round links w fuel n bytes f more) (
        bind-ne-stuck _ _
          (handle_frame-ne-stuck n (byte_at bytes 1) (slice 4 (be16 bytes 2) bytes) f)
          (λ r.
            bind-ne-stuck _ _
              (handle-ne-stuck fuel (n + 1) (drop (be16 bytes 2) bytes) r.0 (shrinks more))
              (λ q e. cc)))
  ]
    where
      shrinks : stream_ends bytes ≡ false → length (drop (be16 bytes 2) bytes) < fuel
      shrinks more = unfold stream_ends in ground (arith, length-drop (be16 bytes 2) bytes)

  -- On every sequence of bytes, the loop over a connection ends.
  pub handle_conn-ne-stuck : (bytes : List ℕ) (f : Fpm) → handle_conn links w bytes f ≢ stuck
  unfolding handle_conn
  handle_conn-ne-stuck bytes f = handle-ne-stuck (suc (length bytes)) 0 bytes f (omega arith)
