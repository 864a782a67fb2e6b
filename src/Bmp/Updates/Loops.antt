-- ===== src/Bmp/Updates/Loops.antt =====
-- internal/ingest/bmp.go: the NLRI loops of handleMP, against the wire form of a list of routes.
use frr_visible.Base.{
  ℕ, zero, suc, ◌+◌, ◌<◌, ◌≡◌, ◌≢◌, refl, ◌∙◌, List, [], ◌∷◌, ◌++◌, Bool, true, false, not, ◌&&◌,
  ◌||◌, ltb, leb, ◌==◌, length, drop, All, arith, length-append, length-drop, drop-length-append,
  Bool-cases, inl, inr,
}
use frr_visible.Base.Outcome.{ret, stuck, ◌>>=◌, bind-ne-stuck}
use frr_visible.Base.Bytes.{byte_at, slice}
use frr_visible.Base.Text.{Text}
use frr_visible.Net.{Ip}
use frr_visible.Gnmi.{Effect, Wiring}
use frr_visible.Bmp.Wire.{parse_vpn_nlri}
use frr_visible.Bmp.Wire.Encode.{Route, IsRoute, encode_route, decoded, parse_vpn_nlri-encode}
use frr_visible.Bmp.Writes.{write_vpn_route, handle_evpn}
use frr_visible.Bmp.Updates.{vpn_loop, evpn_loop, mp_nlris}

unfoldable pub encode_routes : List Route → List ℕ
encode_routes [] = []
encode_routes (r ∷ rs) = encode_route r ++ encode_routes rs

-- The calls for each route in turn.
unfoldable pub write_routes : Wiring → Ip → List Route → Ip → List Text → Bool → List Effect
write_routes w peer [] nh rts withdraw = []
write_routes w peer (r ∷ rs) nh rts withdraw =
    let d = decoded r in
    write_vpn_route w peer d.rd d.prefix d.label nh rts withdraw
    ++ write_routes w peer rs nh rts withdraw

-- The EVPN loop goes on.
abbrev pub evpn_go : List ℕ → Bool
evpn_go p = leb 2 (length p) && not (byte_at p 1 == 0 || ltb (length p) (2 + byte_at p 1))

module _ (w : Wiring) (peer nh : Ip) (rts : List Text) (withdraw : Bool) where
  vpn_round :
      (f : ℕ) (p : List ℕ)
      → (ltb 0 (length p) && not ((parse_vpn_nlri p).consumed == 0)) ≡ true
      → vpn_loop (suc f) w peer p nh rts withdraw ≡ (
          vpn_loop f w peer (drop (parse_vpn_nlri p).consumed p) nh rts withdraw >>= λ more. ret (
            write_vpn_route w peer
              (parse_vpn_nlri p).rd
              (parse_vpn_nlri p).prefix
              (parse_vpn_nlri p).label
              nh
              rts
              withdraw
            ++ more))
  unfolding vpn_loop
  vpn_round f p go = rw (go, vpn_loop)

  vpn_round_route :
      (f : ℕ) (r : Route) (rest : List ℕ)
      → IsRoute r
      → vpn_loop (suc f) w peer (encode_route r ++ rest) nh rts withdraw ≡ (
          vpn_loop f w peer rest nh rts withdraw >>= λ more. ret (
            write_vpn_route w peer
              (decoded r).rd
              (decoded r).prefix
              (decoded r).label
              nh
              rts
              withdraw
            ++ more))
  vpn_round_route f r rest h =
      let e = parse_vpn_nlri-encode r rest h in
      let long : ltb 0 (length (encode_route r ++ rest)) ≡ true =
        unfold encode_route in ground arith in
      let some_read : ((decoded r).consumed == 0) ≡ false =
        unfold decoded encode_route in ground arith in
      vpn_round f (encode_route r ++ rest) (rw e (rw (long, some_read)))
      ∙ rw e (rw (rest_eq r rest))
    where
      rest_eq :
          (r : Route) (rest : List ℕ) → drop (decoded r).consumed (encode_route r ++ rest) ≡ rest
      rest_eq r rest = unfold decoded in drop-length-append (encode_route r) rest

  loop-encode :
      (f : ℕ) (rs : List Route)
      → All IsRoute rs
      → length (encode_routes rs) < f
      → vpn_loop f w peer (encode_routes rs) nh rts withdraw
        ≡ ret (write_routes w peer rs nh rts withdraw)
  unfolding encode_routes write_routes
  loop-encode zero rs h hf = absurd (omega arith)
  loop-encode (suc f) [] h hf = unfold vpn_loop in refl
  loop-encode (suc f) (r ∷ rs) h hf =
      vpn_round_route f r (encode_routes rs) h.0
      ∙ rw (
          loop-encode f rs h.1 (
            unfold encode_route in
            omega (arith, length-append (encode_route r) (encode_routes rs))))

  -- On the wire forms of any list of labeled VPN-IPv4 routes, the loop makes the calls for each route,
  -- in order, and none else.
  pub mp_nlris-encode :
      (rs : List Route)
      → All IsRoute rs
      → mp_nlris w peer true (encode_routes rs) nh rts withdraw
        ≡ ret (write_routes w peer rs nh rts withdraw)
  unfolding mp_nlris
  mp_nlris-encode rs h = loop-encode (suc (length (encode_routes rs))) rs h (omega arith)

  vpn_loop-ne-stuck :
      (f : ℕ) (p : List ℕ) → length p < f → vpn_loop f w peer p nh rts withdraw ≢ stuck
  vpn_loop-ne-stuck zero p h = absurd (omega arith)
  vpn_loop-ne-stuck (suc f) p h =
      elim (Bool-cases (ltb 0 (length p) && not ((parse_vpn_nlri p).consumed == 0))) [
        | inl go ↦ rw (vpn_round f p go) (
            bind-ne-stuck _ _
              (vpn_loop-ne-stuck f (drop (parse_vpn_nlri p).consumed p)
                (ground (arith, length-drop (parse_vpn_nlri p).consumed p)))
              (λ more e. cc))
        | inr done ↦ unfold vpn_loop in rw (done, vpn_loop) (λ e. cc)
      ]

  pub evpn_round :
      (f : ℕ) (p : List ℕ)
      → evpn_go p ≡ true
      → evpn_loop (suc f) w peer p nh rts withdraw ≡ (
          evpn_loop f w peer (drop (2 + byte_at p 1) p) nh rts withdraw >>= λ more.
          ret (
            handle_evpn w peer (byte_at p 0) (slice 2 (2 + byte_at p 1) p) nh rts withdraw ++ more))
  unfolding evpn_loop
  evpn_round f p go = rw (go, evpn_loop)

  evpn_loop-ne-stuck :
      (f : ℕ) (p : List ℕ) → length p < f → evpn_loop f w peer p nh rts withdraw ≢ stuck
  evpn_loop-ne-stuck zero p h = absurd (omega arith)
  evpn_loop-ne-stuck (suc f) p h = elim (Bool-cases (evpn_go p)) [
    | inl go ↦ rw (evpn_round f p go) (
        bind-ne-stuck _ _
          (evpn_loop-ne-stuck f (drop (2 + byte_at p 1) p)
            (ground (arith, length-drop (2 + byte_at p 1) p)))
          (λ more e. cc))
    | inr done ↦ unfold evpn_loop in rw (done, evpn_loop) (λ e. cc)
  ]

  pub mp_nlris-ne-stuck :
      (is_vpn : Bool) (p : List ℕ) → mp_nlris w peer is_vpn p nh rts withdraw ≢ stuck
  unfolding mp_nlris
  mp_nlris-ne-stuck true p = vpn_loop-ne-stuck (suc (length p)) p (omega arith)
  mp_nlris-ne-stuck false p = evpn_loop-ne-stuck (suc (length p)) p (omega arith)
