-- ===== src/Bmp/Updates/Evpn/Stream.antt =====
-- internal/ingest/bmp.go: the EVPN loop of handleMP on the wire form of a list of routes.
use frr_visible.Base.{
  ℕ, zero, suc, ◌+◌, ◌-◌, ◌*◌, ◌<◌, ◌≡◌, refl, ap, ◌∙◌, List, [], ◌∷◌, ◌++◌, Bool, true, false,
  length, take, drop, All, arith, length-append, take-length-append, drop-length-append,
}
use frr_visible.Base.Outcome.{ret, ◌>>=◌}
use frr_visible.Base.Bytes.{byte_at, slice}
use frr_visible.Base.Text.{Text}
use frr_visible.Net.{Ip}
use frr_visible.Gnmi.{Effect, Wiring}
use frr_visible.Bmp.Wire.{format_rd}
use frr_visible.Bmp.Writes.{write_evpn}
use frr_visible.Bmp.Updates.{evpn_loop, mp_nlris}
use frr_visible.Bmp.Updates.Loops.{evpn_go, evpn_round}
use frr_visible.Bmp.Updates.Evpn.{
  Evpn, mac_ip, imet, prefix, encode_value, route_type, encode_evpn, IsEvpn, kind_of, key_of, rd_of,
}
use frr_visible.Bmp.Updates.Evpn.Handle.{handle_evpn-encode}

unfoldable pub encode_evpns : List Evpn → List ℕ
encode_evpns [] = []
encode_evpns (e ∷ es) = encode_evpn e ++ encode_evpns es

-- The call for each route in turn.
unfoldable pub write_evpns : Wiring → Ip → List Evpn → Ip → List Text → Bool → List Effect
write_evpns w peer [] nh rts withdraw = []
write_evpns w peer (e ∷ es) nh rts withdraw =
    write_evpn w peer (kind_of e) (format_rd (rd_of e)) (key_of e) nh rts withdraw
    ++ write_evpns w peer es nh rts withdraw

value_long : (e : Evpn) → IsEvpn e → 0 < length (encode_value e)
unfolding encode_value
value_long (mac_ip rd segment mac ip labels) h =
    omega (arith, length-append rd (segment ++ 48 ∷ (mac ++ (8 * length ip) ∷ (ip ++ labels))), h.0)
value_long (imet rd tag ip) h = omega (arith, length-append rd (tag ++ (8 * length ip) ∷ ip), h.0)
value_long (prefix rd segment plen ip gateway label) h =
    omega (arith, length-append rd (segment ++ plen ∷ (ip ++ (gateway ++ label))), h.0)

-- The loop goes on at the wire form of a route.
evpn_go-encode : (e : Evpn) (rest : List ℕ) → IsEvpn e → evpn_go (encode_evpn e ++ rest) ≡ true
unfolding encode_evpn
evpn_go-encode e rest h = ground (arith, value_long e h, length-append (encode_value e) rest)

-- What the loop reads of a route in front of a list.
type_at : (e : Evpn) (rest : List ℕ) → byte_at (encode_evpn e ++ rest) 0 ≡ route_type e
unfolding encode_evpn
type_at e rest = refl

value_at :
    (e : Evpn) (rest : List ℕ)
    → slice 2 (2 + byte_at (encode_evpn e ++ rest) 1) (encode_evpn e ++ rest) ≡ encode_value e
unfolding encode_evpn
value_at e rest =
    let n : ℕ = length (encode_value e) in
    let size : 2 + n - 2 ≡ n = omega arith in
    ap (λ i. take i (encode_value e ++ rest)) size ∙ take-length-append (encode_value e) rest

behind_evpn :
    (e : Evpn) (rest : List ℕ)
    → drop (2 + byte_at (encode_evpn e ++ rest) 1) (encode_evpn e ++ rest) ≡ rest
unfolding encode_evpn
behind_evpn e rest =
    let n : ℕ = length (encode_value e) in
    let size : 2 + n ≡ suc (suc n) = omega arith in
    ap (λ i. drop i (encode_evpn e ++ rest)) size ∙ drop-length-append (encode_value e) rest

module _ (w : Wiring) (peer nh : Ip) (rts : List Text) (withdraw : Bool) where
  evpn_round_route :
      (f : ℕ) (e : Evpn) (rest : List ℕ)
      → IsEvpn e
      → evpn_loop (suc f) w peer (encode_evpn e ++ rest) nh rts withdraw ≡ (
          evpn_loop f w peer rest nh rts withdraw >>= λ more.
          ret (
            write_evpn w peer (kind_of e) (format_rd (rd_of e)) (key_of e) nh rts withdraw ++ more))
  evpn_round_route f e rest h =
      evpn_round w peer nh rts withdraw f (encode_evpn e ++ rest) (evpn_go-encode e rest h)
      ∙ rw (type_at e rest, value_at e rest, behind_evpn e rest)
          (rw (handle_evpn-encode w peer nh rts withdraw e h) refl)

  evpn_loop-encode :
      (f : ℕ) (es : List Evpn)
      → All IsEvpn es
      → length (encode_evpns es) < f
      → evpn_loop f w peer (encode_evpns es) nh rts withdraw
        ≡ ret (write_evpns w peer es nh rts withdraw)
  unfolding encode_evpns write_evpns
  evpn_loop-encode zero es h hf = absurd (omega arith)
  evpn_loop-encode (suc f) [] h hf = unfold evpn_loop in refl
  evpn_loop-encode (suc f) (e ∷ es) h hf =
      evpn_round_route f e (encode_evpns es) h.0
      ∙ rw (
          evpn_loop-encode f es h.1
            (unfold encode_evpn in omega (arith, length-append (encode_evpn e) (encode_evpns es))))

  -- On the wire forms of any list of type-2, type-3 and type-5 EVPN routes, with their fields of the
  -- lengths that RFC 7432 and RFC 9136 give, handleMP's EVPN loop makes the writeEVPN call for each
  -- route, with its kind, its distinguisher and its key, in order, and none else.
  pub mp_nlris-encode_evpns :
      (es : List Evpn)
      → All IsEvpn es
      → mp_nlris w peer false (encode_evpns es) nh rts withdraw
        ≡ ret (write_evpns w peer es nh rts withdraw)
  unfolding mp_nlris
  mp_nlris-encode_evpns es h = evpn_loop-encode (suc (length (encode_evpns es))) es h (omega arith)
