-- ===== src/Bmp/Updates/Evpn/Handle.antt =====
-- internal/ingest/bmp.go: handleEVPN on the value of a route.
use frr_visible.Base.{
  ℕ, ◌*◌, ◌≡◌, refl, sym, ap, ◌∙◌, List, [], ◌∷◌, ◌++◌, Bool, false, if◌then◌else◌, ltb, length,
  if_false, take, drop, arith, length-append, append_assoc, append-nil,
}
use frr_visible.Base.Bytes.{byte_at, slice}
use frr_visible.Base.Text.{Text, lit, itoa}
use frr_visible.Net.{Ip, ip_string}
use frr_visible.Gnmi.{Effect, Wiring}
use frr_visible.Bmp.Wire.{format_rd, format_mac}
use frr_visible.Bmp.Writes.{write_evpn, handle_evpn, sized_ip, prefix_ip_len}
use frr_visible.Bmp.Updates.Evpn.{
  Evpn, mac_ip, imet, prefix, encode_value, route_type, IsEvpn, kind_of, key_of, rd_of,
}
use frr_visible.Bmp.Updates.Evpn.Fields.{
  take_front, get_or_past, slice-rd, behind, byte_behind, sized_ip-length, prefix_ip_len-ip,
}

module _ (w : Wiring) (peer nh : Ip) (rts : List Text) (withdraw : Bool) where
  write_at : Text → Text → Text → List Effect
  write_at kind rd key = write_evpn w peer kind rd key nh rts withdraw

  guarded :
      (short : Bool) (kind rd rd' key key' : Text)
      → short ≡ false
      → rd ≡ rd'
      → key ≡ key'
      → (if short then [] else write_evpn w peer kind rd key nh rts withdraw)
        ≡ write_evpn w peer kind rd' key' nh rts withdraw
  guarded short kind rd rd' key key' hs hr hk = rw (hs, hr, hk) refl

  guarded_prefix :
      (rest ip after rd : List ℕ) (n read plen : ℕ)
      → rest ≡ ip ++ after
      → read ≡ plen
      → n ≡ length ip
      → (if ltb (length rest) n
          then []
          else write_evpn w peer
              (lit "prefix")
              (format_rd rd)
              (ip_string (take n rest) ++ (lit "/" ++ itoa read))
              nh
              rts
              withdraw)
        ≡ write_evpn w peer
            (lit "prefix")
            (format_rd rd)
            (ip_string ip ++ (lit "/" ++ itoa plen))
            nh
            rts
            withdraw
  guarded_prefix rest ip after rd n read plen hr hp hn =
      let enough : ltb (length rest) n ≡ false =
        ground (arith, ap (λ (l : List ℕ). length l) hr, length-append ip after, hn) in
      guarded (ltb (length rest) n) _ _ _ _ _ enough refl (
        ap (λ xs. ip_string xs ++ (lit "/" ++ itoa read))
          (ap (take n) hr ∙ take_front ip after n (sym hn))
        ∙ ap (λ p. ip_string ip ++ (lit "/" ++ itoa p)) hp)

  -- handleEVPN on the value of a route writes its kind, its distinguisher and its key.
  pub handle_evpn-encode :
      (e : Evpn)
      → IsEvpn e
      → handle_evpn w peer (route_type e) (encode_value e) nh rts withdraw
        ≡ write_evpn w peer (kind_of e) (format_rd (rd_of e)) (key_of e) nh rts withdraw
  unfolding handle_evpn encode_value
  handle_evpn-encode (mac_ip rd segment mac ip labels) (hr, hs, hm, hi, hl) =
      let tail = mac ++ (8 * length ip) ∷ (ip ++ labels) in
      let v = rd ++ (segment ++ 48 ∷ tail) in
      let mac_at : slice 23 29 v ≡ mac =
        ap (take 6) (behind rd segment 48 tail hr hs) ∙ take_front mac _ 6 hm in
      guarded (ltb (length v) 30) _ _ _ _ _
        (ground (
          arith,
          length-append rd (segment ++ 48 ∷ tail),
          length-append segment (48 ∷ tail),
          length-append mac ((8 * length ip) ∷ (ip ++ labels)),
        ))
        (ap format_rd (slice-rd rd _ hr))
        (ap (λ m. sized_ip v 30 (byte_at v 29) (format_mac m) (format_mac m ++ lit "/")) mac_at
          ∙ sized_ip-length v (rd ++ (segment ++ 48 ∷ (mac ++ (8 * length ip) ∷ []))) ip labels 30
              (byte_at v 29) _ _ (simp (append_assoc))
              (omega (
                arith,
                length-append rd (segment ++ 48 ∷ (mac ++ (8 * length ip) ∷ [])),
                length-append segment (48 ∷ (mac ++ (8 * length ip) ∷ [])),
                length-append mac ((8 * length ip) ∷ []),
              ))
              (byte_behind rd segment 48 tail 6 hr hs ∙ get_or_past mac _ 6 0 6 0 hm refl))
  handle_evpn-encode (imet rd tag ip) (hr, ht, hi) =
      let v = rd ++ (tag ++ (8 * length ip) ∷ ip) in
      guarded (ltb (length v) 13) _ _ _ _ _
        (ground (
          arith,
          length-append rd (tag ++ (8 * length ip) ∷ ip),
          length-append tag ((8 * length ip) ∷ ip),
        ))
        (ap format_rd (slice-rd rd _ hr))
        (sized_ip-length v (rd ++ (tag ++ (8 * length ip) ∷ [])) ip [] 13 (byte_at v 12) [] []
          (simp (append_assoc, append-nil))
          (omega (
            arith,
            length-append rd (tag ++ (8 * length ip) ∷ []),
            length-append tag ((8 * length ip) ∷ []),
          ))
          (get_or_past rd (tag ++ (8 * length ip) ∷ ip) 8 4 12 0 hr refl
            ∙ get_or_past tag ((8 * length ip) ∷ ip) 4 0 4 0 ht refl))
  handle_evpn-encode (prefix rd segment plen ip gateway label) (hr, hs, hl, hg, hi) =
      let tail = ip ++ (gateway ++ label) in
      let v = rd ++ (segment ++ plen ∷ tail) in
      let rest : drop 23 v ≡ tail = behind rd segment plen tail hr hs in
      let plen_at : byte_at v 22 ≡ plen =
        get_or_past rd (segment ++ plen ∷ tail) 8 14 22 0 hr refl
        ∙ get_or_past segment (plen ∷ tail) 14 0 14 0 hs refl in
      if_false (ltb (length v) 23) _ _ (
        ground
          (arith, length-append rd (segment ++ plen ∷ tail), length-append segment (plen ∷ tail)))
      ∙ ap
          (λ t.
            if ltb (length (drop 23 v)) (prefix_ip_len (drop 23 v) (byte_at v 22))
            then []
            else write_evpn w peer (lit "prefix") (format_rd t)
                (ip_string (take (prefix_ip_len (drop 23 v) (byte_at v 22)) (drop 23 v))
                  ++ (lit "/" ++ itoa (byte_at v 22)))
                nh rts withdraw)
          (slice-rd rd _ hr)
      ∙ guarded_prefix (drop 23 v) ip (gateway ++ label) rd
          (prefix_ip_len (drop 23 v) (byte_at v 22)) (byte_at v 22) plen rest plen_at
          (prefix_ip_len-ip (drop 23 v) (byte_at v 22) plen (length ip) plen_at
            (ap (λ (l : List ℕ). length l) rest
              ∙ omega
                  (arith, length-append ip (gateway ++ label), length-append gateway label, hl, hg))
            hi)
