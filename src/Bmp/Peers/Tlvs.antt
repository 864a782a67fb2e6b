-- ===== src/Bmp/Peers/Tlvs.antt =====
-- internal/ingest/bmp.go: termination of the TLV loop of peerUpVRF.
use frr_visible.Base.{
  ℕ, zero, suc, ◌+◌, ◌<◌, ◌≡◌, refl, List, Bool, true, false, ◌||◌, Option, none, some, ltb, ◌==◌,
  length, drop, arith, length-drop, Bool-cases, inl, inr,
}
use frr_visible.Base.Outcome.{ret}
use frr_visible.Base.Bytes.{be16}
use frr_visible.Base.Text.{Text, text_eq_instance}
use frr_visible.Base.Map.{Map}
use frr_visible.Bmp.Peers.{tlv_loop, after_opens, then_skip, skip_open, peer_up_vrf, learn_name}

tlv_loop_returns : (f : ℕ) (p : List ℕ) → length p < f → (t : Text) × (tlv_loop f p ≡ ret t)
unfolding tlv_loop
tlv_loop_returns zero p h = absurd (omega arith)
tlv_loop_returns (suc f) p h =
    elim (Bool-cases (ltb (length p) 4 || ltb (length p) (4 + be16 p 2))) [
      | inl done ↦ rw (done, tlv_loop) (_, refl)
      | inr fits ↦ elim (Bool-cases (be16 p 0 == 3)) [
        | inl name ↦ rw (fits, tlv_loop) (rw (name, tlv_loop) (_, refl))
        | inr other ↦
            rw (fits, tlv_loop)
              (rw (other, tlv_loop)
                (tlv_loop_returns f (drop (4 + be16 p 2) p)
                  (ground (arith, length-drop (4 + be16 p 2) p))))
      ]
    ]

after_opens_returns : (o : Option (List ℕ)) → (t : Text) × (after_opens o ≡ ret t)
after_opens_returns none = (_, refl)
after_opens_returns (some p) = tlv_loop_returns (suc (length p)) p (omega arith)

peer_up_vrf_returns : (body : List ℕ) → (t : Text) × (peer_up_vrf body ≡ ret t)
unfolding peer_up_vrf
peer_up_vrf_returns body =
    let p = drop 42 body in
    elim (Bool-cases (ltb (length body) 42 || ltb (length p) 20)) [
      | inl short ↦ rw short (_, refl)
      | inr long ↦ rw long (after_opens_returns (then_skip (skip_open (drop 20 p))))
    ]

-- The name of a peer is found on every message.
pub learn_name_returns :
    (links : Option (List (ℕ × Text))) (up : Bool) (body : List ℕ) (vrf : Map ℕ Text)
    → (r : Text × Map ℕ Text) × (learn_name links up body vrf ≡ ret r)
unfolding learn_name
learn_name_returns links true body vrf = let (t, e) = peer_up_vrf_returns body in rw e (_, refl)
learn_name_returns links false body vrf = (_, refl)
