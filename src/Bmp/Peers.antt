-- ===== src/Bmp/Peers.antt =====
-- internal/ingest/bmp.go: peerState, peerUpVRF and the table from route distinguishers to VRF names. The
-- mutex makes each access to the table one step; a whole peerState call is one step here, so two
-- connections that learn the same distinguisher at once are not interleaved.
pub mod Learn
pub mod Tlvs
use frr_visible.Base.{
  ℕ, zero, suc, ◌+◌, List, [], ◌∷◌, ◌++◌, Bool, true, false, not, ◌&&◌, ◌||◌, Option, none, some,
  if◌then◌else◌, ltb, ◌==◌, length, take, drop, nat_eq,
}
use frr_visible.Base.Outcome.{Outcome, ret, stuck, ◌>>=◌}
use frr_visible.Base.Map.{Map, lookup, insert}
use frr_visible.Base.Bytes.{byte_at, slice, be16}
use frr_visible.Base.Text.{Text, lit, itoa, is_empty, text_eq_instance}
use frr_visible.Net.{Ip, ip_string, is_unspecified}
use frr_visible.Gnmi.{Effect, updates, leaf_update, Update}
use frr_visible.Vrf
use frr_visible.Bmp.Wire.{PerPeer, per_peer, per_peer_len}
use frr_visible.Bmp.Writes.{neighbor_elems}
use frr_visible.Bmp.Updates.{bgp_hdr_len}

pub record Bmp : Type 0 where
  pub rd_vrf : Map Text Text
  pub vrf : Map ℕ Text

-- The Information TLVs: the first VRF/Table Name. Each round takes four bytes at least; fuel is the
-- length of the list and one more.
unfoldable pub tlv_loop : ℕ → List ℕ → Outcome Text
tlv_loop zero p = stuck
tlv_loop (suc f) p =
    let l = be16 p 2 in
    elim (ltb (length p) 4 || ltb (length p) (4 + l)) [
      | true ↦ ret []
      | false ↦ elim (be16 p 0 == 3) [
        | true ↦ ret (slice 4 (4 + l) p)
        | false ↦ tlv_loop f (drop (4 + l) p)
      ]
    ]

-- One OPEN message is skipped; `none` where it does not fit.
unfoldable pub skip_open : List ℕ → Option (List ℕ)
skip_open p =
    let l = be16 p 16 in
    if ltb (length p) bgp_hdr_len || (ltb l bgp_hdr_len || ltb (length p) l)
    then none
    else some (drop l p)

abbrev pub after_opens : Option (List ℕ) → Outcome Text
after_opens none = ret []
after_opens (some p) = tlv_loop (suc (length p)) p

abbrev then_skip : Option (List ℕ) → Option (List ℕ)
then_skip none = none
then_skip (some p) = skip_open p

unfoldable pub peer_up_vrf : List ℕ → Outcome Text
unfolding tlv_loop skip_open
peer_up_vrf body =
    let p = drop per_peer_len body in
    if ltb (length body) per_peer_len || ltb (length p) 20
    then ret []
    else after_opens (then_skip (skip_open (drop 20 p)))

abbrev sole : List Text → Text
sole (n ∷ []) = n
sole _ = []

-- The name for a distinguisher that the table does not have yet: "" if there is none to learn.
unfoldable pub learn_name :
    Option (List (ℕ × Text)) → Bool → List ℕ → Map ℕ Text → Outcome (Text × Map ℕ Text)
learn_name links up body vrf =
    let (names, vrf') = Vrf.non_default_names links vrf in
    (if up then peer_up_vrf body else ret [])
    >>= (λ told. ret (if is_empty told then (sole names, vrf') else (told, vrf)))

abbrev learned : Text → Text × Map ℕ Text → Bmp → Text × Bmp
learned rd (name, vrf') b =
    if is_empty name
    then (rd, record b { vrf = vrf' })
    else (name, record { rd_vrf = insert rd name b.rd_vrf; vrf = vrf' })

-- The network instance of the peer.
unfoldable pub peer_vrf :
    Option (List (ℕ × Text)) → Bool → List ℕ → Text → Bmp → Outcome (Text × Bmp)
unfolding learn_name
peer_vrf links up body rd b =
    if is_empty rd then ret (lit "default", b) else elim (lookup rd b.rd_vrf) [
      | some name ↦ ret (name, b)
      | none ↦ learn_name links up body b.vrf >>= (λ found. ret (learned rd found b))
    ]

unfoldable pub peer_updates : Bool → Text → PerPeer → List Update
peer_updates up vrf h =
    leaf_update (neighbor_elems vrf (ip_string h.peer) (lit "session-state"))
      (if up then lit "ESTABLISHED" else lit "IDLE")
    ∷ (if up && not (h.peer_as == 0)
        then leaf_update (neighbor_elems vrf (ip_string h.peer) (lit "peer-as")) (itoa h.peer_as)
          ∷ []
        else [])

abbrev peer_state_of :
    Option PerPeer → Option (List (ℕ × Text)) → List ℕ → Bool → Bmp → Outcome (Bmp × List Effect)
peer_state_of none links body up b = ret (b, [])
peer_state_of (some h) links body up b =
    if is_unspecified h.peer
    then ret (b, [])
    else peer_vrf links up body h.rd b
      >>= (λ r. ret (r.1, updates (lit "openconfig") (peer_updates up r.0 h) [] ∷ []))

unfoldable pub peer_state :
    Option (List (ℕ × Text)) → List ℕ → Bool → Bmp → Outcome (Bmp × List Effect)
unfolding peer_vrf peer_updates
peer_state links body up b = peer_state_of (per_peer body) links body up b
