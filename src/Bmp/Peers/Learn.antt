-- ===== src/Bmp/Peers/Learn.antt =====
-- internal/ingest/bmp.go: the table from route distinguishers to VRF names, over the peer messages.
use frr_visible.Base.{
  ℕ, ◌≡◌, ◌≢◌, refl, List, Bool, false, Option, none, some, arith, Bool-cases, Option-cases, inl,
  inr,
}
use frr_visible.Base.Map.{Map, lookup, insert, lookup-insert}
use frr_visible.Base.Text.{Text, is_empty, text_eq_iff, text_eq_instance}
use frr_visible.Bmp.Wire.{PerPeer, per_peer}
use frr_visible.Base.Outcome.{ret, stuck}
use frr_visible.Net.{is_unspecified}
use frr_visible.Gnmi.{Effect}
use frr_visible.Bmp.Peers.Tlvs.{learn_name_returns}
use frr_visible.Bmp.Peers.{Bmp, peer_vrf, learned, learn_name, peer_state, peer_state_of}

keeps-learned :
    (rd q : Text) (name : Text) (p : Text × Map ℕ Text) (b : Bmp)
    → lookup rd b.rd_vrf ≡ none
    → lookup q b.rd_vrf ≡ some name
    → lookup q (learned rd p b).1.rd_vrf ≡ some name
keeps-learned rd q name p b free h =
    ground (arith, lookup-insert rd q p.0 b.rd_vrf, text_eq_iff rd q)

keeps-peer_vrf :
    (links : Option (List (ℕ × Text))) (up : Bool) (body : List ℕ) (rd q name : Text) (b : Bmp)
    → lookup q b.rd_vrf ≡ some name
    → (r : Text × Bmp) × (peer_vrf links up body rd b ≡ ret r) × (lookup q r.1.rd_vrf ≡ some name)
unfolding peer_vrf
keeps-peer_vrf links up body rd q name b h = elim (Bool-cases (is_empty rd)) [
  | inl global ↦ rw global (_, refl, h)
  | inr local ↦ elim (Option-cases (lookup rd b.rd_vrf)) [
    | inl free ↦
        let (found, e) = learn_name_returns links up body b.vrf in
        rw (local, free, e) (_, refl, keeps-learned rd q name found b free h)
    | inr (n, known) ↦ rw (local, known) (_, refl, h)
  ]
]

keeps-peer_state_of :
    (h : Option PerPeer) (links : Option (List (ℕ × Text))) (body : List ℕ) (up : Bool) (b : Bmp)
    (q name : Text)
    → lookup q b.rd_vrf ≡ some name
    → (r : Bmp × List Effect) × (peer_state_of h links body up b ≡ ret r)
      × (lookup q r.0.rd_vrf ≡ some name)
keeps-peer_state_of none links body up b q name k = (_, refl, k)
keeps-peer_state_of (some h) links body up b q name k = elim (Bool-cases (is_unspecified h.peer)) [
  | inl no_peer ↦ rw no_peer (_, refl, k)
  | inr a_peer ↦
      let (r, e, kept) = keeps-peer_vrf links up body h.rd q name b k in
      rw (a_peer, e) (_, refl, kept)
]

-- A peer-up or peer-down message is handled to its end, and once a route distinguisher has a VRF name,
-- none changes it.
pub peer_state_keeps :
    (links : Option (List (ℕ × Text))) (body : List ℕ) (up : Bool) (b : Bmp) (q name : Text)
    → lookup q b.rd_vrf ≡ some name
    → (r : Bmp × List Effect) × (peer_state links body up b ≡ ret r)
      × (lookup q r.0.rd_vrf ≡ some name)
unfolding peer_state
peer_state_keeps links body up b q name h =
    keeps-peer_state_of (per_peer body) links body up b q name h

peer_vrf_returns :
    (links : Option (List (ℕ × Text))) (up : Bool) (body : List ℕ) (rd : Text) (b : Bmp)
    → (r : Text × Bmp) × (peer_vrf links up body rd b ≡ ret r)
unfolding peer_vrf
peer_vrf_returns links up body rd b = elim (Bool-cases (is_empty rd)) [
  | inl global ↦ rw global (_, refl)
  | inr local ↦ elim (Option-cases (lookup rd b.rd_vrf)) [
    | inl free ↦
        let (found, e) = learn_name_returns links up body b.vrf in rw (local, free, e) (_, refl)
    | inr (n, known) ↦ rw (local, known) (_, refl)
  ]
]

peer_state_of-ne-stuck :
    (h : Option PerPeer) (links : Option (List (ℕ × Text))) (body : List ℕ) (up : Bool) (b : Bmp)
    → peer_state_of h links body up b ≢ stuck
peer_state_of-ne-stuck none links body up b = λ e. cc
peer_state_of-ne-stuck (some h) links body up b = elim (Bool-cases (is_unspecified h.peer)) [
  | inl no_peer ↦ rw no_peer (λ e. cc)
  | inr a_peer ↦ rw (a_peer, (peer_vrf_returns links up body h.rd b).1) (λ e. cc)
]

-- A peer message is handled to its end.
pub peer_state-ne-stuck :
    (links : Option (List (ℕ × Text))) (body : List ℕ) (up : Bool) (b : Bmp)
    → peer_state links body up b ≢ stuck
unfolding peer_state
peer_state-ne-stuck links body up b = peer_state_of-ne-stuck (per_peer body) links body up b

-- A peer message with a distinguisher that the table does not have yet, and from which a name can be
-- learned, is filed under that name, and so is every later message with that distinguisher, up or down
-- and whatever VRF devices there are by then.
pub peer_vrf_stable :
    (links later : Option (List (ℕ × Text))) (body body' : List ℕ) (up up' : Bool) (rd name : Text)
    (vrf' : Map ℕ Text) (b : Bmp)
    → is_empty name ≡ false
    → learn_name links up body b.vrf ≡ ret (name, vrf')
    → is_empty rd ≡ false
    → lookup rd b.rd_vrf ≡ none
    → (b' : Bmp) × (peer_vrf links up body rd b ≡ ret (name, b'))
      × (peer_vrf later up' body' rd b' ≡ ret (name, b'))
unfolding peer_vrf
peer_vrf_stable links later body body' up up' rd name vrf' b hn hl hr free = (
  record { rd_vrf = insert rd name b.rd_vrf; vrf = vrf' },
  rw (hr, free, hl, hn) refl,
  rw (hr, lookup-insert rd rd name b.rd_vrf, (text_eq_iff rd rd).1 refl) refl,
)
