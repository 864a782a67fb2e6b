-- ===== src/Bmp/Writes/EvpnWithdraw.antt =====
-- internal/ingest/bmp.go: what writeEVPN writes for an announcement and deletes for a withdrawal.
use frr_visible.Base.{
  ◌≡◌, refl, List, [], ◌∷◌, ◌++◌, Bool, true, false, All, arith, String, if◌then◌else◌,
}
use frr_visible.Base.Text.{Text, lit, is_empty, text_eq}
use frr_visible.Net.{Ip}
use frr_visible.Gnmi.{elem, with_leaf, leaf_update, Effect, Wiring, observe}
use frr_visible.Bmp.Writes.{write_evpn, evpn_route_elems}
use frr_visible.Bmp.Writes.Withdraw.{
  written, deleted, IsLeafOf, written-append, deleted-append, written-emit, deleted-emit,
  written-observe, deleted-observe,
}

module _ (w : Wiring) (kind key d : Text) (b : Bool) where
  abbrev told : List Effect
  told = if text_eq kind (lit "prefix") then observe w key 0 b d else []

  written-told : written told ≡ []
  unfolding written
  written-told = ground (arith, written-observe w key 0 b d)

  deleted-told : deleted told ≡ []
  unfolding deleted
  deleted-told = ground (arith, deleted-observe w key 0 b d)

under :
    (rd kind key : Text) (leaf : String)
    → is_empty (lit leaf) ≡ false
    → evpn_route_elems rd kind key (lit leaf)
      ≡ evpn_route_elems rd kind key [] ++ elem "state" ∷ record { name = lit leaf; key = [] } ∷ []
under rd kind key leaf h = unfold evpn_route_elems with_leaf in rw h

-- For one EVPN route of any kind, whatever the peers, next hops and targets of the calls are: a
-- withdrawal deletes exactly the route's list entry and writes nothing; an announcement deletes
-- nothing, and every leaf that it writes lies under that entry.
pub write_evpn_covered :
    (w : Wiring) (peer peer' nh nh' : Ip) (kind rd key : Text) (rts rts' : List Text)
    → (deleted (write_evpn w peer' kind rd key nh' rts' true)
        ≡ evpn_route_elems rd kind key [] ∷ [])
      × (written (write_evpn w peer' kind rd key nh' rts' true) ≡ [])
      × (deleted (write_evpn w peer kind rd key nh rts false) ≡ [])
      × All
          (IsLeafOf (evpn_route_elems rd kind key []))
          (written (write_evpn w peer kind rd key nh rts false))
unfolding write_evpn
write_evpn_covered w peer peer' nh nh' kind rd key rts rts' = (
  rw (deleted-append, deleted-emit, deleted-append, deleted-told) (unfold deleted in refl),
  rw (written-append, written-emit, written-append, written-told) (unfold written in refl),
  rw (deleted-append, deleted-emit, deleted-append, deleted-told) (unfold deleted in refl),
  rw (written-append, written-emit, written-append, written-told)
      (unfold written leaf_update in
        (
          (lit "next-hop", under rd kind key "next-hop" (unfold lit in refl)),
          (
            (lit "route-target", under rd kind key "route-target" (unfold lit in refl)),
            ((lit "peer", under rd kind key "peer" (unfold lit in refl)), tt),
          ),
        )),
)
