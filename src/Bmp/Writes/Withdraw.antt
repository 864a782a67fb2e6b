-- ===== src/Bmp/Writes/Withdraw.antt =====
-- internal/ingest/bmp.go: what writeVPNRoute writes for an announcement and deletes for a withdrawal.
use frr_visible.Base.{
  ℕ, ◌≡◌, refl, List, [], ◌∷◌, ◌++◌, Bool, true, false, not, All, arith, append_assoc, map, String,
}
use frr_visible.Base.Text.{Text, lit, is_empty}
use frr_visible.Net.{Ip}
use frr_visible.Gnmi.{
  GnmiPath, elem, with_leaf, leaf_update, Effect, updates, emits, observes, Wiring, emit, observe,
}
use frr_visible.Bmp.Writes.{write_vpn_route, vpn_route_elems}

-- The paths that the calls write, and those that they delete.
unfoldable pub written : List Effect → List GnmiPath
written [] = []
written (updates o us ds ∷ es) = frr_visible.Base.map (λ u. u.path) us ++ written es
written (emits b k y d r ∷ es) = written es
written (observes p s b d ∷ es) = written es

unfoldable pub deleted : List Effect → List GnmiPath
deleted [] = []
deleted (updates o us ds ∷ es) = ds ++ deleted es
deleted (emits b k y d r ∷ es) = deleted es
deleted (observes p s b d ∷ es) = deleted es

-- A leaf under the state of the list entry at `p`.
abbrev pub IsLeafOf : GnmiPath → GnmiPath → Type 0
IsLeafOf p q = (leaf : Text) × (q ≡ p ++ elem "state" ∷ record { name = leaf; key = [] } ∷ [])

pub written-append : (xs ys : List Effect) → written (xs ++ ys) ≡ written xs ++ written ys
unfolding written
written-append [] ys = refl
written-append (updates o us ds ∷ xs) ys =
    rw (written-append xs ys, append_assoc (map (λ u. u.path) us) (written xs) (written ys))
written-append (emits b k y d r ∷ xs) ys = written-append xs ys
written-append (observes p s b d ∷ xs) ys = written-append xs ys

pub deleted-append : (xs ys : List Effect) → deleted (xs ++ ys) ≡ deleted xs ++ deleted ys
unfolding deleted
deleted-append [] ys = refl
deleted-append (updates o us ds ∷ xs) ys =
    rw (deleted-append xs ys, append_assoc ds (deleted xs) (deleted ys))
deleted-append (emits b k y d r ∷ xs) ys = deleted-append xs ys
deleted-append (observes p s b d ∷ xs) ys = deleted-append xs ys

module _ (w : Wiring) (a : Text) (b : Text) (c : Text) (d : Text) (r : Bool) where
  pub written-emit : written (emit w a b c d r) ≡ []
  unfolding emit written
  written-emit = ground arith

  pub deleted-emit : deleted (emit w a b c d r) ≡ []
  unfolding emit deleted
  deleted-emit = ground arith

module _ (w : Wiring) (p : Text) (s : ℕ) (b : Bool) (d : Text) where
  pub written-observe : written (observe w p s b d) ≡ []
  unfolding observe written
  written-observe = ground arith

  pub deleted-observe : deleted (observe w p s b d) ≡ []
  unfolding observe deleted
  deleted-observe = ground arith

ruleset call_laws =
    (written-append, deleted-append, written-emit, deleted-emit, written-observe, deleted-observe)

-- For one route, whatever the peers, labels, next hops and targets of the calls are: a withdrawal
-- deletes exactly the route's list entry and writes nothing; an announcement deletes nothing, and every
-- leaf that it writes lies under that entry.
pub write_vpn_route_covered :
    (w : Wiring) (peer peer' nh nh' : Ip) (rd prefix : Text) (label label' : ℕ)
    (rts rts' : List Text)
    → (deleted (write_vpn_route w peer' rd prefix label' nh' rts' true)
        ≡ vpn_route_elems rd prefix [] ∷ [])
      × (written (write_vpn_route w peer' rd prefix label' nh' rts' true) ≡ [])
      × (deleted (write_vpn_route w peer rd prefix label nh rts false) ≡ [])
      × All
          (IsLeafOf (vpn_route_elems rd prefix []))
          (written (write_vpn_route w peer rd prefix label nh rts false))
unfolding write_vpn_route
write_vpn_route_covered w peer peer' nh nh' rd prefix label label' rts rts' = (
  simp call_laws (unfold deleted in rw deleted-emit),
  simp call_laws (unfold written in rw written-emit),
  simp call_laws (unfold deleted in refl),
  simp call_laws (
      unfold written leaf_update in
      (
        (lit "label", under rd prefix "label" (unfold lit in refl)),
        (
          (lit "next-hop", under rd prefix "next-hop" (unfold lit in refl)),
          (
            (lit "route-target", under rd prefix "route-target" (unfold lit in refl)),
            ((lit "peer", under rd prefix "peer" (unfold lit in refl)), tt),
          ),
        ),
      )),
)
  where
    under :
        (rd prefix : Text) (leaf : String)
        → is_empty (lit leaf) ≡ false
        → vpn_route_elems rd prefix (lit leaf)
          ≡ vpn_route_elems rd prefix [] ++ elem "state" ∷ record { name = lit leaf; key = [] } ∷ []
    under rd prefix leaf h = unfold vpn_route_elems with_leaf in rw h
