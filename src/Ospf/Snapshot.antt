-- ===== src/Ospf/Snapshot.antt =====
-- internal/ingest/ospf.go: the ingester's state after a reconcile, against the snapshot.
use frr_visible.Base.{◌≡◌, refl, ◌∙◌, [], ◌∷◌, Option, none, some, arith, ◌↔◌, ap}
use frr_visible.Base.Map.{
  Map, lookup, insert, delete, lookup-insert, lookup-delete, IsDistinct, insert-IsDistinct,
}
use frr_visible.Base.Text.{Text, text_eq_iff, text_eq_instance}
use frr_visible.Gnmi.{Wiring}
use frr_visible.Ospf.{Neighbor, Ospf, adj_state, present_loop, gone_loop, reconcile_with}

abbrev pub state_of : Option Neighbor → Option Text
state_of none = none
state_of (some n) = some (adj_state n.state)

abbrev pub iface_of : Option Neighbor → Option Text
iface_of none = none
iface_of (some n) = some n.iface

abbrev pub or_else : Option Text → Option Text → Option Text
or_else none d = d
or_else (some x) d = some x

-- What the second loop leaves of a neighbor's state.
abbrev left_over : Option Text → Option Text → Option Text → Option Text
left_over none old st = st
left_over (some i) none st = none
left_over (some i) (some j) st = st

abbrev pub nothing_seen : Map Text Text
nothing_seen = []

module _ (w : Wiring) where
  pub lookup-present :
      (cur : Map Text Neighbor) (seen st : Map Text Text) (r : Text)
      → IsDistinct cur
      → (lookup r (present_loop w cur seen st).seen
          ≡ or_else (iface_of (lookup r cur)) (lookup r seen))
        × (lookup r (present_loop w cur seen st).st
            ≡ or_else (state_of (lookup r cur)) (lookup r st))
  unfolding present_loop lookup
  lookup-present [] seen st r h = (refl, refl)
  lookup-present ((rid, n) ∷ cur) seen st r h =
      let ih =
        lookup-present cur (insert rid n.iface seen) (insert rid (adj_state n.state) st) r h.1 in
      (
        ground (arith, ih.0, lookup-insert rid r n.iface seen, text_eq_iff rid r, h.0),
        ground (arith, ih.1, lookup-insert rid r (adj_state n.state) st, text_eq_iff rid r, h.0),
      )

  lookup-gone :
      (old seen st : Map Text Text) (r : Text)
      → lookup r (gone_loop w old seen st).0
        ≡ left_over (lookup r old) (lookup r seen) (lookup r st)
  unfolding gone_loop lookup
  lookup-gone [] seen st r = refl
  lookup-gone ((rid, iface) ∷ old) seen st r = ground (
    arith,
    lookup-gone old seen st r,
    lookup-gone old seen (delete rid st) r,
    lookup-delete rid r st,
    text_eq_iff rid r,
  )

  present-IsDistinct :
      (cur : Map Text Neighbor) (seen st : Map Text Text)
      → IsDistinct seen
      → IsDistinct (present_loop w cur seen st).seen
  unfolding present_loop
  present-IsDistinct [] seen st h = h
  present-IsDistinct ((rid, n) ∷ cur) seen st h =
      present-IsDistinct cur (insert rid n.iface seen) (insert rid (adj_state n.state) st)
        (insert-IsDistinct rid n.iface seen h)

-- The invariant of the ingester: no neighbor is seen twice, and exactly the seen ones have a state.
pub record IsTracked (o : Ospf) : Type 0 where
  pub distinct : IsDistinct o.seen
  pub stated : (r : Text) → (lookup r o.seen ≡ none) ↔ (lookup r o.st ≡ none)

-- `o` is what the snapshot says, and nothing else.
pub record Mirrors (cur : Map Text Neighbor) (o : Ospf) : Type 0 where
  pub faces : (r : Text) → lookup r o.seen ≡ iface_of (lookup r cur)
  pub states : (r : Text) → lookup r o.st ≡ state_of (lookup r cur)

pub or_else-none : (o : Option Text) → or_else o none ≡ o
or_else-none none = refl
or_else-none (some x) = refl

settled :
    (n : Option Neighbor) (seen old_st st : Option Text)
    → (seen ≡ none → old_st ≡ none)
    → st ≡ or_else (state_of n) old_st
    → left_over seen (iface_of n) st ≡ state_of n
settled none none old_st st h e = e ∙ h refl
settled none (some i) old_st st h e = refl
settled (some n) none old_st st h e = e
settled (some n) (some i) old_st st h e = e

-- After a reconcile with any snapshot that has no router id twice, from any state in which no neighbor
-- is seen twice and exactly the seen ones have a state, the seen neighbors are those of the snapshot,
-- each with the snapshot's interface and adjacency state: a transition that syslog lost is made up for.
pub reconcile-Mirrors :
    (w : Wiring) (cur : Map Text Neighbor) (o : Ospf)
    → IsDistinct cur
    → IsTracked o
    → Mirrors cur (reconcile_with w cur o).0
unfolding reconcile_with
reconcile-Mirrors w cur o hd h = record {
  faces = λ r. (lookup-present w cur [] o.st r hd).0 ∙ none_before r;
  states = λ r.
      lookup-gone w o.seen (present_loop w cur [] o.st).seen (present_loop w cur [] o.st).st r
      ∙ ap (λ x. left_over (lookup r o.seen) x (lookup r (present_loop w cur [] o.st).st))
          ((lookup-present w cur [] o.st r hd).0 ∙ none_before r)
      ∙ settled (lookup r cur) (lookup r o.seen) (lookup r o.st) _ (h.stated r).0
          (lookup-present w cur [] o.st r hd).1;
}
  where
    none_before :
        (r : Text)
        → or_else (iface_of (lookup r cur)) (lookup r nothing_seen) ≡ iface_of (lookup r cur)
    none_before r = unfold lookup in or_else-none (iface_of (lookup r cur))

-- A reconcile with a snapshot that has no router id twice keeps the invariant: no neighbor is seen
-- twice, and exactly the seen neighbors have a state.
pub reconcile-IsTracked :
    (w : Wiring) (cur : Map Text Neighbor) (o : Ospf)
    → IsDistinct cur
    → IsTracked o
    → IsTracked (reconcile_with w cur o).0
reconcile-IsTracked w cur o hd h =
    let m : Mirrors cur (reconcile_with w cur o).0 = reconcile-Mirrors w cur o hd h in
    record {
      distinct = unfold reconcile_with in present-IsDistinct w cur [] o.st tt;
      stated = λ r. both (lookup r cur) (m.faces r) (m.states r);
    }
  where
    both :
        {a b : Option Text} (n : Option Neighbor)
        → a ≡ iface_of n
        → b ≡ state_of n
        → (a ≡ none) ↔ (b ≡ none)
    both none ea eb = (λ _. eb, λ _. ea)
    both (some n) ea eb = (λ e. cc, λ e. cc)
