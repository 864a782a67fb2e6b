-- ===== src/Ospf/Transitions.antt =====
-- internal/ingest/ospf.go: the events that a reconcile emits about each neighbor.
use frr_visible.Base.{
  ◌≡◌, refl, ◌∙◌, ap, ap₂, List, [], ◌∷◌, ◌++◌, append-nil, true, Option, none, some, if◌then◌else◌,
  arith, ◌↔◌,
}
use frr_visible.Base.Map.{Map, lookup, insert, delete, lookup-insert, IsDistinct}
use frr_visible.Base.Text.{Text, lit, text_eq, text_eq_iff, text_eq_instance}
use frr_visible.Gnmi.{Wiring, Effect, updates, emits, observes, emit}
use frr_visible.Ospf.{
  Neighbor, Ospf, adj_state, present_loop, gone_loop, reconcile_with, transition, lower,
}
use frr_visible.Ospf.Snapshot.{or_else-none, IsTracked, state_of, iface_of, lookup-present}

-- The kinds of the events about `r`, in order.
unfoldable pub kinds : Text → List Effect → List Text
kinds r [] = []
kinds r (updates o us ds ∷ es) = kinds r es
kinds r (observes p s b d ∷ es) = kinds r es
kinds r (emits bus kind key detail root ∷ es) =
    let rest = kinds r es in if text_eq key r then kind ∷ rest else rest

kinds-append : (r : Text) (xs ys : List Effect) → kinds r (xs ++ ys) ≡ kinds r xs ++ kinds r ys
unfolding kinds
kinds-append r [] ys = refl
kinds-append r (updates o us ds ∷ xs) ys = kinds-append r xs ys
kinds-append r (observes p s b d ∷ xs) ys = kinds-append r xs ys
kinds-append r (emits bus kind key detail root ∷ xs) ys = ground (arith, kinds-append r xs ys)

-- What should be reported of a neighbor with the state `old` before and `new` in the snapshot.
abbrev pub change : Option Text → Option Text → List Text
change none new = []
change (some a) none = lit "adj-down" ∷ []
change (some a) (some b) = if text_eq a b then [] else (lit "adj-" ++ lower b) ∷ []

-- The reports of the first loop: of the neighbors in the snapshot.
abbrev changed : Option Text → Option Text → List Text
changed old none = []
changed none (some b) = []
changed (some a) (some b) = if text_eq a b then [] else (lit "adj-" ++ lower b) ∷ []

module _ (w : Wiring) (wired : w.cor ≡ true) where
  kinds-transition :
      (r rid iface new : Text) (old : Option Text)
      → kinds r (transition w rid iface new old)
        ≡ (if text_eq rid r then changed old (some new) else [])
  unfolding kinds transition emit
  kinds-transition r rid iface new none = ground arith
  kinds-transition r rid iface new (some a) = ground (arith, wired)

  kinds-present :
      (cur : Map Text Neighbor) (seen st : Map Text Text) (r : Text)
      → IsDistinct cur
      → kinds r (present_loop w cur seen st).calls ≡ changed (lookup r st) (state_of (lookup r cur))
  unfolding present_loop lookup kinds
  kinds-present [] seen st r h = refl
  kinds-present ((rid, n) ∷ cur) seen st r h =
      let st' = insert rid (adj_state n.state) st in
      let rest = (present_loop w cur (insert rid n.iface seen) st').calls in
      let told = transition w rid n.iface (adj_state n.state) (lookup rid st) in
      kinds-append r told rest
      ∙ ground (
        arith,
        kinds-transition r rid n.iface (adj_state n.state) (lookup rid st),
        kinds-present cur (insert rid n.iface seen) st' r h.1,
        lookup-insert rid r (adj_state n.state) st,
        text_eq_iff rid r,
        h.0,
        append-nil (changed (lookup rid st) (some (adj_state n.state))),
      )

  abbrev gone : Option Text → Option Text → List Text
  gone none now = []
  gone (some i) none = lit "adj-down" ∷ []
  gone (some i) (some j) = []

  kinds-gone :
      (old seen st : Map Text Text) (r : Text)
      → IsDistinct old
      → kinds r (gone_loop w old seen st).1 ≡ gone (lookup r old) (lookup r seen)
  unfolding gone_loop lookup kinds emit
  kinds-gone [] seen st r h = refl
  kinds-gone ((rid, iface) ∷ old) seen st r h = ground (
    arith,
    wired,
    kinds-gone old seen st r h.1,
    kinds-gone old seen (delete rid st) r h.1,
    text_eq_iff rid r,
    h.0,
  )

  -- Where the two loops together report a change.
  sum_of_reports :
      (old_seen old : Option Text) (n : Option Neighbor)
      → (old_seen ≡ none) ↔ (old ≡ none)
      → changed old (state_of n) ++ gone old_seen (iface_of n) ≡ change old (state_of n)
  sum_of_reports none none none e = refl
  sum_of_reports none none (some n) e = refl
  sum_of_reports none (some a) n e = cc (e.0 refl)
  sum_of_reports (some i) none n e = cc (e.1 refl)
  sum_of_reports (some i) (some a) none e = refl
  sum_of_reports (some i) (some a) (some n) e = append-nil _

  -- With a correlator wired, from any state in which no neighbor is seen twice and exactly the seen ones
  -- have a state, a reconcile with a snapshot that has no router id twice emits about each router id
  -- one event with the new state's name if its adjacency state changed, one adj-down if it is gone from
  -- the snapshot, and no event if it is new, unchanged or unknown.
  pub reconcile_reports :
      (cur : Map Text Neighbor) (o : Ospf) (r : Text)
      → IsDistinct cur
      → IsTracked o
      → kinds r (reconcile_with w cur o).1 ≡ change (lookup r o.st) (state_of (lookup r cur))
  unfolding reconcile_with
  reconcile_reports cur o r hd h =
      let now = present_loop w cur [] o.st in
      kinds-append r now.calls (gone_loop w o.seen now.seen now.st).1
      ∙ ap₂ (λ a b. a ++ b) (kinds-present cur [] o.st r hd)
          (kinds-gone o.seen now.seen now.st r h.distinct
            ∙ ap (gone (lookup r o.seen)) (seen_now cur o r hd))
      ∙ sum_of_reports (lookup r o.seen) (lookup r o.st) (lookup r cur) (h.stated r)
    where
      seen_now :
          (cur : Map Text Neighbor) (o : Ospf) (r : Text)
          → IsDistinct cur
          → lookup r (present_loop w cur [] o.st).seen ≡ iface_of (lookup r cur)
      seen_now cur o r hd =
          (lookup-present w cur [] o.st r hd).0
          ∙ (unfold lookup in or_else-none (iface_of (lookup r cur)))
