-- ===== src/PathTrace/Lookups/Fib/Collect.antt =====
-- cmd/pathtrace-exporter/main.go: the first loop of routeLookup on the leaves of a forwarding table.
use frr_visible.Base.{
  ◌≡◌, refl, sym, ap, ◌∙◌, ◌≢◌, subst, List, [], ◌∷◌, All, Bool, false, inl, inr, Bool-cases,
}
use frr_visible.Base.Text.{Text, is_empty, text_eq, text_eq_iff, text_eq_instance}
use frr_visible.Base.Map.{Map, lookup}
use frr_visible.Gnmi.{Update}
use frr_visible.PathTrace.Lookups.{RouteEntry, routes_by_prefix}
use frr_visible.PathTrace.Lookups.Fib.{
  FibRoute, IsIn, IsLeaf, ArePrefixesApart, nexthop_leaf, labels_leaf, collected,
}
use frr_visible.PathTrace.Lookups.Fib.Leaf.{leaf-prefix, meet_other, meet_own, Known}

-- All is known of a step and of what follows it.
Known-trans :
    {r : FibRoute} {n l : Bool} (u : Update) (us : List Update) (m m' : Map Text RouteEntry)
    → (step : Known r n l (u ∷ []) m) → Known r step.nexthop_known step.labels_known us m'
    → Known r n l (u ∷ us) m'
Known-trans u us m m' step rest = record {
  nexthop_known = rest.nexthop_known;
  labels_known = rest.labels_known;
  known = rest.known;
  nexthop_told = λ t. elim t [
    | inl k ↦ rest.nexthop_told (inl (step.nexthop_told (inl k)))
    | inr (inl k) ↦ rest.nexthop_told (inl (step.nexthop_told (inr (inl k))))
    | inr (inr k) ↦ rest.nexthop_told (inr k)
  ];
  labels_told = λ t. elim t [
    | inl k ↦ rest.labels_told (inl (step.labels_told (inl k)))
    | inr (inl k) ↦ rest.labels_told (inl (step.labels_told (inr (inl k))))
    | inr (inr k) ↦ rest.labels_told (inr k)
  ];
}

-- An update that is no leaf of the route tells nothing of it.
Known-other :
    {r : FibRoute} {n l : Bool} (u : Update) (us : List Update) (m : Map Text RouteEntry)
    → nexthop_leaf r ≢ u
    → labels_leaf r ≢ u
    → Known r n l us m
    → Known r n l (u ∷ us) m
Known-other u us m no_nexthop no_labels rest = record {
  nexthop_known = rest.nexthop_known;
  labels_known = rest.labels_known;
  known = rest.known;
  nexthop_told = λ t. elim t [
    | inl k ↦ rest.nexthop_told (inl k)
    | inr (inl k) ↦ absurd (no_nexthop k)
    | inr (inr k) ↦ rest.nexthop_told (inr k)
  ];
  labels_told = λ t. elim t [
    | inl k ↦ rest.labels_told (inl k)
    | inr (inl k) ↦ absurd (no_labels k)
    | inr (inr k) ↦ rest.labels_told (inr k)
  ];
}

not_leaf : (r s : FibRoute) (u : Update) → IsLeaf s u → s.prefix ≢ r.prefix → IsLeaf r u → ⊥
not_leaf r s u leaf ne own = ne (sym (leaf-prefix s u leaf) ∙ leaf-prefix r u own)

module _ (rs : List FibRoute) (valid : (r : FibRoute) → IsIn rs r → is_empty r.prefix ≡ false) where
  abbrev pub AreLeaves : List Update → Type 0
  AreLeaves us = All (λ u. (s : FibRoute) × IsIn rs s × IsLeaf s u) us

  pub collects :
      (apart : ArePrefixesApart rs) (r : FibRoute) (at : IsIn rs r) (us : List Update)
      (m : Map Text RouteEntry) (n l : Bool)
      → AreLeaves us
      → lookup r.prefix m ≡ collected r n l
      → Known r n l us (routes_by_prefix us m)
  unfolding routes_by_prefix
  collects apart r at [] m n l h known = record {
    nexthop_known = n;
    labels_known = l;
    known = known;
    nexthop_told = λ t. elim t [ inl k ↦ k | inr k ↦ elim k [ ] ];
    labels_told = λ t. elim t [ inl k ↦ k | inr k ↦ elim k [ ] ];
  }
  collects apart r at (u ∷ us) m n l ((s, at_s, leaf), h) known =
      elim (Bool-cases (text_eq s.prefix r.prefix)) [
        | inl same ↦
            let e : s ≡ r = apart s r at_s at ((text_eq_iff s.prefix r.prefix).0 same) in
            let step = meet_own r u us m n l (valid r at) (subst (λ x. IsLeaf x u) e leaf) known in
            subst (Known r n l (u ∷ us)) (sym (step.1)) (
              Known-trans u us (step.0) _ (step.2) (
                collects apart r at us (step.0) step.2.nexthop_known step.2.labels_known h
                  step.2.known))
        | inr differ ↦
            let ne : s.prefix ≢ r.prefix = λ e. cc (differ, (text_eq_iff s.prefix r.prefix).1 e) in
            let step = meet_other s u us m r.prefix (valid s at_s) leaf ne in
            subst (Known r n l (u ∷ us)) (sym (step.1)) (
              Known-other u us _ (λ e. not_leaf r s u leaf ne (inl (sym e)))
                (λ e. not_leaf r s u leaf ne (inr (sym e)))
                (collects apart r at us (step.0) n l h (step.2 ∙ known)))
      ]

  -- A prefix of no route stays out.
  pub collects_nothing :
      (q : Text) (us : List Update) (m : Map Text RouteEntry)
      → AreLeaves us
      → ((s : FibRoute) → IsIn rs s → s.prefix ≢ q)
      → lookup q (routes_by_prefix us m) ≡ lookup q m
  unfolding routes_by_prefix
  collects_nothing q [] m h none_of = refl
  collects_nothing q (u ∷ us) m ((s, at_s, leaf), h) none_of =
      let step = meet_other s u us m q (valid s at_s) leaf (none_of s at_s) in
      ap (lookup q) (step.1) ∙ (collects_nothing q us (step.0) h none_of ∙ step.2)
