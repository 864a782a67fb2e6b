-- ===== src/PathTrace/Lookups/Fib/Table.antt =====
-- internal/ingest/fpm.go and cmd/pathtrace-exporter/main.go: the table that routeLookup builds from the
-- routes that the FPM ingester has written.
use frr_visible.Base.{
  ◌≡◌, refl, sym, ap, ◌∙◌, ◌⊎◌, ◌≢◌, ℕ, List, [], ◌∷◌, All, Bool, true, false, some, if◌then◌else◌,
  inl, inr, Bool-cases,
}
use frr_visible.Base.Text.{Text, is_empty, text_eq, text_eq_iff, text_eq_instance}
use frr_visible.Base.Map.{Map, lookup, insert, IsDistinct, insert-IsDistinct}
use frr_visible.Gnmi.{Update}
use frr_visible.Fpm.Attrs.{labels_csv}
use frr_visible.PathTrace.Lookups.{RouteEntry, routes_by_prefix}
use frr_visible.PathTrace.Lookups.Fib.{
  FibRoute, IsIn, IsFib, ArePrefixesApart, fib_leaves, collected, IsLeaf-fib_leaves, IsWhole-IsFib,
}
use frr_visible.PathTrace.Lookups.Fib.Collect.{AreLeaves, collects, collects_nothing}

abbrev pub entry_of : FibRoute → RouteEntry
entry_of r = record { vrf = r.vrf; nh = r.nexthop; lbl = labels_csv r.labels }

pub routes_by_prefix-IsDistinct :
    (us : List Update) (m : Map Text RouteEntry) → IsDistinct m → IsDistinct (routes_by_prefix us m)
unfolding routes_by_prefix
routes_by_prefix-IsDistinct [] m h = h
routes_by_prefix-IsDistinct (u ∷ us) m h = routes_by_prefix-IsDistinct us _ (go _ _ _)
  where
    go : (b : Bool) (k : Text) (v : RouteEntry) → IsDistinct (if b then m else insert k v m)
    go true k v = h
    go false k v = insert-IsDistinct k v m h

-- A prefix is one of a route, or of none.
find_route :
    (q : Text) (rs : List FibRoute)
    → ((r : FibRoute) × IsIn rs r × (r.prefix ≡ q)) ⊎ ((s : FibRoute) → IsIn rs s → s.prefix ≢ q)
find_route q [] = inr (λ s h. elim h [ ])
find_route q (r ∷ rs) = elim (Bool-cases (text_eq r.prefix q)) [
  | inl same ↦ inl (r, inl refl, (text_eq_iff r.prefix q).0 same)
  | inr differ ↦ elim (find_route q rs) [
    | inl (s, at, e) ↦ inl (s, inr at, e)
    | inr none_of ↦ inr (λ s h. elim h [
      | inl e ↦ λ p. cc (differ, (text_eq_iff r.prefix q).1 (ap (λ x. x.prefix) (sym e) ∙ p))
      | inr at ↦ none_of s at
    ])
  ]
]

labels_csv_nothing : (ls : List ℕ) → ls ≡ [] → labels_csv ls ≡ []
unfolding labels_csv
labels_csv_nothing ls e = ap labels_csv e

collected-entry_of :
    (r : FibRoute) (n l : Bool)
    → n ≡ true
    → (is_empty r.labels ≡ false → l ≡ true)
    → collected r n l ≡ some (entry_of r)
collected-entry_of r n l hn hl = ap (λ b. collected r b l) hn ∙ go r.labels l refl hl
  where
    go :
        (ls : List ℕ) (b : Bool)
        → r.labels ≡ ls
        → (is_empty r.labels ≡ false → b ≡ true)
        → collected r true b ≡ some (entry_of r)
    go ls true e h = refl
    go [] false e h =
        ap (λ t. some (record { vrf = r.vrf; nh = r.nexthop; lbl = t }))
          (sym (labels_csv_nothing r.labels e))
    go (x ∷ xs) false e h = absurd (cc (h (ap is_empty e)))

module _ (rs : List FibRoute) (us : List Update)
    (valid : (r : FibRoute) → IsIn rs r → is_empty r.prefix ≡ false) (apart : ArePrefixesApart rs)
    (fib : IsFib rs us) where
  are_leaves :
      (vs : List Update)
      → All (λ u. (r : FibRoute) × IsIn rs r × IsIn (fib_leaves r) u) vs
      → AreLeaves rs valid vs
  are_leaves [] h = tt
  are_leaves (v ∷ vs) ((r, at, leaf), h) = ((r, at, IsLeaf-fib_leaves r v leaf), are_leaves vs h)

  -- The table that routeLookup builds has the route under its prefix.
  pub lookup-fib :
      (r : FibRoute) → IsIn rs r → lookup r.prefix (routes_by_prefix us []) ≡ some (entry_of r)
  unfolding lookup
  lookup-fib r at =
      let k = collects rs valid apart r at us [] false false (are_leaves us fib.sound) refl in
      let whole = IsWhole-IsFib rs us r fib at in
      k.known
      ∙ collected-entry_of r _ _ (k.nexthop_told (inr whole.says_nexthop))
          (λ e. k.labels_told (inr (whole.says_labels e)))

  -- And nothing else.
  pub route_of :
      (q : Text) (e : RouteEntry)
      → lookup q (routes_by_prefix us []) ≡ some e
      → (r : FibRoute) × IsIn rs r × (r.prefix ≡ q) × (e ≡ entry_of r)
  unfolding lookup
  route_of q e h = elim (find_route q rs) [
    | inl (r, at, p) ↦ (
      r,
      at,
      p,
      cc (sym h ∙ (ap (λ k. lookup k (routes_by_prefix us [])) (sym p) ∙ lookup-fib r at)),
    )
    | inr none_of ↦
        absurd (cc (h, collects_nothing rs valid q us [] (are_leaves us fib.sound) none_of))
  ]
