-- ===== src/PathTrace/Lookups/Fib/Leaf.antt =====
-- cmd/pathtrace-exporter/main.go: one round of the first loop of routeLookup, on a leaf of a forwarding
-- table.
use frr_visible.Base.{
  ◌≡◌, refl, sym, ap, ◌∙◌, ◌⊎◌, ◌≢◌, List, [], ◌∷◌, Bool, true, false, Option, none, some, arith,
  inl, inr,
}
use frr_visible.Base.Text.{Text, lit, is_empty, text_eq, text_eq_iff, text_eq_instance}
use frr_visible.Base.Map.{Map, lookup, insert, lookup-insert}
use frr_visible.Gnmi.{Update}
use frr_visible.Fpm.Attrs.{labels_csv}
use frr_visible.Fpm.Routes.{aft_path}
use frr_visible.PathTrace.Lookups.{RouteEntry, dissect, routes_by_prefix, entry_or_blank}
use frr_visible.PathTrace.Lookups.Fib.{
  FibRoute, IsIn, IsLeaf, nexthop_leaf, labels_leaf, collected, meet_nexthop, meet_labels,
}

-- The prefix and the name of a leaf.
abbrev key_of : Option Text → Text
key_of none = []
key_of (some k) = k

abbrev prefix_of : Update → Text
prefix_of u = key_of (lookup (lit "prefix") (dissect u.path).0)

abbrev name_of : Update → Text
name_of u = (dissect u.path).1

pub leaf-prefix : (s : FibRoute) (u : Update) → IsLeaf s u → prefix_of u ≡ s.prefix
unfolding dissect aft_path lit text_eq lookup insert
leaf-prefix s u (inl e) = rw e refl
leaf-prefix s u (inr e) = rw e refl

nexthop_leaf-ne-labels_leaf : (r : FibRoute) → nexthop_leaf r ≢ labels_leaf r
unfolding dissect aft_path lit text_eq
nexthop_leaf-ne-labels_leaf r e = cc (ap (λ u. text_eq (name_of u) (lit "next-hop")) e)

abbrev pub with_nexthop : FibRoute → Option RouteEntry → RouteEntry
with_nexthop s o = record (entry_or_blank o) { nh = s.nexthop; vrf = s.vrf }

abbrev pub with_labels : FibRoute → Option RouteEntry → RouteEntry
with_labels s o = record (entry_or_blank o) { lbl = labels_csv s.labels }

collected-nexthop :
    (r : FibRoute) (n l : Bool) → some (with_nexthop r (collected r n l)) ≡ collected r true l
collected-nexthop r false false = refl
collected-nexthop r false true = refl
collected-nexthop r true l = refl

collected-labels :
    (r : FibRoute) (n l : Bool) → some (with_labels r (collected r n l)) ≡ collected r n true
collected-labels r false false = refl
collected-labels r false true = refl
collected-labels r true l = refl

pub lookup-insert_self :
    (k : Text) (v : RouteEntry) (m : Map Text RouteEntry) → lookup k (insert k v m) ≡ some v
lookup-insert_self k v m = ground (arith, lookup-insert k k v m, text_eq_iff k k)

lookup-insert_other :
    (k q : Text) (v : RouteEntry) (m : Map Text RouteEntry)
    → k ≢ q
    → lookup q (insert k v m) ≡ lookup q m
lookup-insert_other k q v m ne = ground (arith, lookup-insert k q v m, text_eq_iff k q)

-- The map after an update that is a leaf of `s`.
abbrev after : FibRoute → RouteEntry → Map Text RouteEntry → Map Text RouteEntry
after s v m = insert s.prefix v m

-- A leaf of another prefix leaves what is known of the route as it was.
pub meet_other :
    (s : FibRoute) (u : Update) (us : List Update) (m : Map Text RouteEntry) (q : Text)
    → is_empty s.prefix ≡ false
    → IsLeaf s u
    → s.prefix ≢ q
    → (m' : Map Text RouteEntry) × (routes_by_prefix (u ∷ us) m ≡ routes_by_prefix us m')
      × (lookup q m' ≡ lookup q m)
meet_other s u us m q h (inl e) ne = (
  after s (with_nexthop s (lookup s.prefix m)) m,
  ap (λ x. routes_by_prefix (x ∷ us) m) e ∙ meet_nexthop s us m h,
  lookup-insert_other s.prefix q _ m ne,
)
meet_other s u us m q h (inr e) ne = (
  after s (with_labels s (lookup s.prefix m)) m,
  ap (λ x. routes_by_prefix (x ∷ us) m) e ∙ meet_labels s us m h,
  lookup-insert_other s.prefix q _ m ne,
)

-- What is known of a route after more updates, and what they told.
pub record Known (r : FibRoute) (n l : Bool) (us : List Update) (m : Map Text RouteEntry)
    : Type 0 where
  pub nexthop_known : Bool
  pub labels_known : Bool
  pub known : lookup r.prefix m ≡ collected r nexthop_known labels_known
  pub nexthop_told : (n ≡ true) ⊎ IsIn us (nexthop_leaf r) → nexthop_known ≡ true
  pub labels_told : (l ≡ true) ⊎ IsIn us (labels_leaf r) → labels_known ≡ true

-- What a leaf of the route adds to what is known of it.
pub meet_own :
    (r : FibRoute) (u : Update) (us : List Update) (m : Map Text RouteEntry) (n l : Bool)
    → is_empty r.prefix ≡ false
    → IsLeaf r u
    → lookup r.prefix m ≡ collected r n l
    → (m' : Map Text RouteEntry) × (routes_by_prefix (u ∷ us) m ≡ routes_by_prefix us m')
      × Known r n l (u ∷ []) m'
meet_own r u us m n l h (inl e) known = (
  after r (with_nexthop r (lookup r.prefix m)) m,
  ap (λ x. routes_by_prefix (x ∷ us) m) e ∙ meet_nexthop r us m h,
  record {
    nexthop_known = true;
    labels_known = l;
    known =
        lookup-insert_self r.prefix _ m
        ∙ (ap (λ o. some (with_nexthop r o)) known ∙ collected-nexthop r n l);
    nexthop_told = λ t. refl;
    labels_told = λ t. elim t [
      | inl k ↦ k
      | inr (inl k) ↦ absurd (nexthop_leaf-ne-labels_leaf r (sym e ∙ sym k))
      | inr (inr k) ↦ elim k [ ]
    ];
  },
)
meet_own r u us m n l h (inr e) known = (
  after r (with_labels r (lookup r.prefix m)) m,
  ap (λ x. routes_by_prefix (x ∷ us) m) e ∙ meet_labels r us m h,
  record {
    nexthop_known = n;
    labels_known = true;
    known =
        lookup-insert_self r.prefix _ m
        ∙ (ap (λ o. some (with_labels r o)) known ∙ collected-labels r n l);
    nexthop_told = λ t. elim t [
      | inl k ↦ k
      | inr (inl k) ↦ absurd (nexthop_leaf-ne-labels_leaf r (k ∙ e))
      | inr (inr k) ↦ elim k [ ]
    ];
    labels_told = λ t. refl;
  },
)
