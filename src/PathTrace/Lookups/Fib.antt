-- ===== src/PathTrace/Lookups/Fib.antt =====
-- internal/ingest/fpm.go and cmd/pathtrace-exporter/main.go: the routes that the FPM ingester writes, as
-- routeLookup collects them.
pub mod Leaf
pub mod Collect
pub mod Table
pub mod Answer
pub mod Mixed
use frr_visible.Base.{
  ◌≡◌, refl, sym, ap, ◌∙◌, ◌⊎◌, ◌≢◌, ℕ, List, [], ◌∷◌, ◌++◌, All, Bool, true, false, Option, none,
  some, if◌then◌else◌, arith, inl, inr, Bool-cases,
}
use frr_visible.Base.Text.{Text, lit, is_empty, text_eq, text_eq_iff, text_eq_instance}
use frr_visible.Base.Map.{Map, lookup, insert, lookup-insert}
use frr_visible.Gnmi.{Update, Effect, updates, emits, observes, str_val}
use frr_visible.Fpm.Attrs.{labels_csv}
use frr_visible.Fpm.Routes.{aft_path, aft_updates}
use frr_visible.PathTrace.Lookups.{
  RouteEntry, dissect, route_leaf, routes_by_prefix, entry_or_blank, sval,
}

-- A route of the forwarding table, as the ingester has read it.
pub record FibRoute : Type 0 where
  pub vrf : Text
  pub af_name : Text
  pub prefix : Text
  pub nexthop : Text
  pub labels : List ℕ

-- The leaves that the calls of a handler write.
unfoldable pub leaves : List Effect → List Update
leaves [] = []
leaves (updates o us ds ∷ es) = us ++ leaves es
leaves (emits b k y d r ∷ es) = leaves es
leaves (observes p s b d ∷ es) = leaves es

unfoldable pub fib_leaves : FibRoute → List Update
unfolding leaves
fib_leaves r = leaves (aft_updates r.vrf r.af_name r.prefix r.nexthop r.labels false)

abbrev pub IsIn : {A : Type 0} → List A → A → Type 0
IsIn [] x = ⊥
IsIn (y ∷ ys) x = (x ≡ y) ⊎ IsIn ys x

abbrev pub nexthop_leaf : FibRoute → Update
nexthop_leaf r = record {
  path = aft_path r.vrf r.af_name r.prefix (lit "next-hop");
  val = str_val r.nexthop;
}

abbrev pub labels_leaf : FibRoute → Update
labels_leaf r = record {
  path = aft_path r.vrf r.af_name r.prefix (lit "pushed-mpls-label-stack");
  val = str_val (labels_csv r.labels);
}

-- The two leaves that the ingester may write for a route.
abbrev pub IsLeaf : FibRoute → Update → Type 0
IsLeaf r u = (u ≡ nexthop_leaf r) ⊎ (u ≡ labels_leaf r)

-- A leaf of the labels is written only where there are labels.
pub record IsWhole (us : List Update) (r : FibRoute) : Type 0 where
  pub says_nexthop : IsIn us (nexthop_leaf r)
  pub says_labels : is_empty r.labels ≡ false → IsIn us (labels_leaf r)

pub IsLeaf-fib_leaves : (r : FibRoute) (u : Update) → IsIn (fib_leaves r) u → IsLeaf r u
unfolding fib_leaves aft_updates leaves
IsLeaf-fib_leaves r u = go r.labels refl
  where
    go :
        (ls : List ℕ)
        → r.labels ≡ ls
        → IsIn (leaves (aft_updates r.vrf r.af_name r.prefix r.nexthop ls false)) u
        → IsLeaf r u
    go [] e (inl h) = inl h
    go [] e (inr h) = elim h [ ]
    go (x ∷ xs) e (inl h) = inl h
    go (x ∷ xs) e (inr (inl h)) = inr (rw e h)
    go (x ∷ xs) e (inr (inr h)) = elim h [ ]

-- The updates that a node returns: every one is a leaf that the ingester writes for one of the routes,
-- and every leaf that it writes is there, in any order.
pub record IsFib (rs : List FibRoute) (us : List Update) : Type 0 where
  pub sound : All (λ u. (r : FibRoute) × IsIn rs r × IsIn (fib_leaves r) u) us
  pub complete : (r : FibRoute) → IsIn rs r → (u : Update) → IsIn (fib_leaves r) u → IsIn us u

-- No two routes have the same prefix.
abbrev pub ArePrefixesApart : List FibRoute → Type 0
ArePrefixesApart rs = (r s : FibRoute) → IsIn rs r → IsIn rs s → r.prefix ≡ s.prefix → r ≡ s

pub IsWhole-IsFib :
    (rs : List FibRoute) (us : List Update) (r : FibRoute) → IsFib rs us → IsIn rs r → IsWhole us r
unfolding fib_leaves aft_updates leaves
IsWhole-IsFib rs us r h at = record {
  says_nexthop = h.complete r at (nexthop_leaf r) (has_nexthop r.labels);
  says_labels = λ e. h.complete r at (labels_leaf r) (has_labels r.labels refl e);
}
  where
    has_nexthop :
        (ls : List ℕ)
        → IsIn (leaves (aft_updates r.vrf r.af_name r.prefix r.nexthop ls false)) (nexthop_leaf r)
    has_nexthop [] = inl refl
    has_nexthop (x ∷ xs) = inl refl

    has_labels :
        (ls : List ℕ)
        → r.labels ≡ ls
        → is_empty ls ≡ false
        → IsIn (leaves (aft_updates r.vrf r.af_name r.prefix r.nexthop ls false)) (labels_leaf r)
    has_labels [] e h = cc
    has_labels (x ∷ xs) e h = inr (inl (rw e refl))

-- What routeLookup has collected of a route when it has met the leaves that the two flags name.
abbrev pub collected : FibRoute → Bool → Bool → Option RouteEntry
collected r false false = none
collected r true n =
    some (record { vrf = r.vrf; nh = r.nexthop; lbl = if n then labels_csv r.labels else [] })
collected r false true = some (record { vrf = []; nh = []; lbl = labels_csv r.labels })

-- One update of routes_by_prefix that is a leaf of `s`.
pub meet_nexthop :
    (s : FibRoute) (us : List Update) (m : Map Text RouteEntry)
    → is_empty s.prefix ≡ false
    → routes_by_prefix (nexthop_leaf s ∷ us) m
      ≡ routes_by_prefix us (
          insert s.prefix
            (record (entry_or_blank (lookup s.prefix m)) { nh = s.nexthop; vrf = s.vrf })
            m)
unfolding routes_by_prefix dissect aft_path route_leaf sval str_val lit text_eq lookup insert
meet_nexthop s us m h = rw h refl

pub meet_labels :
    (s : FibRoute) (us : List Update) (m : Map Text RouteEntry)
    → is_empty s.prefix ≡ false
    → routes_by_prefix (labels_leaf s ∷ us) m
      ≡ routes_by_prefix us (
          insert s.prefix
            (record (entry_or_blank (lookup s.prefix m)) { lbl = labels_csv s.labels })
            m)
unfolding routes_by_prefix dissect aft_path route_leaf sval str_val lit text_eq lookup insert
meet_labels s us m h = rw h refl
