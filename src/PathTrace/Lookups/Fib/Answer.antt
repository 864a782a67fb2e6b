-- ===== src/PathTrace/Lookups/Fib/Answer.antt =====
-- internal/ingest/fpm.go and cmd/pathtrace-exporter/main.go: routeLookup's answer, against the routes that
-- the FPM ingester has written.
use frr_visible.Base.{
  ◌≡◌, refl, sym, ap, ap₂, ◌∙◌, ◌≤◌, ℕ, List, [], ◌∷◌, true, false, ◌&&◌, Option, none, some, arith,
  inl, inr, Bool-cases,
}
use frr_visible.Base.Text.{Text, is_empty, text_eq, text_eq_iff, text_eq_instance}
use frr_visible.Base.Map.{Map, lookup, IsDistinct}
use frr_visible.Gnmi.{Update}
use frr_visible.Fpm.Attrs.{labels_csv}
use frr_visible.PathTrace.{RouteAnswer}
use frr_visible.PathTrace.Lookups.{
  RouteEntry, Cidr, routes_by_prefix, match_of, answer_of, route_lookup,
}
use frr_visible.PathTrace.Lookups.Longest.{Matches, here, there, route_lookup-Matches}
use frr_visible.PathTrace.Lookups.Fib.{FibRoute, IsIn, IsFib, ArePrefixesApart}
use frr_visible.PathTrace.Lookups.Fib.Table.{
  entry_of, routes_by_prefix-IsDistinct, lookup-fib, route_of,
}

-- The route contains the address, is `n` bits long, and says where to send a packet.
pub record Covers (parse_cidr : Text → Option Cidr) (di : Text) (r : FibRoute) (n : ℕ)
    : Type 0 where
  pub cidr : Cidr
  pub parsed : parse_cidr r.prefix ≡ some cidr
  pub contains : cidr.contains di ≡ true
  pub long : cidr.ones ≡ n
  pub says : (is_empty r.nexthop && is_empty (labels_csv r.labels)) ≡ false

module _ (rs : List FibRoute) (us : List Update)
    (valid : (r : FibRoute) → IsIn rs r → is_empty r.prefix ≡ false) (apart : ArePrefixesApart rs)
    (fib : IsFib rs us) where
  module _ (parse_cidr : Text → Option Cidr) (di : Text) where
    match_of-Covers :
        (r : FibRoute) (n : ℕ)
        → Covers parse_cidr di r n
        → match_of parse_cidr di r.prefix (entry_of r) ≡ some n
    unfolding match_of
    match_of-Covers r n h = rw (h.says, h.parsed, h.contains) (ap some h.long)

    Covers-match_of :
        (r : FibRoute) (n : ℕ)
        → match_of parse_cidr di r.prefix (entry_of r) ≡ some n
        → Covers parse_cidr di r n
    unfolding match_of
    Covers-match_of r n h =
        elim (Bool-cases (is_empty r.nexthop && is_empty (labels_csv r.labels))) [
          | inl silent ↦ absurd (cc (rw silent at h))
          | inr says ↦ go (parse_cidr r.prefix) refl says
        ]
      where
        go :
            (o : Option Cidr)
            → parse_cidr r.prefix ≡ o
            → (is_empty r.nexthop && is_empty (labels_csv r.labels)) ≡ false
            → Covers parse_cidr di r n
        go none e says = absurd (cc (rw (says, e) at h))
        go (some c) e says =
            let met = rw (says, e) at h in
            record {
              cidr = c;
              parsed = e;
              contains = ground (arith, met);
              long = ground (arith, met);
              says = says;
            }

    Matches-lookup :
        {m : Map Text RouteEntry} {n : ℕ} {a : RouteAnswer}
        → Matches parse_cidr di m n a
        → IsDistinct m
        → (q : Text) × (e : RouteEntry) × (lookup q m ≡ some e)
          × (match_of parse_cidr di q e ≡ some n)
          × (a ≡ answer_of parse_cidr q e)
    unfolding lookup
    Matches-lookup (here q e m n a found eq) d = (q, e, ground (arith, text_eq_iff q q), found, eq)
    Matches-lookup (there (p, e') m n a more) d =
        let ih = Matches-lookup more (d.1) in
        (ih.0, ih.1, ground (arith, ih.2, d.0, text_eq_iff p (ih.0)), ih.3, ih.4)

    lookup-Matches :
        (m : Map Text RouteEntry) (q : Text) (e : RouteEntry) (n : ℕ)
        → lookup q m ≡ some e
        → match_of parse_cidr di q e ≡ some n
        → Matches parse_cidr di m n (answer_of parse_cidr q e)
    unfolding lookup
    lookup-Matches [] q e n at found = absurd (cc at)
    lookup-Matches ((p, e') ∷ m) q e n at found = elim (Bool-cases (text_eq p q)) [
      | inl same ↦
          let pq : p ≡ q = (text_eq_iff p q).0 same in
          let ee : e' ≡ e = cc (rw same at at) in
          here p e' m n _ (rw (pq, ee) found) (rw (pq, ee) refl)
      | inr differ ↦ there (p, e') m n _ (lookup-Matches m q e n (rw differ at at) found)
    ]

    fib_Matches :
        (r : FibRoute) (n : ℕ)
        → IsIn rs r
        → Covers parse_cidr di r n
        → Matches parse_cidr di
            (routes_by_prefix us [])
            n
            (answer_of parse_cidr r.prefix (entry_of r))
    fib_Matches r n at h =
        lookup-Matches (routes_by_prefix us []) r.prefix (entry_of r) n
          (lookup-fib rs us valid apart fib r at) (match_of-Covers r n h)

    Matches-route :
        {n : ℕ} {a : RouteAnswer}
        → Matches parse_cidr di (routes_by_prefix us []) n a
        → (r : FibRoute) × IsIn rs r
          × Covers parse_cidr di r n
          × (a ≡ answer_of parse_cidr r.prefix (entry_of r))
    Matches-route {n} m =
        let l = Matches-lookup m (routes_by_prefix-IsDistinct us [] tt) in
        let f = route_of rs us valid apart fib (l.0) (l.1) (l.2) in
        (
          f.0,
          f.1,
          Covers-match_of (f.0) n (ap₂ (match_of parse_cidr di) (f.2) (sym (f.3)) ∙ l.3),
          l.4 ∙ ap₂ (answer_of parse_cidr) (sym (f.2)) (f.3),
        )

    -- A node answers with the leaves that the FPM ingester writes for a table of routes, all of them and
    -- no others, in any order; no two routes have the same prefix, and no prefix is empty. If a route
    -- covers the address, then routeLookup answers with a route that covers it and is at least as long as
    -- each that does: with its VRF, its prefix, its next hop and its labels.
    pub route_lookup-fib :
        (parse_v4 : Text → Option Text) (dst : Text) (r : FibRoute) (n : ℕ)
        → parse_v4 dst ≡ some di
        → IsIn rs r
        → Covers parse_cidr di r n
        → (s : FibRoute) × (k : ℕ) × IsIn rs s
          × Covers parse_cidr di s k
          × ((t : FibRoute) (l : ℕ) → IsIn rs t → Covers parse_cidr di t l → l ≤ k)
          × (route_lookup parse_cidr parse_v4 us dst ≡ record {
            vrf = s.vrf;
            prefix = s.prefix;
            nexthop = s.nexthop;
            labels = labels_csv s.labels;
          })
    route_lookup-fib parse_v4 dst r n parsed at h =
        let best =
          route_lookup-Matches parse_cidr di parse_v4 us dst n
            (answer_of parse_cidr r.prefix (entry_of r)) parsed (fib_Matches r n at h) in
        let found = Matches-route (best.2) in
        (
          found.0,
          best.0,
          found.1,
          found.2,
          λ t l at_t c.
              best.3 l (answer_of parse_cidr t.prefix (entry_of t)) (fib_Matches t l at_t c),
          best.4 ∙ found.3,
        )
