-- ===== src/PathTrace/Lookups/Longest.antt =====
-- cmd/pathtrace-exporter/main.go: the answer of routeLookup, against the prefixes that match.
use frr_visible.Base.{
  ℕ, ◌≤◌, ◌≡◌, refl, sym, ◌∙◌, List, [], ◌∷◌, Option, none, some, ltb, arith, ◌⊎◌, inl, inr,
  Bool-cases,
}
use frr_visible.Base.Text.{Text}
use frr_visible.Base.Map.{Map}
use frr_visible.Gnmi.{Update}
use frr_visible.PathTrace.{RouteAnswer}
use frr_visible.PathTrace.Lookups.{
  RouteEntry, Cidr, Best, match_of, better, answer_of, best_loop, route_lookup, routes_by_prefix,
  result,
}

module _ (parse_cidr : Text → Option Cidr) (di : Text) where
  -- `Matches m ones r`: a prefix of the table that is `ones` bits long matches, and `r` is its answer.
  pub data Matches : Map Text RouteEntry → ℕ → RouteAnswer → Type 0 where
    here :
        (pfx : Text) (e : RouteEntry) (m : Map Text RouteEntry) (ones : ℕ) (r : RouteAnswer)
        → match_of parse_cidr di pfx e ≡ some ones
        → r ≡ answer_of parse_cidr pfx e
        → Matches ((pfx, e) ∷ m) ones r
    there :
        (p : Text × RouteEntry) (m : Map Text RouteEntry) (ones : ℕ) (r : RouteAnswer)
        → Matches m ones r
        → Matches (p ∷ m) ones r

  -- At least this long.
  AtLeast : ℕ → Best → Type 0
  AtLeast ones best = (b : ℕ) × (r : RouteAnswer) × (best ≡ some (b, r)) × (ones ≤ b)

  better_new :
      (ones : ℕ) (r : RouteAnswer) (best : Best)
      → AtLeast ones (better parse_cidr (some ones) r best)
  unfolding AtLeast
  better_new ones r none = (ones, r, refl, omega arith)
  better_new ones r (some (b, old)) = elim (Bool-cases (ltb b ones)) [
    | inl lt ↦ rw lt (ones, r, refl, omega arith)
    | inr ge ↦ rw ge (b, old, refl, ground arith)
  ]

  better_old :
      (ones : ℕ) (o : Option ℕ) (r : RouteAnswer) (best : Best)
      → AtLeast ones best
      → AtLeast ones (better parse_cidr o r best)
  unfolding AtLeast
  better_old ones none r best h = h
  better_old ones (some k) r none h = absurd (cc (h.2))
  better_old ones (some k) r (some (b, old)) h = elim (Bool-cases (ltb b k)) [
    | inl lt ↦ rw lt (k, r, refl, ground (arith, h.2, h.3))
    | inr ge ↦ rw ge h
  ]

  loop_old :
      (ones : ℕ) (m : Map Text RouteEntry) (best : Best)
      → AtLeast ones best
      → AtLeast ones (best_loop parse_cidr di m best)
  unfolding best_loop
  loop_old ones [] best h = h
  loop_old ones ((pfx, e) ∷ m) best h =
      loop_old ones m _
        (better_old ones (match_of parse_cidr di pfx e) (answer_of parse_cidr pfx e) best h)

  loop_longest :
      {m : Map Text RouteEntry} {ones : ℕ} {r : RouteAnswer}
      → Matches m ones r
      → (best : Best) → AtLeast ones (best_loop parse_cidr di m best)
  unfolding best_loop
  loop_longest (here pfx e m ones r eq _) best =
      loop_old ones m _ (rw eq (better_new ones (answer_of parse_cidr pfx e) best))
  loop_longest (there (pfx, e) m ones r more) best = loop_longest more _

  better_cases :
      (o : Option ℕ) (r : RouteAnswer) (best : Best)
      → (better parse_cidr o r best ≡ best)
        ⊎ ((k : ℕ) × (o ≡ some k) × (better parse_cidr o r best ≡ some (k, r)))
  better_cases none r best = inl refl
  better_cases (some k) r none = inr (k, refl, refl)
  better_cases (some k) r (some (b, old)) = elim (Bool-cases (ltb b k)) [
    | inl lt ↦ inr (k, refl, rw lt refl)
    | inr ge ↦ inl (rw ge refl)
  ]

  loop_sound :
      (m : Map Text RouteEntry) (best : Best) (k : ℕ) (r : RouteAnswer)
      → best_loop parse_cidr di m best ≡ some (k, r)
      → (best ≡ some (k, r)) ⊎ Matches m k r
  unfolding best_loop
  loop_sound [] best k r eq = inl eq
  loop_sound ((pfx, e) ∷ m) best k r eq = elim (loop_sound m _ k r eq) [
    | inr more ↦ inr (there (pfx, e) m k r more)
    | inl now ↦
        elim (better_cases (match_of parse_cidr di pfx e) (answer_of parse_cidr pfx e) best) [
          | inl kept ↦ inl (sym kept ∙ now)
          | inr (j, found, taken) ↦ inr (here pfx e m k r (cc) (cc))
        ]
  ]

  answer_longest :
      (m : Map Text RouteEntry) (ones : ℕ) (r : RouteAnswer) (best : Best)
      → best_loop parse_cidr di m none ≡ best
      → Matches m ones r
      → (k : ℕ) × (a : RouteAnswer) × Matches m k a
        × ((n : ℕ) (b : RouteAnswer) → Matches m n b → n ≤ k)
        × (result parse_cidr best ≡ a)
  unfolding AtLeast
  answer_longest m ones r none eq h = absurd (cc (eq, (loop_longest h none).2))
  answer_longest m ones r (some (k, a)) eq h = (
    k,
    a,
    elim (loop_sound m none k a eq) [ inl e ↦ absurd (cc) | inr found ↦ found ],
    λ n b other. bound n (loop_longest other none),
    refl,
  )
    where
      bound : (n : ℕ) → AtLeast n (best_loop parse_cidr di m none) → n ≤ k
      bound n (c, x, e, le) = let same : c ≡ k = cc in omega arith

  -- If a prefix that a node reports matches the address, then the answer of routeLookup is that of a
  -- prefix that matches, and no prefix that matches is longer.
  pub route_lookup-Matches :
      (parse_v4 : Text → Option Text) (ups : List Update) (dst : Text) (ones : ℕ) (r : RouteAnswer)
      → parse_v4 dst ≡ some di
      → Matches (routes_by_prefix ups []) ones r
      → (k : ℕ) × (a : RouteAnswer) × Matches (routes_by_prefix ups []) k a
        × ((n : ℕ) (b : RouteAnswer) → Matches (routes_by_prefix ups []) n b → n ≤ k)
        × (route_lookup parse_cidr parse_v4 ups dst ≡ a)
  unfolding route_lookup
  route_lookup-Matches parse_v4 ups dst ones r parsed h =
      rw (route_lookup, parsed) (answer_longest (routes_by_prefix ups []) ones r _ refl h)
