-- ===== src/Aggregator/Merge/Votes.antt =====
-- cmd/trace-aggregator/main.go: the link that merge names.
use frr_visible.Base.{
  ℕ, suc, ◌+◌, ◌≤◌, ◌≡◌, refl, sym, ap, ◌∙◌, ◌⊎◌, inl, inr, List, [], ◌∷◌, false, none, some,
  if◌then◌else◌, ltb, arith, Bool-cases,
}
use frr_visible.Base.Text.{Text, is_empty, text_eq, text_eq_iff, text_eq_instance}
use frr_visible.Base.Map.{Map, lookup, lookup-insert, IsDistinct, insert-IsDistinct}
use frr_visible.Correlate.{Trace}
use frr_visible.Aggregator.{DSpan}
use frr_visible.Aggregator.Link.{link_key}
use frr_visible.Aggregator.Merge.{vote, votes_of, count_or_zero, elect_loop, merge}

-- How many traces of the group have a root on this link.
unfoldable pub count : Text → List Trace → ℕ
count k [] = 0
count k (t ∷ g) = let rest = count k g in if text_eq (link_key t.root) k then suc rest else rest

count_of : Text → Map Text ℕ → ℕ
count_of k m = count_or_zero (lookup k m)

count_of-vote :
    (k lk : Text) (m : Map Text ℕ)
    → is_empty k ≡ false
    → count_of k (vote lk m) ≡ (if text_eq lk k then suc (count_of k m) else count_of k m)
unfolding vote count_of
count_of-vote k lk m h =
    ground (arith, lookup-insert lk k (suc (count_or_zero (lookup lk m))) m, text_eq_iff lk k)

count-votes_of :
    (k : Text) (g : List Trace) (m : Map Text ℕ)
    → is_empty k ≡ false
    → count_of k (votes_of g m) ≡ count k g + count_of k m
unfolding votes_of count
count-votes_of k [] m h = omega arith
count-votes_of k (t ∷ g) m h =
    ground (
      arith,
      count-votes_of k g (vote (link_key t.root) m) h,
      count_of-vote k (link_key t.root) m h,
    )

blank-vote : (lk : Text) (m : Map Text ℕ) → lookup [] (vote lk m) ≡ lookup [] m
unfolding vote lookup text_eq
blank-vote [] m = refl
blank-vote (c ∷ lk) m = lookup-insert (c ∷ lk) [] (suc (count_or_zero (lookup (c ∷ lk) m))) m

blank-votes_of : (g : List Trace) (m : Map Text ℕ) → lookup [] (votes_of g m) ≡ lookup [] m
unfolding votes_of
blank-votes_of [] m = refl
blank-votes_of (t ∷ g) m =
    blank-votes_of g (vote (link_key t.root) m) ∙ blank-vote (link_key t.root) m

vote-IsDistinct : (lk : Text) (m : Map Text ℕ) → IsDistinct m → IsDistinct (vote lk m)
unfolding vote
vote-IsDistinct lk m h =
    ground (arith, insert-IsDistinct lk (suc (count_or_zero (lookup lk m))) m h)

votes_of-IsDistinct : (g : List Trace) (m : Map Text ℕ) → IsDistinct m → IsDistinct (votes_of g m)
unfolding votes_of
votes_of-IsDistinct [] m h = h
votes_of-IsDistinct (t ∷ g) m h =
    votes_of-IsDistinct g (vote (link_key t.root) m) (vote-IsDistinct (link_key t.root) m h)

elect_loop_most :
    (m : Map Text ℕ) (link : Text) (best : ℕ)
    → (best ≤ (elect_loop m link best).1) × ((k : Text) → count_of k m ≤ (elect_loop m link best).1)
unfolding elect_loop lookup count_of
elect_loop_most [] link best = (omega arith, λ k. omega arith)
elect_loop_most ((j, v) ∷ m) link best =
    let won = elect_loop_most m j v in
    let lost = elect_loop_most m link best in
    (ground (arith, won.0, lost.0), λ k. ground (arith, won.0, won.1 k, lost.0, lost.1 k))

lookup-head : (j : Text) (v : ℕ) (m : Map Text ℕ) → lookup j ((j, v) ∷ m) ≡ some v
unfolding lookup
lookup-head j v m = ground (arith, text_eq_iff j j)

lookup-tail :
    (j : Text) (v : ℕ) (k : Text) (n : ℕ) (m : Map Text ℕ)
    → lookup j m ≡ none
    → lookup k m ≡ some n
    → lookup k ((j, v) ∷ m) ≡ some n
unfolding lookup
lookup-tail j v k n m fresh found = ground (arith, text_eq_iff j k)

elect_loop_found :
    (m : Map Text ℕ) (link : Text) (best : ℕ)
    → IsDistinct m
    → (elect_loop m link best ≡ (link, best))
      ⊎ (lookup (elect_loop m link best).0 m ≡ some (elect_loop m link best).1)
unfolding elect_loop
elect_loop_found [] link best h = inl refl
elect_loop_found ((j, v) ∷ m) link best h = elim (Bool-cases (ltb best v)) [
  | inl more ↦ rw more (elim (elect_loop_found m j v (h.1)) [
    | inl same ↦ inr (rw same (lookup-head j v m))
    | inr found ↦ inr (lookup-tail j v _ _ m (h.0) found)
  ])
  | inr less ↦ rw less (elim (elect_loop_found m link best (h.1)) [
    | inl same ↦ inl same
    | inr found ↦ inr (lookup-tail j v _ _ m (h.0) found)
  ])
]

counted : (k : Text) (g : List Trace) → is_empty k ≡ false → count_of k (votes_of g []) ≡ count k g
unfolding count_of lookup
counted k g h = omega (arith, count-votes_of k g [] h)

-- The elected link has its number of votes, and no other has more.
elected_of :
    (g : List Trace) (link : Text) (best : ℕ)
    → (link ≡ []) × (best ≡ 0) ⊎ (lookup link (votes_of g []) ≡ some best)
    → ((k : Text) → count_of k (votes_of g []) ≤ best)
    → (k : Text) → is_empty k ≡ false
    → (count k g ≤ count link g) × (link ≡ [] → count k g ≡ 0)
unfolding lookup
elected_of g link best (inl (blank, zero)) most k h =
    (omega (arith, counted k g h, most k), λ e. omega (arith, counted k g h, most k))
elected_of g [] best (inr found) most k h = absurd (never (sym (blank-votes_of g []) ∙ found))
  where
    never : none ≡ some best → ⊥
    never e = cc
elected_of g (c ∷ link) best (inr found) most k h =
    (omega (arith, counted k g h, most k, counted (c ∷ link) g refl, is_best), λ e. cc)
  where
    is_best : count_of (c ∷ link) (votes_of g []) ≡ best
    is_best = unfold count_of in ap count_or_zero found

-- The link of a merged trace is one that as many of its traces have at their root as any other, and it is empty only if none has a link there.
pub link-merge :
    (sort_spans : List DSpan → List DSpan) (sort_strings : List Text → List Text) (id : ℕ)
    (g : List Trace) (k : Text)
    → is_empty k ≡ false
    → let link = (merge sort_spans sort_strings id g).link in
      (count k g ≤ count link g) × (link ≡ [] → count k g ≡ 0)
unfolding merge
link-merge sort_spans sort_strings id g k h =
    elected_of g _ _
      (elim (elect_loop_found (votes_of g []) [] 0 (votes_of-IsDistinct g [] tt)) [
        | inl same ↦ inl (ap (λ r. r.0) same, ap (λ r. r.1) same)
        | inr found ↦ inr found
      ])
      (elect_loop_most (votes_of g []) [] 0).1 k h
