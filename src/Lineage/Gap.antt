-- ===== src/Lineage/Gap.antt =====
-- internal/lineage/lineage.go: when reconcile reports an install gap, and how often.
use frr_visible.Base.{
  ℕ, ◌-◌, ◌<◌, ◌≡◌, refl, ◌↔◌, List, [], ◌∷◌, Bool, true, false, ◌||◌, Option, none, some, arith,
  ◌∙◌, sym, subst,
}
use frr_visible.Base.Text.{Text, text_eq, text_eq_iff, text_eq_instance}
use frr_visible.Base.Map.{Map, lookup, IsDistinct}
use frr_visible.Lineage.{
  Entry, Tracker, Anomaly, present, is_gap, gap_anomaly, reconcile_loop, reconcile,
}
use frr_visible.Lineage.Live.{IsLive, mark, lookup-reconcile_loop, reconcile-IsLive}

-- Whether one of the anomalies names the prefix.
unfoldable pub reports : Text → List Anomaly → Bool
reports p [] = false
reports p (a ∷ out) = text_eq a.prefix p || reports p out

abbrev gap_of : ℕ → ℕ → Option Entry → Bool
gap_of grace now none = false
gap_of grace now (some e) = is_gap grace now e

-- The gap, said of the entry's fields.
pub record IsOverdue (grace now : ℕ) (e : Entry) : Type 0 where
  pub pushed : present e 1 ≡ true
  pub unconfirmed : present e 2 ≡ false
  pub unreported : e.flagged ≡ false
  pub overdue : grace < now - (e.hops 1).ts

is_gap_iff : (grace now : ℕ) (e : Entry) → (is_gap grace now e ≡ true) ↔ IsOverdue grace now e
unfolding is_gap
is_gap_iff grace now e = (
  λ h. record {
    pushed = ground arith;
    unconfirmed = ground arith;
    unreported = ground arith;
    overdue = ground arith;
  },
  λ h. ground (arith, h.pushed, h.unconfirmed, h.unreported, h.overdue),
)

module _ (ds : ℕ → Text) where
  reports-loop :
      (grace now : ℕ) (m : Map Text Entry) (q : Text)
      → IsDistinct m
      → ((p : Text) (e : Entry) → lookup p m ≡ some e → e.prefix ≡ p)
      → reports q (reconcile_loop ds grace now m).1 ≡ gap_of grace now (lookup q m)
  unfolding reports reconcile_loop lookup gap_anomaly
  reports-loop grace now [] q hd hp = refl
  reports-loop grace now ((p, e) ∷ m) q hd hp = ground (
    arith,
    reports-loop grace now m q hd.1 (λ j x h. tail_prefix j x h),
    hp p e (ground (arith, text_eq_iff p p)),
    text_eq_iff p q,
  )
    where
      tail_prefix : (j : Text) (x : Entry) → lookup j m ≡ some x → x.prefix ≡ j
      tail_prefix j x h = hp j x (ground (arith, text_eq_iff p j))

  reports-reconcile :
      (now : ℕ) (t : Tracker) (q : Text)
      → IsLive t
      → reports q (reconcile ds now t).1 ≡ gap_of t.grace now (lookup q t.routes)
  unfolding reconcile
  reports-reconcile now t q h =
      reports-loop t.grace now t.routes q h.distinct (λ p e l. (h.live p e l).0)

  -- In a well-formed tracker, reconcile reports a prefix exactly when the prefix has an entry that
  -- the FPM plane holds, the kernel plane does not, that was not yet reported, and whose push is
  -- older than the grace.
  pub reconcile_exact :
      (now : ℕ) (t : Tracker) (q : Text)
      → IsLive t
      → (reports q (reconcile ds now t).1 ≡ true)
        ↔ ((e : Entry) × (lookup q t.routes ≡ some e) × IsOverdue t.grace now e)
  reconcile_exact now t q h = rw (reports-reconcile now t q h) (go (lookup q t.routes))
    where
      go :
          (o : Option Entry)
          → (gap_of t.grace now o ≡ true) ↔ ((e : Entry) × (o ≡ some e) × IsOverdue t.grace now e)
      go none = (λ g. cc, λ r. cc (r.1))
      go (some e) = (
        λ g. (e, refl, (is_gap_iff t.grace now e).0 g),
        λ r. (is_gap_iff t.grace now e).1 (subst (IsOverdue t.grace now) (cc (r.1)) (r.2)),
      )

  once :
      (grace now later : ℕ) (o : Option Entry)
      → gap_of grace now o ≡ true
      → gap_of grace later (mark grace now o) ≡ false
  unfolding is_gap
  once grace now later none h = cc
  once grace now later (some e) h = ground arith

  -- In a well-formed tracker, a prefix that one reconcile reported is not reported by the next, however much later it runs.
  pub reconcile_once :
      (now later : ℕ) (t : Tracker) (q : Text)
      → IsLive t
      → reports q (reconcile ds now t).1 ≡ true
      → reports q (reconcile ds later (reconcile ds now t).0).1 ≡ false
  reconcile_once now later t q h r =
      reports-reconcile later (reconcile ds now t).0 q (reconcile-IsLive ds now t h) ∙ marked
    where
      marked :
          gap_of (reconcile ds now t).0.grace later (lookup q (reconcile ds now t).0.routes) ≡ false
      marked =
          unfold reconcile in
          rw (lookup-reconcile_loop ds t.grace now t.routes q)
            (once t.grace now later (lookup q t.routes) (sym (reports-reconcile now t q h) ∙ r))
