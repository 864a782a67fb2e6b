-- ===== src/Lineage/History.antt =====
-- The tracker against its abstract view: the last thing that each plane said of each prefix.
use frr_visible.Base.{
  ℕ, zero, suc, not, ap, ◌<◌, ◌≡◌, refl, ◌∙◌, List, [], ◌∷◌, Bool, false, ◌&&◌, Option, none, some,
  if◌then◌else◌, ◌==◌, arith, All,
}
use frr_visible.Base.Text.{Text, is_empty, text_eq, text_eq_iff, text_eq_instance}
use frr_visible.Base.Map.{Map, lookup, insert, lookup-insert, lookup-delete}
use frr_visible.Lineage.{Entry, Tracker, Hop, present, observe, witness, settle, entry_or_new}

-- Whether the tracker says that the stage holds the prefix.
abbrev pub held : Option Entry → ℕ → Bool
held none s = false
held (some e) s = present e s

unfoldable pub holds : Tracker → Text → ℕ → Bool
holds t p s = held (lookup p t.routes) s

pub lookup-settle :
    (p : Text) (e : Entry) (b : Bool) (m : Map Text Entry) (q : Text)
    → lookup q (settle p e b m) ≡ (
        if text_eq p q
        then (if not b && (not (present e 0) && (not (present e 1) && not (present e 2)))
            then none
            else some e)
        else lookup q m)
unfolding settle
lookup-settle p e b m q =
    ground (arith, lookup-insert p q e m, lookup-delete p q (insert p e m), text_eq_iff p q)

-- What writing one hop does to what the entry shows.
pub present-witness :
    (e : Entry) (s : ℕ) (h : Hop) (r : ℕ)
    → present (witness e s h) r ≡ (if s == r then h.present else present e r)
unfolding witness
present-witness e s h r = ground arith

held-settle :
    (e : Entry) (s : ℕ) (h : Hop) (r : ℕ)
    → s < 3
    → r < 3
    → let w = witness e s h in
      held
        (if not h.present && (not (present w 0) && (not (present w 1) && not (present w 2)))
          then none
          else some w)
        r
      ≡ (if s == r then h.present else present e r)
held-settle e s h zero hs hr = ground (arith, present-witness e s h 0)
held-settle e s h (suc zero) hs hr = ground (arith, present-witness e s h 1)
held-settle e s h (suc (suc zero)) hs hr = ground (arith, present-witness e s h 2)
held-settle e s h (suc (suc (suc r))) hs hr = absurd (omega arith)

present-entry_or_new :
    (p : Text) (o : Option Entry) (r : ℕ) → present (entry_or_new p o) r ≡ held o r
present-entry_or_new p none r = refl
present-entry_or_new p (some e) r = refl

-- One observation answers for its own prefix and stage, and for nothing else.
pub holds-observe :
    (now : ℕ) (p : Text) (s : ℕ) (b : Bool) (d : Text) (t : Tracker) (q : Text) (r : ℕ)
    → is_empty p ≡ false
    → s < 3
    → r < 3
    → holds (observe now p s b d t) q r ≡ (if text_eq p q && s == r then b else holds t q r)
unfolding holds observe
holds-observe now p s b d t q r hp hs hr =
    let h : Hop = record { present = b; ts = now; detail = d } in
    let e : Entry = entry_or_new p (lookup p t.routes) in
    ground (
      arith,
      lookup-settle p (witness e s h) b t.routes q,
      held-settle e s h r hs hr,
      present-entry_or_new p (lookup p t.routes) r,
      text_eq_iff p q,
    )

-- One call of Observe.
pub record Observation : Type 0 where
  pub now : ℕ
  pub prefix : Text
  pub stage : ℕ
  pub present : Bool
  pub detail : Text

-- A stage that the planes name, and a prefix that is not empty.
abbrev pub IsProper : Observation → Type 0
IsProper o = (is_empty o.prefix ≡ false) × (o.stage < 3)

unfoldable pub run : List Observation → Tracker → Tracker
run [] t = t
run (o ∷ os) t = run os (observe o.now o.prefix o.stage o.present o.detail t)

-- What the last observation of the prefix at the stage said, or `start` if there is none.
unfoldable pub last_said : List Observation → Text → ℕ → Bool → Bool
last_said [] q r start = start
last_said (o ∷ os) q r start =
    last_said os q r (if text_eq o.prefix q && o.stage == r then o.present else start)

-- After any sequence of observations that name a prefix and one of the three stages, the tracker holds
-- a prefix at one of the stages exactly when the last observation of that prefix at that stage said so,
-- or, where there is none, when it did before.
pub holds-run :
    (os : List Observation) (t : Tracker) (q : Text) (r : ℕ)
    → All IsProper os
    → r < 3
    → holds (run os t) q r ≡ last_said os q r (holds t q r)
unfolding run last_said
holds-run [] t q r h hr = refl
holds-run (o ∷ os) t q r h hr =
    holds-run os (observe o.now o.prefix o.stage o.present o.detail t) q r h.1 hr
    ∙ ap (last_said os q r)
        (holds-observe o.now o.prefix o.stage o.present o.detail t q r h.0.0 h.0.1 hr)
