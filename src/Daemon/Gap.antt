-- ===== src/Daemon/Gap.antt =====
-- From a route message to a finished trace: the FPM ingester, the tracker, the hook and the correlator.
use frr_visible.Base.{
  ℕ, suc, ◌+◌, ◌-◌, ◌≤◌, ◌<◌, ◌≡◌, refl, sym, ap, subst, ◌∙◌, List, [], ◌∷◌, ◌++◌, append_assoc,
  append-nil, map, Bool, true, false, ◌||◌, ◌&&◌, none, some, length, arith, length-append, All,
  inl,
}
use frr_visible.Base.Text.{Text, lit, text_eq, text_eq_iff}
use frr_visible.Correlate.{
  Correlator, Event, Span, Trace, enqueue, capacity, keep_last, span_of, tick,
}
use frr_visible.Lineage.{Anomaly, Entry, reconcile_loop, gap_anomaly}
use frr_visible.Lineage.Gap.{reports}
use frr_visible.Base.Map.{Map}
use frr_visible.Correlate.Window.{Linked}
use frr_visible.Correlate.Episode.{receive_all, episode, episode_traced}
use frr_visible.Daemon.{report, report_all}

abbrev pub event_of : ℕ → Anomaly → Event
event_of now a = record {
  bus = lit "lineage";
  kind = a.kind;
  key = a.prefix;
  detail = a.detail;
  root = true;
  ts = now;
}

-- The events of a round of reports.
unfoldable pub events_of : (ℕ → ℕ) → List Anomaly → List Event
events_of clock [] = []
events_of clock (a ∷ out) = event_of (clock 0) a ∷ events_of (λ i. clock (suc i)) out

-- Whether a span says that the prefix has an install gap.
abbrev says_gap : Text → Span → Bool
says_gap p s =
    text_eq s.bus (lit "lineage") && (text_eq s.kind (lit "install-gap") && text_eq s.key p)

unfoldable pub shows_gap : Text → List Span → Bool
shows_gap p [] = false
shows_gap p (s ∷ spans) = says_gap p s || shows_gap p spans

length-events_of : (clock : ℕ → ℕ) (out : List Anomaly) → length (events_of clock out) ≡ length out
unfolding events_of
length-events_of clock [] = refl
length-events_of clock (a ∷ out) = ap suc (length-events_of _ out)

enqueue_room :
    (e : Event) (c : Correlator)
    → length c.ch < capacity
    → enqueue e c ≡ record c { ch = c.ch ++ e ∷ [] }
unfolding enqueue
enqueue_room e c room = ground (arith, room)

-- With room for them, all reports are in the channel, in their order.
report_all-events_of :
    (clock : ℕ → ℕ) (out : List Anomaly) (c : Correlator)
    → length c.ch + length out ≤ capacity
    → report_all clock out (some c) ≡ some (record c { ch = c.ch ++ events_of clock out })
unfolding report_all events_of report frr_visible.Correlate.emit
report_all-events_of clock [] c room = ap (λ l. some (record c { ch = l })) (sym (append-nil c.ch))
report_all-events_of clock (a ∷ out) c room =
    let e = event_of (clock 0) a in
    let rest = λ (i : ℕ). clock (suc i) in
    ap (λ d. report_all rest out (some d)) (enqueue_room e c (omega (arith, room)))
    ∙ (report_all-events_of rest out (record c { ch = c.ch ++ e ∷ [] })
          (omega (arith, room, length-append c.ch (e ∷ [])))
        ∙ ap (λ l. some (record c { ch = l })) (append_assoc c.ch (e ∷ []) (events_of rest out)))

abbrev pub IsGapAnomaly : Anomaly → Type 0
IsGapAnomaly a = a.kind ≡ lit "install-gap"

pub reconcile_loop-IsGapAnomaly :
    (ds : ℕ → Text) (grace now : ℕ) (m : Map Text Entry)
    → All IsGapAnomaly (reconcile_loop ds grace now m).1
unfolding reconcile_loop gap_anomaly
reconcile_loop-IsGapAnomaly ds grace now [] = tt
reconcile_loop-IsGapAnomaly ds grace now ((p, e) ∷ m) =
    ground (arith, reconcile_loop-IsGapAnomaly ds grace now m)

shows_gap-reports :
    (p : Text) (start : ℕ) (clock : ℕ → ℕ) (out : List Anomaly)
    → All IsGapAnomaly out
    → shows_gap p (map (span_of start) (events_of clock out)) ≡ reports p out
unfolding shows_gap events_of reports span_of
shows_gap-reports p start clock [] h = refl
shows_gap-reports p start clock (a ∷ out) h = ground (
  arith,
  shows_gap-reports p start (λ i. clock (suc i)) out h.1,
  h.0,
  text_eq_iff (lit "lineage") (lit "lineage"),
  text_eq_iff a.kind (lit "install-gap"),
)

Linked-events_of :
    (w : ℕ) (clock : ℕ → ℕ) (out : List Anomaly)
    → ((i : ℕ) → clock (suc i) - clock i ≤ w)
    → Linked w (clock 0) (events_of (λ i. clock (suc i)) out) (clock (length out))
unfolding events_of
Linked-events_of w clock [] near = refl
Linked-events_of w clock (a ∷ out) near =
    (near 0, Linked-events_of w (λ i. clock (suc i)) out (λ i. near (suc i)))

length-map {ℓ κ} :
    {A : Type ℓ} {B : Type κ} (f : A → B) (xs : List A) → length (map f xs) ≡ length xs
length-map f [] = refl
length-map f (x ∷ xs) = ap suc (length-map f xs)

-- A quiet correlator with room for a round of reports, the first after another at most the window
-- apart: all of them come to one trace.
pub report_all_traced :
    (p : Text) (clock : ℕ → ℕ) (out : List Anomaly) (c : Correlator) (nows : List ℕ) (closes : ℕ)
    → All IsGapAnomaly out
    → reports p out ≡ true
    → c.active ≡ none
    → c.ch ≡ []
    → length out ≤ capacity
    → ((i : ℕ) → clock (suc i) - clock i ≤ c.window)
    → length nows ≡ length out
    → c.idle < closes - clock (length out - 1)
    → (d : Correlator) × (t : Trace) × (report_all clock out (some c) ≡ some d)
      × ((tick closes (receive_all nows d)).ring ≡ keep_last c.max (c.ring ++ t ∷ []))
      × (length t.spans ≡ length out)
      × (shows_gap p t.spans ≡ true)
unfolding reports
report_all_traced p clock [] c nows closes gaps said quiet empty room near all late =
    absurd (cc said)
report_all_traced p clock (a ∷ out) c [] closes gaps said quiet empty room near all late =
    absurd (omega (arith, all))
report_all_traced p clock (a ∷ out) c (first ∷ nows) closes gaps said quiet empty room near all
      late =
    let e = event_of (clock 0) a in
    let es = events_of (λ i. clock (suc i)) out in
    let d : Correlator = record c { ch = c.ch ++ events_of clock (a ∷ out) } in
    (
      d,
      episode d e es (clock (length out)),
      report_all-events_of clock (a ∷ out) c
          (omega (arith, room, ap (λ (l : List Event). length l) empty)),
      ap (λ x. x.ring)
          (episode_traced d e es (clock (length out)) first closes nows quiet
            (unfold events_of in ap (λ l. l ++ events_of clock (a ∷ out)) empty) (inl refl)
            (Linked-events_of c.window clock out near)
            (omega (arith, all, length-events_of (λ i. clock (suc i)) out))
            (subst (λ k. c.idle < closes - clock k) (omega arith) late)),
      unfold episode in
          length-map (span_of (clock 0)) (e ∷ es)
          ∙ ap suc (length-events_of (λ i. clock (suc i)) out),
      unfold episode in
          unfold events_of in shows_gap-reports p (clock 0) clock (a ∷ out) gaps ∙ said,
    )
