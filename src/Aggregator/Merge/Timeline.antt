-- ===== src/Aggregator/Merge/Timeline.antt =====
-- cmd/trace-aggregator/main.go: the timeline of a merged trace.
use mathlib.Core.List.{Perm}
use mathlib.Core.List.Perm
use frr_visible.Base.{
  ℕ, ◌-◌, ◌/◌, ◌≤◌, ◌≡◌, refl, ap, ap₂, ◌++◌, ◌*◌, ◌+◌, ◌∙◌, List, [], ◌∷◌, map, All, Option, none,
  some, if◌then◌else◌, ltb, arith,
}
use frr_visible.Base.Int.{ℤ, pos, negsuc, ms_since}
use frr_visible.Base.Text.{Text}
use frr_visible.Base.Sort.{IsSort, IsOrdered}
use frr_visible.Correlate.{Trace, Span}
use frr_visible.Aggregator.{DSpan, DTrace, add_ms}
use frr_visible.Aggregator.Merge.{dspan_of, spans_of, first_at, offset_loop, offsets_from, merge}

-- A span without its offset, as merge makes it first.
abbrev pub untimed : DSpan → DSpan
untimed s = record s { off_ms = pos 0 }

-- Where a span lies in a trace that starts at `start` and lasts `last` milliseconds.
pub record IsTimed (start last : ℕ) (s : DSpan) : Type 0 where
  pub after : start ≤ s.at
  pub offset : s.off_ms ≡ pos ((s.at - start) / 1000000)
  pub within : (s.at - start) / 1000000 ≤ last

abbrev pub IsTimedFrom : Option ℕ → ℕ → List DSpan → Type 0
IsTimedFrom none last ss = ss ≡ []
IsTimedFrom (some start) last ss = All (IsTimed start last) ss

-- The spans of a group as the aggregator shows them: those of each trace, with the trace's node and
-- the time of the trace's start and the span's offset, and with no offset yet.
unfoldable pub moment : ℕ → ℤ → ℕ
moment start (pos n) = start + n * 1000000
moment start (negsuc n) = start - (n + 1) * 1000000

abbrev shown : Trace → Span → DSpan
shown t s = record {
  off_ms = pos 0;
  node = t.node;
  bus = s.bus;
  kind = s.kind;
  key = s.key;
  detail = s.detail;
  at = moment t.start s.off_ms;
}

unfoldable pub all_spans : List Trace → List DSpan
unfolding moment
all_spans [] = []
all_spans (t ∷ g) = map (shown t) t.spans ++ all_spans g

-- A trace starts at its first span.
abbrev pub StartsAt : Option ℕ → List DSpan → Type 0
StartsAt start [] = start ≡ none
StartsAt start (s ∷ ss) = start ≡ some s.at

pub record IsTimeline (g : List Trace) (d : DTrace) : Type 0 where
  pub same : Perm (map untimed d.spans) (all_spans g)
  pub ordered : IsOrdered (λ s. s.at) d.spans
  pub last : ℕ
  pub spans_last : d.span_ms ≡ pos last
  pub start : StartsAt d.start d.spans
  pub timed : IsTimedFrom d.start last d.spans

add_ms-moment : (start : ℕ) (off : ℤ) → add_ms start off ≡ moment start off
unfolding add_ms moment
add_ms-moment start (pos n) = refl
add_ms-moment start (negsuc n) = omega arith

dspan-shown : (t : Trace) (s : Span) → untimed (dspan_of t s) ≡ shown t s
unfolding dspan_of
dspan-shown t s = ap (λ n. record (shown t s) { at = n }) (add_ms-moment t.start s.off_ms)

untimed-spans : (t : Trace) (ss : List Span) → map untimed (map (dspan_of t) ss) ≡ map (shown t) ss
untimed-spans t [] = refl
untimed-spans t (s ∷ ss) = ap₂ (λ x l. x ∷ l) (dspan-shown t s) (untimed-spans t ss)

map-append : (f : DSpan → DSpan) (xs ys : List DSpan) → map f (xs ++ ys) ≡ map f xs ++ map f ys
map-append f [] ys = refl
map-append f (x ∷ xs) ys = ap (λ l. f x ∷ l) (map-append f xs ys)

untimed-spans_of : (g : List Trace) → map untimed (spans_of g) ≡ all_spans g
unfolding spans_of all_spans
untimed-spans_of [] = refl
untimed-spans_of (t ∷ g) =
    map-append untimed (map (dspan_of t) t.spans) (spans_of g)
    ∙ ap₂ (λ a b. a ++ b) (untimed-spans t t.spans) (untimed-spans_of g)

abbrev IsAfter : ℕ → DSpan → Type 0
IsAfter start s = start ≤ s.at

offset_loop-untimed :
    (start : ℕ) (ss : List DSpan) (span : ℤ)
    → map untimed (offset_loop start ss span).0 ≡ map untimed ss
unfolding offset_loop
offset_loop-untimed start [] span = refl
offset_loop-untimed start (s ∷ ss) span = ap (λ l. untimed s ∷ l) (offset_loop-untimed start ss _)

ms_since-pos : (a b : ℕ) → b ≤ a → ms_since a b ≡ pos ((a - b) / 1000000)
unfolding ms_since
ms_since-pos a b h = ground arith

abbrev greater : ℕ → ℕ → ℕ
greater n d = if ltb n d then d else n

greater-pos : (n d : ℕ) → (if ltb n d then pos d else pos n) ≡ pos (greater n d)
greater-pos n d = ground arith

-- The greatest offset is a number that is at least the bound, and every span lies within it.
offset_loop-IsTimed :
    (start : ℕ) (ss : List DSpan) (n : ℕ)
    → All (IsAfter start) ss
    → (last : ℕ) × ((offset_loop start ss (pos n)).1 ≡ pos last)
      × (n ≤ last)
      × All (IsTimed start last) (offset_loop start ss (pos n)).0
unfolding offset_loop
offset_loop-IsTimed start [] n h = (n, refl, omega arith, tt)
offset_loop-IsTimed start (s ∷ ss) n h =
    let d = (s.at - start) / 1000000 in
    let rest = offset_loop-IsTimed start ss (greater n d) (h.1) in
    rw (ms_since-pos s.at start (h.0), greater-pos n d)
      (
        rest.0,
        rest.1,
        ground (arith, rest.2),
        (record { after = h.0; offset = refl; within = ground (arith, rest.2) }, rest.3),
      )

offset_loop-All :
    (start b : ℕ) (ss : List DSpan) (span : ℤ)
    → All (IsAfter b) ss
    → All (IsAfter b) (offset_loop start ss span).0
unfolding offset_loop
offset_loop-All start b [] span h = tt
offset_loop-All start b (s ∷ ss) span h = (h.0, offset_loop-All start b ss _ (h.1))

offset_loop-IsOrdered :
    (start : ℕ) (ss : List DSpan) (span : ℤ)
    → IsOrdered (λ s. s.at) ss
    → IsOrdered (λ s. s.at) (offset_loop start ss span).0
unfolding offset_loop
offset_loop-IsOrdered start [] span h = tt
offset_loop-IsOrdered start (s ∷ ss) span h =
    (offset_loop-All start s.at ss _ (h.0), offset_loop-IsOrdered start ss _ (h.1))

module _ (sort_spans : List DSpan → List DSpan) (sort_strings : List Text → List Text) where
  offsets_from-IsTimeline :
      (g : List Trace) (ss : List DSpan)
      → Perm ss (spans_of g)
      → IsOrdered (λ s. s.at) ss
      → (d : DTrace) → d.start ≡ first_at ss
      → d.spans ≡ (offsets_from (first_at ss) ss).0
      → d.span_ms ≡ (offsets_from (first_at ss) ss).1
      → IsTimeline g d
  unfolding offset_loop
  offsets_from-IsTimeline g [] p o d st sp ms = record {
    same = rw (sp, ← untimed-spans_of g) (Perm.map untimed p);
    ordered = rw sp tt;
    last = 0;
    spans_last = ms;
    start = rw sp st;
    timed = rw (st, sp) refl;
  }
  offsets_from-IsTimeline g (s ∷ ss) p o d st sp ms =
      let t = offset_loop-IsTimed s.at (s ∷ ss) 0 (omega arith, o.0) in
      record {
        same =
            rw (sp, offset_loop-untimed s.at (s ∷ ss) (pos 0), ← untimed-spans_of g)
              (Perm.map untimed p);
        ordered = rw sp (offset_loop-IsOrdered s.at (s ∷ ss) (pos 0) o);
        last = t.0;
        spans_last = ms ∙ t.1;
        start = rw sp st;
        timed = rw (st, sp) (t.3);
      }

  -- With a sort that keeps the items and puts them in order of time, a merged trace has exactly the spans
  -- of all traces of its group, each with its trace's node and at the time that its trace's start and
  -- its offset make, in the order of time; it starts with the first of them, each offset is the span's time
  -- after that start, in whole milliseconds, and no offset is greater than the length of the trace.
  pub merge-IsTimeline :
      (id : ℕ) (g : List Trace)
      → IsSort (λ s. s.at) sort_spans
      → IsTimeline g (merge sort_spans sort_strings id g)
  unfolding merge
  merge-IsTimeline id g h =
      offsets_from-IsTimeline g (sort_spans (spans_of g)) (h.perm (spans_of g))
        (h.ordered (spans_of g)) _ refl refl refl
