-- ===== src/Aggregator/Export/Waterfall.antt =====
-- cmd/trace-aggregator/main.go: how the exported spans of a merged trace lie in time.
use frr_visible.Base.{
  ◌<◌, subst, ℕ, suc, ◌+◌, ◌-◌, ◌*◌, ◌/◌, ◌≤◌, ◌≡◌, refl, sym, List, [], ◌∷◌, All, false, none,
  ◌++◌, some, if◌then◌else◌, ltb, arith,
}
use frr_visible.Base.Int.{pos}
use frr_visible.Base.Text.{Text, lit, itoa, is_empty, text_eq, text_eq_instance}
use frr_visible.Base.Map.{Map, lookup, insert}
use frr_visible.Base.Sort.{IsOrdered}
use frr_visible.Correlate.{Trace}
use frr_visible.Aggregator.{DSpan, DTrace, add_ms}
use frr_visible.Aggregator.Merge.Timeline.{IsTimed, IsTimedFrom, IsTimeline}
use frr_visible.Aggregator.Export.{
  txn_tags, ZSpan, duration_of, child, children, zipkin_spans, root_span,
}

-- A child of the root span: it begins while the root lasts.
pub record IsChild (root : ZSpan) (z : ZSpan) : Type 0 where
  pub of_trace : z.trace_id ≡ root.trace_id
  pub parent : z.parent_id ≡ root.id
  pub after : root.timestamp ≤ z.timestamp
  pub length : ℕ
  pub lasts : root.duration ≡ pos length
  pub before : z.timestamp < root.timestamp + length

-- The child that shows the span number `i` of a trace: where it is shown, what it is called, and that
-- it carries the key and the detail, and the id of the transaction of a claimed trace.
pub record IsShown (hex_id : Text → ℕ → Text) (d : DTrace) (start i : ℕ) (s : DSpan) (z : ZSpan)
    : Type 0 where
  pub id : z.id ≡ hex_id (z.trace_id ++ (lit "|" ++ itoa i)) 8
  pub name : z.name ≡ s.bus ++ (lit "/" ++ s.kind)
  pub node : z.local ≡ s.node
  pub at : z.timestamp ≡ start / 1000 + (s.at - start) / 1000000 * 1000
  pub key : lookup (lit "key") z.tags ≡ some s.key
  pub detail : lookup (lit "detail") z.tags ≡ some s.detail
  pub txn : lookup (lit "txn.id") z.tags ≡ (if is_empty d.txn then none else some d.txn)

-- One child for each span, in order, numbered from `i`.
abbrev pub AreShown : (Text → ℕ → Text) → DTrace → ℕ → ℕ → List DSpan → List ZSpan → Type 0
AreShown hex_id d start i [] [] = Unit {0}
AreShown hex_id d start i [] (z ∷ zs) = ⊥
AreShown hex_id d start i (s ∷ ss) [] = ⊥
AreShown hex_id d start i (s ∷ ss) (z ∷ zs) =
    IsShown hex_id d start i s z × AreShown hex_id d start (i + 1) ss zs

-- Every span lasts for at least a millisecond, and until the next one begins.
abbrev pub IsGapless : List ZSpan → Type 0
IsGapless [] = Unit {0}
IsGapless (z ∷ []) = z.duration ≡ pos 1000
IsGapless (z ∷ y ∷ zs) =
    ((n : ℕ) × (z.duration ≡ pos n) × (1000 ≤ n) × (y.timestamp ≤ z.timestamp + n))
    × IsGapless (y ∷ zs)

micros : (start n : ℕ) → add_ms start (pos n) / 1000 ≡ start / 1000 + n * 1000
unfolding add_ms
micros start n = omega arith

duration_next :
    (a b : ℕ) (s : DSpan) (ss : List DSpan)
    → a ≤ b
    → s.off_ms ≡ pos b
    → (n : ℕ) × (duration_of (pos a) (s ∷ ss) ≡ pos n) × (1000 ≤ n) × (b * 1000 ≤ a * 1000 + n)
duration_next a b s ss h e =
    let m = (b - a) * 1000 in
    rw (e, not_less) (if ltb 1000 m then m else 1000, ground arith, ground arith, ground arith)
  where
    not_less : ltb b a ≡ false
    not_less = ground (arith, h)

-- The tags of a child, whose own are not those of a transaction.
module _ (d : DTrace) (key detail : Text) where
  tags : Map Text Text
  tags = txn_tags ((lit "key", key) ∷ (lit "detail", detail) ∷ []) d

  key-tags : lookup (lit "key") tags ≡ some key
  unfolding tags txn_tags lookup insert lit text_eq
  key-tags = ground arith

  detail-tags : lookup (lit "detail") tags ≡ some detail
  unfolding tags txn_tags lookup insert lit text_eq
  detail-tags = ground arith

  txn-tags : lookup (lit "txn.id") tags ≡ (if is_empty d.txn then none else some d.txn)
  unfolding tags txn_tags lookup insert lit text_eq
  txn-tags = ground arith

module _ (format : ℕ → Text) (hex_id : Text → ℕ → Text) (d : DTrace) (start last : ℕ)
    (trace_id root_id : Text) where
  timestamp-child :
      (i : ℕ) (s : DSpan) (rest : List DSpan)
      → IsTimed start last s
      → (child format hex_id d start trace_id root_id i s rest).timestamp
        ≡ start / 1000 + (s.at - start) / 1000000 * 1000
  unfolding child
  timestamp-child i s rest h = rw (h.offset) (micros start _)

  children-IsChild :
      (i : ℕ) (ss : List DSpan) (root : ZSpan)
      → root.trace_id ≡ trace_id
      → root.id ≡ root_id
      → root.timestamp ≡ start / 1000
      → root.duration ≡ pos (last * 1000 + 1)
      → All (IsTimed start last) ss
      → All (IsChild root) (children format hex_id d start trace_id root_id i ss)
  unfolding children
  children-IsChild i [] root t r ts du h = tt
  children-IsChild i (s ∷ ss) root t r ts du h = (
    record {
      of_trace = unfold child in sym t;
      parent = unfold child in sym r;
      after = omega (arith, ts, timestamp-child i s ss (h.0));
      length = last * 1000 + 1;
      lasts = du;
      before = omega (arith, ts, timestamp-child i s ss (h.0), h.0.within);
    },
    children-IsChild (suc i) ss root t r ts du (h.1),
  )

  children-AreShown :
      (i : ℕ) (ss : List DSpan)
      → All (IsTimed start last) ss
      → AreShown hex_id d start i ss (children format hex_id d start trace_id root_id i ss)
  unfolding children
  children-AreShown i [] h = tt
  children-AreShown i (s ∷ ss) h = (
    record {
      id = unfold child in refl;
      name = unfold child in refl;
      node = unfold child in refl;
      at = timestamp-child i s ss (h.0);
      key = unfold child tags in key-tags d s.key s.detail;
      detail = unfold child tags in detail-tags d s.key s.detail;
      txn = unfold child tags in txn-tags d s.key s.detail;
    },
    subst
        (λ j.
          AreShown hex_id d start j ss (children format hex_id d start trace_id root_id (suc i) ss))
        (omega arith) (children-AreShown (suc i) ss (h.1)),
  )

  children-IsGapless :
      (i : ℕ) (ss : List DSpan)
      → All (IsTimed start last) ss
      → IsOrdered (λ s. s.at) ss
      → IsGapless (children format hex_id d start trace_id root_id i ss)
  unfolding children
  children-IsGapless i [] h o = tt
  children-IsGapless i (s ∷ []) h o = unfold child in refl
  children-IsGapless i (s ∷ s' ∷ ss) h o = (gap, children-IsGapless (suc i) (s' ∷ ss) (h.1) (o.1))
    where
      a : ℕ
      a = (s.at - start) / 1000000

      b : ℕ
      b = (s'.at - start) / 1000000

      ordered : a ≤ b
      ordered = omega (arith, o.0.0)

      next :
          (n : ℕ) × (duration_of (pos a) (s' ∷ ss) ≡ pos n) × (1000 ≤ n) × (b * 1000 ≤ a * 1000 + n)
      next = duration_next a b s' ss ordered (h.1.0.offset)

      gap :
          (n : ℕ) × (duration_of s.off_ms (s' ∷ ss) ≡ pos n)
          × (1000 ≤ n)
          × (add_ms start s'.off_ms / 1000 ≤ add_ms start s.off_ms / 1000 + n)
      gap = (
        next.0,
        rw (h.0.offset) (next.1),
        next.2,
        rw (h.0.offset, h.1.0.offset) (omega (arith, micros start a, micros start b, next.3)),
      )

-- A merged trace with a timeline and a start, when it is exported, becomes a root span, which starts
-- with it and has no parent, and one child for each span, in their order. The child of a span has the
-- span's bus and kind as its name, its node, its time in whole milliseconds after the start, its key
-- and its detail, the id of the trace's transaction if there is one, and an id that is the hash of the
-- trace id and the span's number. Every child is the root's, begins while the root lasts, and lasts for
-- a millisecond at least and until the next one begins.
pub zipkin_spans-waterfall :
    (format : ℕ → Text) (hex_id : Text → ℕ → Text) (g : List Trace) (d : DTrace) (start : ℕ)
    (trace_id : Text)
    → IsTimeline g d
    → d.start ≡ some start
    → (root : ZSpan) × (zs : List ZSpan) × (zipkin_spans format hex_id d start trace_id ≡ root ∷ zs)
      × (root.timestamp ≡ start / 1000)
      × (root.trace_id ≡ trace_id)
      × (root.id ≡ hex_id (trace_id ++ lit "|root") 8)
      × (root.parent_id ≡ [])
      × AreShown hex_id d start 0 d.spans zs
      × All (IsChild root) zs
      × IsGapless zs
unfolding zipkin_spans root_span
zipkin_spans-waterfall format hex_id g d start trace_id t st =
    let timed : All (IsTimed start t.last) d.spans =
      subst (λ o. IsTimedFrom o t.last d.spans) st (t.timed) in
    (
      _,
      _,
      refl,
      refl,
      refl,
      refl,
      refl,
      children-AreShown format hex_id d start t.last trace_id _ 0 d.spans timed,
      children-IsChild format hex_id d start t.last trace_id _ 0 d.spans _ refl refl refl
          (rw (t.spans_last) refl) timed,
      children-IsGapless format hex_id d start t.last trace_id _ 0 d.spans timed (t.ordered),
    )
