-- ===== src/Aggregator/Export.antt =====
-- cmd/trace-aggregator/main.go: txnTags and pushZipkin. `format` is the start time in RFC3339Nano,
-- `hex_id` the digits of a SHA-256 hash, and `now` the time of time.Since; a post answers whether it
-- succeeded. `start` is dt.Start, of a trace that has a span. An export is what one run posts, with the spans as they are given to json.Marshal.
pub mod Waterfall
pub mod Once
use frr_visible.Base.{
  ℕ, suc, ◌+◌, ◌-◌, ◌*◌, ◌/◌, List, [], ◌∷◌, ◌++◌, Bool, true, false, not, ◌&&◌, ◌||◌, Option, none,
  some, if◌then◌else◌, ltb,
}
use frr_visible.Base.Int.{ℤ, pos, negsuc}
use frr_visible.Base.Text.{Text, lit, is_empty, text_eq, text_eq_instance, itoa, join}
use frr_visible.Base.Map.{Map, lookup, insert}
use frr_visible.Aggregator.{DSpan, DTrace, add_ms}

-- zSpan; `local` is the service name of its endpoint.
pub record ZSpan : Type 0 where
  pub trace_id : Text
  pub id : Text
  pub parent_id : Text
  pub name : Text
  pub timestamp : ℕ
  pub duration : ℤ
  pub local : Text
  pub tags : Map Text Text

abbrev insert_nonempty : Text → Text → Map Text Text → Map Text Text
insert_nonempty k v m = if is_empty v then m else insert k v m

unfoldable pub txn_tags : Map Text Text → DTrace → Map Text Text
txn_tags m d =
    if is_empty d.txn
    then m
    else insert_nonempty (lit "txn.agent") d.txn_by
        (insert_nonempty (lit "txn.action") d.txn_act (insert (lit "txn.id") d.txn m))

-- Products and differences of an int64, where it does not overflow.
abbrev times_1000 : ℤ → ℤ
times_1000 (pos n) = pos (n * 1000)
times_1000 (negsuc n) = negsuc (n * 1000 + 999)

abbrev add_one : ℤ → ℤ
add_one (pos n) = pos (n + 1)
add_one (negsuc n) = if ltb 0 n then negsuc (n - 1) else pos 0

abbrev less : ℕ → ℕ → ℤ
less a b = if ltb a b then negsuc (b - a - 1) else pos (a - b)

abbrev minus : ℤ → ℤ → ℤ
minus (pos a) (pos b) = less a b
minus (pos a) (negsuc b) = pos (a + b + 1)
minus (negsuc a) (pos b) = negsuc (a + b)
minus (negsuc a) (negsuc b) = less b a

-- The greater of 1000 and the gap.
abbrev at_least_1000 : ℤ → ℤ
at_least_1000 (pos n) = if ltb 1000 n then pos n else pos 1000
at_least_1000 (negsuc n) = pos 1000

-- How long a span is shown: up to the next one, and a millisecond at least.
abbrev pub duration_of : ℤ → List DSpan → ℤ
duration_of off [] = pos 1000
duration_of off (next ∷ _) = at_least_1000 (times_1000 (minus next.off_ms off))

-- A trace that no transaction has claimed is held for twelve seconds, where Loki is asked at all.
unfoldable pub is_held : Bool → ℕ → DTrace → ℕ → Bool
is_held loki now d start = loki && (is_empty d.txn && ltb now (start + 12000000000))

-- The two early returns of pushZipkin, and the post.
abbrev pub export_unless :
    Option Bool
    → Bool
    → Bool
    → Text
    → List ZSpan
    → Map Text Bool
    → Map Text Bool × Option (List ZSpan)
export_unless (some _) held ok trace_id spans pushed = (pushed, none)
export_unless none held ok trace_id spans pushed =
    if held
    then (pushed, none)
    else (if ok then insert trace_id true pushed else pushed, some spans)

module _ (format : ℕ → Text) (hex_id : Text → ℕ → Text) where
  unfoldable pub trace_id_of : DTrace → ℕ → Text
  trace_id_of d start =
      hex_id (format start ++ (lit "|" ++ (d.link ++ (lit "|" ++ join d.roots (lit ";"))))) 16

  unfoldable pub child : DTrace → ℕ → Text → Text → ℕ → DSpan → List DSpan → ZSpan
  unfolding add_ms txn_tags
  child d start trace_id root_id i s rest = record {
    trace_id = trace_id;
    id = hex_id (trace_id ++ (lit "|" ++ itoa i)) 8;
    parent_id = root_id;
    name = s.bus ++ (lit "/" ++ s.kind);
    timestamp = add_ms start s.off_ms / 1000;
    duration = duration_of s.off_ms rest;
    local = s.node;
    tags = txn_tags ((lit "key", s.key) ∷ (lit "detail", s.detail) ∷ []) d;
  }

  unfoldable pub children : DTrace → ℕ → Text → Text → ℕ → List DSpan → List ZSpan
  unfolding child
  children d start trace_id root_id i [] = []
  children d start trace_id root_id i (s ∷ ss) =
      child d start trace_id root_id i s ss ∷ children d start trace_id root_id (suc i) ss

  unfoldable pub root_span : DTrace → ℕ → Text → Text → ZSpan
  unfolding txn_tags
  root_span d start trace_id root_id = record {
    trace_id = trace_id;
    id = root_id;
    parent_id = [];
    name = if is_empty d.link then lit "convergence" else lit "convergence " ++ d.link;
    timestamp = start / 1000;
    duration = add_one (times_1000 d.span_ms);
    local = lit "network";
    tags =
        txn_tags
          ((lit "link", d.link)
            ∷ (lit "nodes", join d.nodes (lit ","))
            ∷ (lit "roots", join d.roots (lit " | "))
            ∷ [])
          d;
  }

  -- The spans of a trace.
  unfoldable pub zipkin_spans : DTrace → ℕ → Text → List ZSpan
  unfolding root_span children
  zipkin_spans d start trace_id =
      let root_id = hex_id (trace_id ++ lit "|root") 8 in
      root_span d start trace_id root_id ∷ children d start trace_id root_id 0 d.spans

  -- One call of pushZipkin: the new set of exported ids, and what it posts. `ok` is whether the post
  -- succeeds.
  unfoldable pub push_zipkin :
      Bool → ℕ → Bool → DTrace → ℕ → Map Text Bool → Map Text Bool × Option (List ZSpan)
  push_zipkin loki now ok d start pushed =
      let trace_id = trace_id_of d start in
      export_unless (lookup trace_id pushed) (is_held loki now d start) ok trace_id
        (zipkin_spans d start trace_id) pushed
