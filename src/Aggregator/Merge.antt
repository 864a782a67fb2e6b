-- ===== src/Aggregator/Merge.antt =====
-- cmd/trace-aggregator/main.go: merge and build. `sort_spans`, `sort_traces` and `sort_strings` are
-- sort.Slice by time and sort.Strings; a range over a map visits it in some order.
pub mod Timeline
pub mod Votes
use frr_visible.Base.{
  ℕ, suc, ◌+◌, List, [], ◌∷◌, ◌++◌, map, Bool, true, false, Option, none, some, if◌then◌else◌, ltb,
}
use frr_visible.Base.Int.{ℤ, pos, negsuc, ms_since}
use frr_visible.Base.Text.{Text, lit, is_empty, text_eq_instance}
use frr_visible.Base.Map.{Map, lookup, insert}
use frr_visible.Correlate.{Trace, Span}
use frr_visible.Aggregator.{DSpan, DTrace, add_ms}
use frr_visible.Aggregator.Link.{link_key}
use frr_visible.Aggregator.Cluster.{fetch_all, cluster}

unfoldable pub dspan_of : Trace → Span → DSpan
unfolding add_ms
dspan_of t s = record {
  off_ms = pos 0;
  node = t.node;
  bus = s.bus;
  kind = s.kind;
  key = s.key;
  detail = s.detail;
  at = add_ms t.start s.off_ms;
}

-- The spans, nodes, roots and votes that the loop over the group collects.
unfoldable pub spans_of : List Trace → List DSpan
unfolding dspan_of
spans_of [] = []
spans_of (t ∷ g) = map (dspan_of t) t.spans ++ spans_of g

unfoldable pub nodes_of : List Trace → Map Text Bool → Map Text Bool
nodes_of [] m = m
nodes_of (t ∷ g) m = nodes_of g (insert t.node true m)

unfoldable pub root_of : Trace → Text
root_of t = t.node ++ (lit ": " ++ t.root)

abbrev pub count_or_zero : Option ℕ → ℕ
count_or_zero none = 0
count_or_zero (some n) = n

-- A root of a link is a vote for it.
unfoldable pub vote : Text → Map Text ℕ → Map Text ℕ
vote lk m = if is_empty lk then m else insert lk (suc (count_or_zero (lookup lk m))) m

unfoldable pub votes_of : List Trace → Map Text ℕ → Map Text ℕ
votes_of [] m = m
votes_of (t ∷ g) m = votes_of g (vote (link_key t.root) m)

-- keys
unfoldable pub keys {ℓ} : {A : Type ℓ} → Map Text A → List Text
keys [] = []
keys ((k, v) ∷ m) = k ∷ keys m

-- The time of the first span.
abbrev pub first_at : List DSpan → Option ℕ
first_at [] = none
first_at (s ∷ _) = some s.at

-- a > b
abbrev pub exceeds : ℤ → ℤ → Bool
exceeds (pos a) (pos b) = ltb b a
exceeds (pos a) (negsuc b) = true
exceeds (negsuc a) (pos b) = false
exceeds (negsuc a) (negsuc b) = ltb a b

-- The loop that sets the offsets, and the greatest offset.
unfoldable pub offset_loop : ℕ → List DSpan → ℤ → List DSpan × ℤ
offset_loop start [] span = ([], span)
offset_loop start (s ∷ ss) span =
    let off = ms_since s.at start in
    let (rest, span') = offset_loop start ss (if exceeds off span then off else span) in
    (record s { off_ms = off } ∷ rest, span')

abbrev pub offsets_from : Option ℕ → List DSpan → List DSpan × ℤ
offsets_from none ss = (ss, pos 0)
offsets_from (some start) ss = offset_loop start ss (pos 0)

-- The link with the most votes, and their number.
unfoldable pub elect_loop : Map Text ℕ → Text → ℕ → Text × ℕ
elect_loop [] link best = (link, best)
elect_loop ((k, v) ∷ m) link best = if ltb best v then elect_loop m k v else elect_loop m link best

module _ (sort_spans : List DSpan → List DSpan) (sort_strings : List Text → List Text) where
  unfoldable pub merge : ℕ → List Trace → DTrace
  unfolding spans_of nodes_of root_of votes_of keys offset_loop elect_loop
  merge id g =
      let spans = sort_spans (spans_of g) in
      let (timed, span) = offsets_from (first_at spans) spans in
      record {
        id = id;
        start = first_at spans;
        span_ms = span;
        link = (elect_loop (votes_of g []) [] 0).0;
        nodes = sort_strings (keys (nodes_of g []));
        roots = map root_of g;
        spans = timed;
        txn = [];
        txn_act = [];
        txn_by = [];
      }

  unfoldable pub merge_all : ℕ → List (List Trace) → List DTrace
  unfolding merge
  merge_all id [] = []
  merge_all id (g ∷ gs) = merge id g ∷ merge_all (suc id) gs

  unfoldable pub build :
      (List Trace → List Trace) → (Text → List Trace) → ℕ → Map Text Text → List DTrace
  unfolding fetch_all cluster merge_all
  build sort_traces fetch window inventory =
      merge_all 1 (cluster window (sort_traces (fetch_all fetch inventory)))
