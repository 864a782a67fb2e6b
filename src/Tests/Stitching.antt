-- ===== src/Tests/Stitching.antt =====
-- cmd/trace-aggregator/main.go on concrete inputs.
use mathlib.Core.List.{Perm, Mem}
use mathlib.Core.List.Perm
use frr_visible.Base.{
  ℕ, ◌≤◌, ◌/◌, ◌≡◌, refl, ◌↔◌, ◌⊎◌, inl, inr, List, [], ◌∷◌, All, Bool, true, false, none, some,
  if◌then◌else◌, leb, arith, Bool-cases,
}
use frr_visible.Base.Int.{pos}
use frr_visible.Base.Sort.{IsSort, IsOrdered}
use frr_visible.Base.Text.{Text, lit, text_eq_instance}
use frr_visible.Base.Map.{lookup}
use frr_visible.Correlate.{Trace, Span}
use frr_visible.Aggregator.{DSpan, DTrace, TxnRec}
use frr_visible.Aggregator.Cluster.{cluster}
use frr_visible.Aggregator.Cluster.Groups.{IsClustering, flatten, cluster_exact}
use frr_visible.Aggregator.Link.{link_key}
use frr_visible.Aggregator.Link.Names.{link_root, link_key_exact}
use frr_visible.Aggregator.Merge.{merge}
use frr_visible.Aggregator.Merge.Timeline.{IsTimeline, merge-IsTimeline}
use frr_visible.Aggregator.Txns.{match_txn}
use frr_visible.Aggregator.Txns.Latest.{Fits, match_txn_latest}
use frr_visible.Aggregator.Export.{ZSpan, zipkin_spans}
use frr_visible.Aggregator.Export.Waterfall.{AreShown, IsChild, IsGapless, zipkin_spans-waterfall}
use frr_visible.Aggregator.Export.Once.{Call, exported, AreDifferent, exported-AreDifferent}

-- A sort by a number, to run the code with.
module _ {A : Type 0} (key : A → ℕ) where
  unfoldable put : A → List A → List A
  put x [] = x ∷ []
  put x (y ∷ ys) = let later = y ∷ put x ys in if leb (key x) (key y) then x ∷ y ∷ ys else later

  unfoldable sort_by : List A → List A
  unfolding put
  sort_by [] = []
  sort_by (x ∷ xs) = put x (sort_by xs)

  put-perm : (x : A) (ys : List A) → Perm (put x ys) (x ∷ ys)
  unfolding put
  put-perm x [] = Perm.rfl
  put-perm x (y ∷ ys) = elim (Bool-cases (leb (key x) (key y))) [
    | inl first ↦ rw first Perm.rfl
    | inr later ↦ rw later (Perm.trans (Perm.cons y (put-perm x ys)) (Perm.swap x y ys))
  ]

  put-All :
      (n : ℕ) (x : A) (ys : List A)
      → n ≤ key x
      → All (λ z. n ≤ key z) ys
      → All (λ z. n ≤ key z) (put x ys)
  unfolding put
  put-All n x [] h hs = (h, tt)
  put-All n x (y ∷ ys) h hs = elim (Bool-cases (leb (key x) (key y))) [
    | inl first ↦ rw first (h, hs)
    | inr later ↦ rw later (hs.0, put-All n x ys h (hs.1))
  ]

  All-after : (m n : ℕ) (ys : List A) → m ≤ n → All (λ z. n ≤ key z) ys → All (λ z. m ≤ key z) ys
  All-after m n [] h hs = tt
  All-after m n (y ∷ ys) h hs = (omega (arith, h, hs.0), All-after m n ys h (hs.1))

  put-IsOrdered : (x : A) (ys : List A) → IsOrdered key ys → IsOrdered key (put x ys)
  unfolding put
  put-IsOrdered x [] o = (tt, tt)
  put-IsOrdered x (y ∷ ys) o = elim (Bool-cases (leb (key x) (key y))) [
    | inl first ↦ rw first ((ground arith, All-after (key x) (key y) ys (ground arith) (o.0)), o)
    | inr later ↦ rw later (put-All (key y) x ys (ground arith) (o.0), put-IsOrdered x ys (o.1))
  ]

  sort_by-perm : (l : List A) → Perm (sort_by l) l
  unfolding sort_by
  sort_by-perm [] = Perm.rfl
  sort_by-perm (x ∷ l) = Perm.trans (put-perm x (sort_by l)) (Perm.cons x (sort_by-perm l))

  sort_by-IsOrdered : (l : List A) → IsOrdered key (sort_by l)
  unfolding sort_by
  sort_by-IsOrdered [] = tt
  sort_by-IsOrdered (x ∷ l) = put-IsOrdered x (sort_by l) (sort_by-IsOrdered l)

  sort_by-IsSort : IsSort key sort_by
  sort_by-IsSort = record { perm = sort_by-perm; ordered = sort_by-IsOrdered }

abbrev span_at : ℕ → Span
span_at n = record { off_ms = pos n; bus = lit "ospf"; kind = lit "adj"; key = []; detail = [] }

abbrev trace_at : Text → ℕ → Text → Trace
trace_at node start root = record {
  node = node;
  id = 1;
  root = root;
  start = start;
  span_ms = pos 0;
  spans = span_at 3 ∷ span_at 1 ∷ [];
}

-- A link flap that both ends see, and a later event.
abbrev here : Trace
here = trace_at (lit "a") 1000 (link_root (lit "down") (lit "a") (lit "b"))

abbrev there : Trace
there = trace_at (lit "b") 1004 (link_root (lit "down") (lit "b") (lit "a"))

abbrev later : Trace
later = trace_at (lit "a") 9000 (lit "ospf/adj-up 1")

cluster_exact_example :
    (cluster 10 (here ∷ there ∷ later ∷ []) ≡ (here ∷ there ∷ []) ∷ (later ∷ []) ∷ []) ↔ (
      IsClustering 10 ((here ∷ there ∷ []) ∷ (later ∷ []) ∷ [])
      × (flatten ((here ∷ there ∷ []) ∷ (later ∷ []) ∷ []) ≡ here ∷ there ∷ later ∷ []))
cluster_exact_example =
    cluster_exact 10 (here ∷ there ∷ later ∷ []) ((here ∷ there ∷ []) ∷ (later ∷ []) ∷ [])

abbrev by_time : List DSpan → List DSpan
by_time = sort_by (λ s. s.at)

abbrev as_is : List Text → List Text
as_is names = names

merge-IsTimeline_example :
    IsTimeline (here ∷ there ∷ []) (merge by_time as_is 1 (here ∷ there ∷ []))
merge-IsTimeline_example =
    merge-IsTimeline by_time as_is 1 (here ∷ there ∷ []) (sort_by-IsSort (λ s. s.at))

link_key_exact_example :
    (link_key (link_root (lit "up") (lit "a") (lit "b"))
      ≡ link_key (link_root (lit "down") (lit "b") (lit "a")))
    ↔ ((lit "a" ≡ lit "b") × (lit "b" ≡ lit "a") ⊎ (lit "a" ≡ lit "a") × (lit "b" ≡ lit "b"))
unfolding lit
link_key_exact_example =
    link_key_exact (lit "up") (lit "down") (lit "a") (lit "b") (lit "b") (lit "a")
      ((refl, (refl, tt)), (refl, (refl, (refl, (refl, tt)))))
      (((refl, tt), (refl, tt)), ((refl, tt), (refl, tt)))
      (((refl, tt), (refl, tt)), ((refl, tt), (refl, tt)))

abbrev commit : ℕ → TxnRec
commit n = record { id = lit "c"; lab = []; action = []; agent = []; commit_ns = n }

match_txn_latest_example :
    let result = match_txn [] 100 10 (commit 900 ∷ commit 950 ∷ commit 2000 ∷ []) 1000 in
    All
      (λ t. Fits [] 100 10 1000 t → (b : TxnRec) × (result ≡ some b) × (t.commit_ns ≤ b.commit_ns))
      (commit 900 ∷ commit 950 ∷ commit 2000 ∷ [])
    × ((b : TxnRec)
        → result ≡ some b
        → Mem b (commit 900 ∷ commit 950 ∷ commit 2000 ∷ []) × Fits [] 100 10 1000 b)
match_txn_latest_example =
    match_txn_latest [] 100 10 1000 (commit 900 ∷ commit 950 ∷ commit 2000 ∷ [])

abbrev selector : Text
selector = b'{' ∷ b'j' ∷ b'=' ∷ b' ' ∷ []

abbrev merged : DTrace
merged = merge by_time as_is 1 (here ∷ there ∷ [])

merged-start : merged.start ≡ some 1001000
unfolding merge sort_by
merged-start = refl

abbrev no_hash : Text → ℕ → Text
no_hash seed n = seed

abbrev no_format : ℕ → Text
no_format start = []

zipkin_spans-waterfall_example :
    (root : ZSpan) × (zs : List ZSpan) × (zipkin_spans no_format no_hash merged 1001000 []
      ≡ root ∷ zs)
    × (root.timestamp ≡ 1001000 / 1000)
    × (root.trace_id ≡ [])
    × (root.id ≡ no_hash (lit "|root") 8)
    × (root.parent_id ≡ [])
    × AreShown no_hash merged 1001000 0 merged.spans zs
    × All (IsChild root) zs
    × IsGapless zs
zipkin_spans-waterfall_example =
    zipkin_spans-waterfall no_format no_hash (here ∷ there ∷ []) merged 1001000 []
      (merge-IsTimeline by_time as_is 1 (here ∷ there ∷ []) (sort_by-IsSort (λ s. s.at)))
      merged-start

-- The post fails the first time.
abbrev calls : List Call
calls =
    record { now = 5; ok = false; trace = merged; start = 1001000 }
    ∷ record { now = 6; ok = true; trace = merged; start = 1001000 }
    ∷ record { now = 7; ok = true; trace = merged; start = 1001000 }
    ∷ []

exported-AreDifferent_example :
    All (λ id. lookup {V = Bool} id [] ≡ none) (exported no_format no_hash false calls [])
    × AreDifferent (exported no_format no_hash false calls [])
exported-AreDifferent_example = exported-AreDifferent no_format no_hash false calls []
