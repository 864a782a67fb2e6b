-- ===== src/Aggregator/Cluster.antt =====
-- cmd/trace-aggregator/main.go: build. `fetch` is the node's HTTP answer, after json.Unmarshal, and
-- `sort` is sort.Slice by the start time.
pub mod Groups
use frr_visible.Base.{
  ℕ, ◌+◌, ◌≤◌, ◌<◌, ◌≡◌, refl, sym, ap, ap₂, ◌∙◌, List, [], ◌∷◌, ◌++◌, All, Bool, true, false,
  Option, none, some, if◌then◌else◌, leb, arith, append_assoc, append-nil, Bool-cases, inl, inr,
}
use frr_visible.Base.Text.{Text, lit, is_empty, cut_byte}
use frr_visible.Base.Map.{Map}
use frr_visible.Correlate.{Trace}

abbrev with_port : Option (Text × Text) → Text → Text
with_port none ip = ip ++ lit ":9340"
with_port (some _) ip = ip

-- The node's name of the inventory, where the trace has none.
unfoldable pub named : Text → List Trace → List Trace
named node [] = []
named node (t ∷ ts) = (if is_empty t.node then record t { node = node } else t) ∷ named node ts

module _ (fetch : Text → List Trace) where
  unfoldable pub fetch_all : Map Text Text → List Trace
  unfolding named
  fetch_all [] = []
  fetch_all ((node, ip) ∷ inventory) =
      named node (fetch (lit "http://" ++ (with_port (cut_byte b':' ip) ip ++ lit "/traces")))
      ++ fetch_all inventory

-- t.Start.Sub(first.Start) <= window
abbrev pub is_near : ℕ → Trace → Trace → Bool
is_near window first t = leb t.start (first.start + window)

-- A new trace, after the groups so far: it joins the last group or opens one.
abbrev fits : ℕ → List Trace → Trace → Bool
fits window [] t = false
fits window (first ∷ _) t = is_near window first t

unfoldable pub place : ℕ → List (List Trace) → Trace → List (List Trace)
place window [] t = (t ∷ []) ∷ []
place window (g ∷ []) t = if fits window g t then (g ++ t ∷ []) ∷ [] else g ∷ (t ∷ []) ∷ []
place window (g ∷ h ∷ gs) t = g ∷ place window (h ∷ gs) t

unfoldable pub cluster_loop : ℕ → List Trace → List (List Trace) → List (List Trace)
unfolding place
cluster_loop window [] groups = groups
cluster_loop window (t ∷ ts) groups = cluster_loop window ts (place window groups t)

unfoldable pub cluster : ℕ → List Trace → List (List Trace)
unfolding cluster_loop
cluster window all = cluster_loop window all []
