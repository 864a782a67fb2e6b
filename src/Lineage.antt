-- ===== src/Lineage.antt =====
-- internal/lineage/lineage.go: the per-prefix record of which plane holds a route, and its
-- reconciliation. Times are nanoseconds; `t.now()` is an argument. The mutex makes each operation one
-- step. A stage is an index into the hop array, which is a function here.
pub mod History
pub mod Live
pub mod Gap
pub mod Told
use frr_visible.Base.{
  ℕ, ◌-◌, ◌∷◌, [], List, Bool, true, false, not, ◌&&◌, ◌||◌, Option, none, some, if◌then◌else◌, leb,
  ltb, ◌==◌, ◌++◌, map,
}
use frr_visible.Base.Text.{Text, lit, is_empty, after_index, cut_byte, text_eq, text_eq_instance}
use frr_visible.Base.Map.{Map, lookup, insert, delete}

-- RibIn, Fpm, Kernel, nStages
abbrev pub rib_in : ℕ
rib_in = 0

abbrev pub fpm : ℕ
fpm = 1

abbrev pub kernel : ℕ
kernel = 2

abbrev pub n_stages : ℕ
n_stages = 3

unfoldable pub stage_name : ℕ → Text
stage_name s = if s == rib_in then lit "rib-in" else if s == fpm then lit "fpm" else lit "kernel"

pub record Hop : Type 0 where
  pub present : Bool
  pub ts : ℕ
  pub detail : Text

abbrev pub no_hop : Hop
no_hop = record { present = false; ts = 0; detail = [] }

pub record Entry : Type 0 where
  pub prefix : Text
  pub hops : ℕ → Hop
  pub kproto : Text
  pub flagged : Bool

-- (*Entry).present
abbrev pub present : Entry → ℕ → Bool
present e s = (e.hops s).present

abbrev pub fresh_entry : Text → Entry
fresh_entry p = record { prefix = p; hops = λ _. no_hop; kproto = []; flagged = false }

pub record Tracker : Type 0 where
  pub routes : Map Text Entry
  pub grace : ℕ

-- New: a grace that is not positive becomes three seconds.
unfoldable pub new : ℕ → Tracker
new grace = record { routes = []; grace = if grace == 0 then 3000000000 else grace }

-- The text up to the first space, or all of it.
unfoldable pub first_word : Text → Text
first_word s = elim (cut_byte b' ' s) [ none ↦ s | some (before, _) ↦ before ]

unfoldable pub proto_of : Text → Text
proto_of detail = elim (after_index (lit "proto=") detail) [ none ↦ [] | some s ↦ first_word s ]

-- The part of Observe that writes the entry.
unfoldable pub witness : Entry → ℕ → Hop → Entry
witness e stage h =
    let e1 = record e { hops = λ j. if stage == j then h else e.hops j } in
    if stage == kernel && h.present
    then record e1 { flagged = false; kproto = proto_of h.detail }
    else e1

abbrev pub entry_or_new : Text → Option Entry → Entry
entry_or_new p none = fresh_entry p
entry_or_new p (some e) = e

-- The end of Observe: the entry is in the map, and a prefix that no plane holds any more leaves it.
unfoldable pub settle : Text → Entry → Bool → Map Text Entry → Map Text Entry
settle prefix e present' routes =
    let routes' = insert prefix e routes in
    if not present' && (not (present e rib_in) && (not (present e fpm) && not (present e kernel)))
    then delete prefix routes'
    else routes'

unfoldable pub observe : ℕ → Text → ℕ → Bool → Text → Tracker → Tracker
observe now prefix stage present' detail t =
    if is_empty prefix || leb n_stages stage
    then t
    else let h : Hop = record { present = present'; ts = now; detail = detail } in
      let e = witness (entry_or_new prefix (lookup prefix t.routes)) stage h in
      record t { routes = settle prefix e present' t.routes }

pub record Anomaly : Type 0 where
  pub kind : Text
  pub prefix : Text
  pub detail : Text

-- The test of reconcile: pushed by zebra, not confirmed, not yet reported, older than the grace.
unfoldable pub is_gap : ℕ → ℕ → Entry → Bool
is_gap grace now e =
    present e fpm
    && (not (present e kernel) && (not e.flagged && ltb grace (now - (e.hops fpm).ts)))

-- `duration_string` is time.Duration's String, which only the text of a detail shows.
module _ (duration_string : ℕ → Text) where
  unfoldable pub gap_anomaly : ℕ → Entry → Anomaly
  gap_anomaly grace e = record {
    kind = lit "install-gap";
    prefix = e.prefix;
    detail =
        lit "fpm pushed but kernel unconfirmed >"
        ++ (duration_string grace ++ (lit " (" ++ ((e.hops fpm).detail ++ lit ")")));
  }

  -- The loop of reconcile: the entries with their flags set, and what is handed to `emit` afterwards.
  unfoldable pub reconcile_loop : ℕ → ℕ → Map Text Entry → Map Text Entry × List Anomaly
  unfolding is_gap
  reconcile_loop grace now [] = ([], [])
  reconcile_loop grace now ((p, e) ∷ m) =
      let (m', out) = reconcile_loop grace now m in
      if is_gap grace now e
      then ((p, record e { flagged = true }) ∷ m', gap_anomaly grace e ∷ out)
      else ((p, e) ∷ m', out)

  unfoldable pub reconcile : ℕ → Tracker → Tracker × List Anomaly
  unfolding reconcile_loop
  reconcile now t =
      let (m, out) = reconcile_loop t.grace now t.routes in (record t { routes = m }, out)

pub record Row : Type 0 where
  pub prefix : Text
  pub stages : Map Text Text
  pub gap : Text

abbrev stage_row : Entry → ℕ → Map Text Text
stage_row e s =
    if present e s
    then (stage_name s, if is_empty (e.hops s).detail then lit "yes" else (e.hops s).detail) ∷ []
    else []

unfoldable pub row_of : Entry → Row
row_of e = record {
  prefix = e.prefix;
  stages = stage_row e rib_in ++ (stage_row e fpm ++ stage_row e kernel);
  gap =
      if present e fpm && not (present e kernel)
      then lit "install-gap"
      else if present e kernel && (not (present e fpm) && text_eq e.kproto (lit "zebra"))
      then lit "orphan-kernel"
      else [];
}

unfoldable pub snapshot : Tracker → List Row
unfolding row_of
snapshot t = map (λ pe. row_of (pe.1)) t.routes
