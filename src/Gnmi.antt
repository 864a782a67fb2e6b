-- ===== src/Gnmi.antt =====
-- The gNMI messages that the ingesters build, and the calls they make on the objects that they share:
-- the cache (internal/state), the correlator (internal/correlate) and the tracker (internal/lineage).
-- A handler is a function to the list of its calls, in the order in which it makes them.
use frr_visible.Base.{ℕ, List, [], ◌∷◌, Bool, if◌then◌else◌}
use frr_visible.Base.Text.{Text, lit, is_empty}
use frr_visible.Base.Map.{Map}
use frr_visible.Base.{String, ◌++◌}

pub record PathElem : Type 0 where
  pub name : Text
  pub key : Map Text Text

abbrev pub elem : String → PathElem
elem n = record { name = lit n; key = [] }

abbrev pub keyed : String → Map Text Text → PathElem
keyed n k = record { name = lit n; key = k }

abbrev pub GnmiPath : Type 0
GnmiPath = List PathElem

pub data TypedValue : Type 0 where
  string_val : Text → TypedValue
  uint_val : ℕ → TypedValue
  json_ietf_val : Text → TypedValue
  json_val : Text → TypedValue
  other_val : TypedValue

pub record Update : Type 0 where
  pub path : GnmiPath
  pub val : TypedValue

-- strVal, uintVal and leafUpdate
unfoldable pub str_val : Text → TypedValue
str_val s = string_val s

unfoldable pub uint_val_of : ℕ → TypedValue
uint_val_of u = uint_val u

unfoldable pub leaf_update : GnmiPath → Text → Update
unfolding str_val
leaf_update elems v = record { path = elems; val = str_val v }

-- The end that several path builders share: a leaf below `state`, or the list entry itself for "".
unfoldable pub with_leaf : GnmiPath → Text → GnmiPath
with_leaf e leaf =
    if is_empty leaf then e else e ++ elem "state" ∷ record { name = leaf; key = [] } ∷ []

pub data Effect : Type 0 where
  -- (*state.Cache).Update(origin, ups, dels), with the error ignored
  updates : Text → List Update → List GnmiPath → Effect
  -- (*correlate.Correlator).Emit(bus, kind, key, detail, root)
  emits : Text → Text → Text → Text → Bool → Effect
  -- (*lineage.Tracker).Observe(prefix, stage, present, detail)
  observes : Text → ℕ → Bool → Text → Effect

-- Which of the optional objects are wired: SetCorrelator and SetLineage.
pub record Wiring : Type 0 where
  pub cor : Bool
  pub lin : Bool

-- Emit does nothing on a nil correlator.
unfoldable pub emit : Wiring → Text → Text → Text → Text → Bool → List Effect
emit w bus kind key detail root = if w.cor then emits bus kind key detail root ∷ [] else []

-- `if lin != nil { lin.Observe(…) }`
unfoldable pub observe : Wiring → Text → ℕ → Bool → Text → List Effect
observe w prefix stage present detail =
    if w.lin then observes prefix stage present detail ∷ [] else []
