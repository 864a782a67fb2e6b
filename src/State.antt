-- ===== src/State.antt =====
-- internal/state/cache.go: the cache that the ingesters write. `gnmi_update` is GnmiUpdate of the
-- openconfig cache, whose content is a `C`; `now` is time.Now, and an error is its text.
use frr_visible.Base.{ℕ, List, [], Option}
use frr_visible.Base.Text.{Text}
use frr_visible.Gnmi.{GnmiPath, Update}

-- gnmipb.Path with all its fields.
pub record FullPath : Type 0 where
  pub target : Text
  pub origin : Text
  pub elem : GnmiPath

pub record Notification : Type 0 where
  pub timestamp : ℕ
  pub prefix : FullPath
  pub update : List Update
  pub delete : List GnmiPath

pub record Cache (C : Type 0) : Type 0 where
  pub target : Text
  pub c : C

abbrev pub notification : ℕ → Text → Text → List Update → List GnmiPath → Notification
notification now target origin ups dels = record {
  timestamp = now;
  prefix = record { target = target; origin = origin; elem = [] };
  update = ups;
  delete = dels;
}

module _ {C : Type 0} where
  -- New, with the empty content of cache.New.
  unfoldable pub new : C → Text → Cache C
  new c target = record { target = target; c = c }

  unfoldable pub update :
      (Notification → C → C × Option Text)
      → ℕ
      → Text
      → List Update
      → List GnmiPath
      → Cache C
      → Cache C × Option Text
  update gnmi_update now origin ups dels s =
      let (c', failure) = gnmi_update (notification now s.target origin ups dels) s.c in
      (record s { c = c' }, failure)
