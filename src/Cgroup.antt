-- ===== src/Cgroup.antt =====
-- internal/ingest/cgroup.go: sample and its readers. `read` is what os.ReadFile and os.Open return for a
-- path, `none` where they fail, and `trim_space` is strings.TrimSpace. A line of cpu.stat is taken to be
-- shorter than bufio.Scanner's limit of 64 KB, and its text to be ASCII; the carriage return that the
-- scanner drops is a space to strings.Fields.
pub mod Stat
pub mod Kernel
use frr_visible.Base.{ℕ, ◌++◌, List, [], ◌∷◌, Option, none, some, String, if◌then◌else◌}
use frr_visible.Base.Text.{Text, lit, is_empty, split, text_eq, text_eq_instance}
use frr_visible.Base.Text.Numeral.{parse_uint}
use frr_visible.Base.Map.{Map, lookup, insert}
use frr_visible.Gnmi.{elem, Update, uint_val_of, Effect, updates}
use frr_visible.Base.Text.Fields.{fields}

unfoldable pub host_update : Text → Text → ℕ → Update
unfolding uint_val_of
host_update group leaf v = record {
  path =
      elem "container"
      ∷ record { name = group; key = [] }
      ∷ elem "state"
      ∷ record { name = leaf; key = [] }
      ∷ [];
  val = uint_val_of v;
}

-- The value of a line that has one, set in the map.
abbrev set_value : Text → Option ℕ → Map Text ℕ → Map Text ℕ
set_value k none m = m
set_value k (some v) m = insert k v m

abbrev kv_line : List Text → Map Text ℕ → Map Text ℕ
kv_line [] m = m
kv_line (k ∷ []) m = m
kv_line (k ∷ v ∷ []) m = set_value k (parse_uint v) m
kv_line (k ∷ v ∷ w ∷ ws) m = m

unfoldable pub kv_loop : List Text → Map Text ℕ → Map Text ℕ
kv_loop [] m = m
kv_loop (line ∷ lines) m = kv_loop lines (kv_line (fields line) m)

unfoldable pub read_kv : Option Text → Map Text ℕ
unfolding kv_loop
read_kv none = []
read_kv (some text) = kv_loop (split text 10) []

-- The keys of cpu.stat that are sampled, with their leaves.
abbrev pub cpu_leaves : List (Text × Text)
cpu_leaves =
    (lit "usage_usec", lit "usage-usec")
    ∷ (lit "user_usec", lit "user-usec")
    ∷ (lit "system_usec", lit "system-usec")
    ∷ (lit "nr_periods", lit "nr-periods")
    ∷ (lit "nr_throttled", lit "nr-throttled")
    ∷ (lit "throttled_usec", lit "throttled-usec")
    ∷ []

-- The update of a value that was read, and none where it was not.
abbrev pub maybe_update : Text → Text → Option ℕ → List Update
maybe_update group leaf none = []
maybe_update group leaf (some v) = host_update group leaf v ∷ []

unfoldable pub cpu_loop : Map Text ℕ → List (Text × Text) → List Update
cpu_loop cpu [] = []
cpu_loop cpu ((k, leaf) ∷ ls) = maybe_update (lit "cpu") leaf (lookup k cpu) ++ cpu_loop cpu ls

abbrev pub update_if_any : List Update → List Effect
update_if_any [] = []
update_if_any (u ∷ us) = updates (lit "host") (u ∷ us) [] ∷ []

module _ (trim_space : Text → Text) where
  unfoldable pub read_uint : Option Text → Option ℕ
  read_uint none = none
  read_uint (some text) = parse_uint (trim_space text)

  -- "max" means that there is no limit.
  unfoldable pub read_limit : Option Text → Option ℕ
  read_limit none = none
  read_limit (some text) =
      if text_eq (trim_space text) (lit "max") then none else parse_uint (trim_space text)

  unfoldable pub sample_updates : (Text → Option Text) → Text → List Update
  sample_updates read root =
      cpu_loop (read_kv (read (root ++ lit "/cpu.stat"))) cpu_leaves
      ++ (maybe_update (lit "memory") (lit "current")
            (read_uint (read (root ++ lit "/memory.current")))
          ++ (maybe_update (lit "memory") (lit "swap-current")
                (read_uint (read (root ++ lit "/memory.swap.current")))
              ++ maybe_update (lit "memory") (lit "max")
                  (read_limit (read (root ++ lit "/memory.max")))))

  unfoldable pub sample : (Text → Option Text) → Text → List Effect
  unfolding sample_updates
  sample read root = update_if_any (sample_updates read root)
