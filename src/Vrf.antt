-- ===== src/Vrf.antt =====
-- internal/ingest/vrf.go: VRF device names by routing table. What netlink.LinkList returns is an
-- argument: `none` is its error, and otherwise the list has the table and the name of each VRF device.
-- Each operation returns the resolver's map after it.
pub mod Laws
use frr_visible.Base.{
  ℕ, List, [], ◌∷◌, ◌++◌, map, Bool, Option, none, some, if◌then◌else◌, ◌==◌, ◌||◌, nat_eq,
}
use frr_visible.Base.Text.{Text, lit, itoa}
use frr_visible.Base.Map.{Map, lookup, insert}

unfoldable pub index_links : List (ℕ × Text) → Map ℕ Text → Map ℕ Text
index_links [] m = m
index_links ((table, name) ∷ links) m = index_links links (insert table name m)

unfoldable pub refresh : Option (List (ℕ × Text)) → Map ℕ Text → Map ℕ Text
unfolding index_links
refresh none m = m
refresh (some links) m = index_links links []

-- NewVRFResolver
unfoldable pub new : Option (List (ℕ × Text)) → Map ℕ Text
unfolding refresh
new links = refresh links []

-- The last lookup of Name, after a refresh.
abbrev pub name_or_table : ℕ → Option Text → Text
name_or_table table none = lit "table:" ++ itoa table
name_or_table table (some n) = n

unfoldable pub name : Option (List (ℕ × Text)) → ℕ → Map ℕ Text → Text × Map ℕ Text
unfolding refresh
name links table m =
    if table == 0 || table == 254
    then (lit "default", m)
    else if table == 255
    then (lit "local", m)
    else elim (lookup table m) [
      | some n ↦ (n, m)
      | none ↦ let m' = refresh links m in (name_or_table table (lookup table m'), m')
    ]

unfoldable pub non_default_names : Option (List (ℕ × Text)) → Map ℕ Text → List Text × Map ℕ Text
unfolding refresh
non_default_names links m = let m' = refresh links m in (map (λ kv. kv.1) m', m')
