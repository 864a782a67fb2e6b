-- ===== src/Vrf/Laws.antt =====
-- internal/ingest/vrf.go: the name of a table, against the list of VRF devices.
use frr_visible.Base.{
  ℕ, ◌≡◌, refl, ap, ◌∙◌, ◌++◌, ◌||◌, false, List, [], ◌∷◌, Option, none, some, if◌then◌else◌, ◌==◌,
  arith, nat_eq, ◌≢◌,
}
use frr_visible.Base.Text.{Text, lit, itoa}
use frr_visible.Base.Map.{Map, lookup, insert, lookup-insert}
use frr_visible.Vrf.{index_links, refresh, name, name_or_table}

-- The name of the last device of the list that has the table.
unfoldable pub last_name : ℕ → List (ℕ × Text) → Option Text → Option Text
last_name table [] found = found
last_name table ((t, n) ∷ links) found =
    last_name table links (if t == table then some n else found)

lookup-index_links :
    (table : ℕ) (links : List (ℕ × Text)) (m : Map ℕ Text)
    → lookup table (index_links links m) ≡ last_name table links (lookup table m)
unfolding index_links last_name
lookup-index_links table [] m = refl
lookup-index_links table ((t, n) ∷ links) m =
    rw (lookup-index_links table links (insert t n m)) (rw (lookup-insert t table n m))

-- The name of a device, or of a table that has none.
abbrev pub device_or_table : ℕ → Option Text → Text
device_or_table table none = lit "table:" ++ itoa table
device_or_table table (some n) = n

abbrev pub IsVrf : ℕ → Type 0
IsVrf table = (table ≢ 0) × (table ≢ 254) × (table ≢ 255)

named : (table : ℕ) (o : Option Text) → name_or_table table o ≡ device_or_table table o
named table none = refl
named table (some n) = refl

reserved : (table : ℕ) → IsVrf table → (table == 0 || table == 254) ≡ false
reserved table (h0, h1, h2) = ground arith

not_local : (table : ℕ) → IsVrf table → (table == 255) ≡ false
not_local table (h0, h1, h2) = ground arith

name_unknown :
    (links : List (ℕ × Text)) (table : ℕ) (m : Map ℕ Text)
    → IsVrf table
    → lookup table m ≡ none
    → name (some links) table m
      ≡ (name_or_table table (lookup table (index_links links [])), index_links links [])
unfolding name refresh
name_unknown links table m h free = rw (reserved table h, not_local table h, free) refl

-- For a table that is none of the reserved ones 0, 254 and 255 and that the resolver does not know yet,
-- the name is that of the last VRF device with the table in a fresh list of links, and "table:<id>" if
-- there is none. Afterwards the resolver knows exactly the tables of that list, each by its last device.
pub name_fresh :
    (links : List (ℕ × Text)) (table : ℕ) (m : Map ℕ Text)
    → IsVrf table
    → lookup table m ≡ none
    → ((name (some links) table m).0 ≡ device_or_table table (last_name table links none))
      × ((q : ℕ) → lookup q (name (some links) table m).1 ≡ last_name q links none)
unfolding lookup
name_fresh links table m h free =
    let e = name_unknown links table m h free in
    (
      ap (λ r. r.0) e
          ∙ ap (name_or_table table) (lookup-index_links table links [])
          ∙ named table (last_name table links none),
      (λ q. ap (λ r. lookup q r.1) e ∙ lookup-index_links q links []),
    )
