-- ===== src/Aggregator/Link.antt =====
-- cmd/trace-aggregator/main.go: linkKey. A root is text in ASCII, which strings.Fields splits at the
-- bytes 9 to 13 and 32.
pub mod Names
use frr_visible.Base.{List, [], ◌∷◌, ◌++◌, Option, none, some, if◌then◌else◌}
use frr_visible.Base.Text.{Text, text_gt, lit, after_index, cut_byte}
use frr_visible.Base.Text.Fields.{fields}

abbrev pub pair_key : Text → Text → Text
pair_key a b = if text_gt a b then b ++ (lit "--" ++ a) else a ++ (lit "--" ++ b)

-- strings.SplitN(iface, "-", 2)
abbrev pub iface_key : Option (Text × Text) → Text
iface_key none = []
iface_key (some (a, b)) = pair_key a b

abbrev pub second_word : List Text → Text
second_word [] = []
second_word (w ∷ []) = []
second_word (w ∷ iface ∷ ws) = iface_key (cut_byte b'-' iface)

unfoldable pub link_key : Text → Text
unfolding fields
link_key root = elim (after_index (lit "link-") root) [
  | none ↦ []
  | some s ↦ second_word (fields (lit "link-" ++ s))
]
