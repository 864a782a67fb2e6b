-- ===== src/Aggregator/Txns/Query.antt =====
-- cmd/trace-aggregator/main.go: urlQuery, and how a server reads a query string back.
use frr_visible.Base.{
  ℕ, ◌+◌, ◌-◌, ◌*◌, ◌/◌, ◌%◌, ◌<◌, ◌≡◌, refl, ap, ap₂, ◌∙◌, inl, inr, [], ◌∷◌, All, true,
  if◌then◌else◌, ltb, ◌==◌, arith, Bool-cases,
}
use frr_visible.Base.Text.{Text}
use frr_visible.Base.Bytes.{IsByte}
use frr_visible.Aggregator.Txns.{is_plain, upper_hex, url_query}

abbrev hex_val : ℕ → ℕ
hex_val d = if ltb d 58 then d - 48 else d - 55

-- A percent sign and two digits are a byte, and a plus sign is a space.
unfoldable pub unescape : Text → Text
unescape [] = []
unescape (c ∷ []) = (if c == b'+' then b' ' else c) ∷ []
unescape (c ∷ a ∷ []) = (if c == b'+' then b' ' else c) ∷ unescape (a ∷ [])
unescape (c ∷ a ∷ b ∷ s) =
    let coded = unescape s in
    let plain = unescape (a ∷ b ∷ s) in
    if c == b'%'
    then (hex_val a * 16 + hex_val b) ∷ coded
    else (if c == b'+' then b' ' else c) ∷ plain

unescape-plain : (c : ℕ) (s : Text) → is_plain c ≡ true → unescape (c ∷ s) ≡ c ∷ unescape s
unfolding unescape
unescape-plain c [] h = ap (λ x. x ∷ []) (ground arith)
unescape-plain c (a ∷ []) h = ap (λ x. x ∷ unescape (a ∷ [])) (ground arith)
unescape-plain c (a ∷ b ∷ s) h = ground arith

hex_val-upper_hex : (d : ℕ) → d < 16 → hex_val (upper_hex d) ≡ d
hex_val-upper_hex d h = ground arith

digits : (c : ℕ) → c < 256 → hex_val (upper_hex (c / 16)) * 16 + hex_val (upper_hex (c % 16)) ≡ c
digits c h =
    rw (hex_val-upper_hex (c / 16) (omega (arith, h)), hex_val-upper_hex (c % 16) (omega arith))
      (omega arith)

unescape-coded :
    (a b : ℕ) (s : Text) → unescape (b'%' ∷ a ∷ b ∷ s) ≡ (hex_val a * 16 + hex_val b) ∷ unescape s
unfolding unescape
unescape-coded a b s = refl

-- Reading a query string back gives the selector that urlQuery encoded, for every text of bytes.
pub unescape-url_query : (s : Text) → All IsByte s → unescape (url_query s) ≡ s
unfolding url_query
unescape-url_query [] h = unfold unescape in refl
unescape-url_query (c ∷ s) h = elim (Bool-cases (is_plain c)) [
  | inl plain ↦
      rw plain (unescape-plain c (url_query s) plain ∙ ap (λ r. c ∷ r) (unescape-url_query s (h.1)))
  | inr coded ↦ rw coded (
      unescape-coded _ _ (url_query s)
      ∙ ap₂ (λ x r. x ∷ r) (digits c (h.0)) (unescape-url_query s (h.1)))
]
