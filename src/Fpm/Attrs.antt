-- ===== src/Fpm/Attrs.antt =====
-- internal/ingest/fpm.go: forEachAttr, the MPLS label stacks, and the label list as text.
pub mod Walk
pub mod Unpadded
pub mod Labels
use frr_visible.Base.{
  ℕ, zero, suc, ◌+◌, ◌-◌, ◌*◌, ◌/◌, ◌%◌, List, [], ◌∷◌, ◌++◌, Bool, true, false, ◌||◌,
  if◌then◌else◌, ltb, ◌==◌, length, drop,
}
use frr_visible.Base.Outcome.{Outcome, ret, panic, stuck, ◌>>=◌}
use frr_visible.Base.Bytes.{le16, be32, slice, has_bit}
use frr_visible.Base.Text.{Text, lit, itoa}

-- (n + 3) &^ 3
abbrev pub align4 : ℕ → ℕ
align4 n = (n + 3) / 4 * 4

-- The loop's exits: fewer than four bytes, or a length field that does not fit.
unfoldable pub attr_stop : List ℕ → Bool
attr_stop attrs =
    ltb (length attrs) 4 || (ltb (le16 attrs 0) 4 || ltb (length attrs) (le16 attrs 0))

module _ {S : Type 0} (fn : S → ℕ → List ℕ → Outcome S) where
  -- `attrs = attrs[align4(alen):]` panics where the padding of the last attribute is missing.
  unfoldable pub attr_loop : ℕ → List ℕ → S → Outcome S
  attr_loop zero attrs s = stuck
  attr_loop (suc f) attrs s = elim (attr_stop attrs) [
    | true ↦ ret s
    | false ↦ fn s (le16 attrs 2 % 16384) (slice 4 (le16 attrs 0) attrs) >>= λ s'.
        elim (ltb (length attrs) (align4 (le16 attrs 0))) [
          | true ↦ panic
          | false ↦ attr_loop f (drop (align4 (le16 attrs 0)) attrs) s'
        ]
  ]

  -- Each round takes four bytes at least.
  unfoldable pub for_each_attr : List ℕ → S → Outcome S
  unfolding attr_loop
  for_each_attr attrs s = attr_loop (suc (length attrs)) attrs s

-- The loop ends with the bottom-of-stack entry, or where fewer than four bytes are left.
unfoldable pub decode_mpls_stack : List ℕ → List ℕ
decode_mpls_stack (a ∷ b ∷ c ∷ d ∷ p) =
    let entry = be32 (a ∷ b ∷ c ∷ d ∷ []) 0 in
    let rest = decode_mpls_stack p in
    if has_bit 256 entry then (entry / 4096) ∷ [] else (entry / 4096) ∷ rest
decode_mpls_stack _ = []

-- MPLS_IPTUNNEL_DST
abbrev pub mpls_iptunnel_dst : ℕ
mpls_iptunnel_dst = 1

unfoldable pub parse_mpls_encap : List ℕ → Outcome (List ℕ)
unfolding for_each_attr decode_mpls_stack
parse_mpls_encap p =
    for_each_attr
      (λ labels t v. if t == mpls_iptunnel_dst then ret (decode_mpls_stack v) else ret labels) p []

csv_rest : List ℕ → Text
csv_rest [] = []
csv_rest (x ∷ xs) = lit "," ++ (itoa x ++ csv_rest xs)

unfoldable pub labels_csv : List ℕ → Text
unfolding csv_rest
labels_csv [] = []
labels_csv (x ∷ xs) = itoa x ++ csv_rest xs
