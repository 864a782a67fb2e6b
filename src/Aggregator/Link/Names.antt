-- ===== src/Aggregator/Link/Names.antt =====
-- cmd/trace-aggregator/main.go and internal/correlate/correlate.go: linkKey on the roots that the
-- netlink ingester's link events open.
use frr_visible.Base.{
  ◌≡◌, refl, ◌↔◌, ◌⊎◌, inl, inr, [], ◌∷◌, ◌++◌, All-append, true, some, arith, Bool-cases,
}
use frr_visible.Base.Text.{Text, lit, after_index, cut_byte, has_prefix}
use frr_visible.Base.Text.{text_gt}
use frr_visible.Base.Text.Order.{text_gt_asym, text_gt_total}
use frr_visible.Base.Text.Lacks.{Lacks, cut_byte-append, is_empty-append}
use frr_visible.Correlate.{event_root}
use frr_visible.Base.Text.Fields.{IsWord, fields, fields_loop-append, fields_loop_last}
use frr_visible.Aggregator.Link.{pair_key, link_key}

pair_key_comm : (a b : Text) → pair_key a b ≡ pair_key b a
pair_key_comm a b = ground (arith, text_gt_asym a b, text_gt_asym b a, text_gt_total a b)

-- A node's name, as a part of an interface's.
abbrev pub IsNode : Text → Type 0
IsNode a = IsWord a × Lacks b'-' a

-- The root of a link event: its kind is "link-" and a word, and its key the interface.
abbrev pub link_root : Text → Text → Text → Text
link_root w a b = event_root (record {
  bus = lit "netlink";
  kind = lit "link-" ++ w;
  key = a ++ (lit "-" ++ b);
  detail = [];
  root = true;
  ts = 0;
})

link_key-link_root :
    (w a b : Text)
    → IsWord w
    → IsWord a
    → IsWord b
    → Lacks b'-' a
    → link_key (link_root w a b) ≡ pair_key a b
unfolding link_key after_index has_prefix lit fields event_root
link_key-link_root w a b hw ha hb la =
    rw
      (
        fields_loop-append w (a ++ b'-' ∷ b) (lit "link-") hw,
        fields_loop_last (a ++ b'-' ∷ b) [] (All-append _ a (b'-' ∷ b) ha (refl, hb)),
        is_empty-append a b'-' b,
        cut_byte-append b'-' a b la,
      )
      refl

pair_key-cut :
    (a b : Text)
    → Lacks b'-' a
    → Lacks b'-' b
    → (cut_byte b'-' (pair_key a b) ≡ some (a, b'-' ∷ b))
      ⊎ (cut_byte b'-' (pair_key a b) ≡ some (b, b'-' ∷ a))
unfolding lit
pair_key-cut a b la lb = elim (Bool-cases (text_gt a b)) [
  | inl more ↦ inr (rw more (cut_byte-append b'-' b (b'-' ∷ a) lb))
  | inr less ↦ inl (rw less (cut_byte-append b'-' a (b'-' ∷ b) la))
]

cut_same :
    (s t a b c d : Text)
    → cut_byte b'-' s ≡ some (a, b'-' ∷ b)
    → cut_byte b'-' t ≡ some (c, b'-' ∷ d)
    → s ≡ t
    → (a ≡ c) × (b ≡ d)
cut_same s t a b c d p q e = (cc, cc)

swapped {ℓ κ} : {A : Type ℓ} {B : Type κ} → A × B → B × A
swapped (a, b) = (b, a)

pair_key_inj :
    (a b c d : Text)
    → Lacks b'-' a
    → Lacks b'-' b
    → Lacks b'-' c
    → Lacks b'-' d
    → pair_key a b ≡ pair_key c d
    → (a ≡ c) × (b ≡ d) ⊎ (a ≡ d) × (b ≡ c)
pair_key_inj a b c d la lb lc ld e = elim (pair_key-cut a b la lb) [
  | inl p ↦ elim (pair_key-cut c d lc ld) [
    | inl q ↦ inl (cut_same _ _ a b c d p q e)
    | inr q ↦ inr (cut_same _ _ a b d c p q e)
  ]
  | inr p ↦ elim (pair_key-cut c d lc ld) [
    | inl q ↦ inr (swapped (cut_same _ _ b a c d p q e))
    | inr q ↦ inl (swapped (cut_same _ _ b a d c p q e))
  ]
]

-- Between nodes whose names have no dash, linkKey gives two link events the same key exactly when their interfaces join the same
-- two nodes, in either direction.
pub link_key_exact :
    (w v a b c d : Text)
    → IsWord w × IsWord v
    → IsNode a × IsNode b
    → IsNode c × IsNode d
    → (link_key (link_root w a b) ≡ link_key (link_root v c d))
      ↔ ((a ≡ c) × (b ≡ d) ⊎ (a ≡ d) × (b ≡ c))
link_key_exact w v a b c d (hw, hv) (ha, hb) (hc, hd) =
    rw
      (
        link_key-link_root w a b hw (ha.0) (hb.0) (ha.1),
        link_key-link_root v c d hv (hc.0) (hd.0) (hc.1),
      )
      (
        λ e. pair_key_inj a b c d (ha.1) (hb.1) (hc.1) (hd.1) e,
        λ same. elim same [
          | inl straight ↦ rw (straight.0, straight.1) refl
          | inr crossed ↦ rw (crossed.0, crossed.1) (pair_key_comm d c)
        ],
      )
