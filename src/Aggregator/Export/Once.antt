-- ===== src/Aggregator/Export/Once.antt =====
-- cmd/trace-aggregator/main.go: how often pushZipkin exports a trace id.
use frr_visible.Base.{
  ℕ, ◌≡◌, refl, sym, ◌∙◌, subst, ◌⊎◌, List, [], ◌∷◌, ◌++◌, All, Bool, true, false, Option, none,
  some, if◌then◌else◌, arith, inl, inr,
}
use frr_visible.Base.Text.{Text, text_eq, text_eq_instance}
use frr_visible.Base.Map.{Map, lookup, insert, lookup-insert}
use frr_visible.Aggregator.{DTrace}
use frr_visible.Aggregator.Export.{ZSpan, push_zipkin, trace_id_of, export_unless}

-- A call of pushZipkin: when it is made, whether its post would succeed, and the trace with its start.
pub record Call : Type 0 where
  pub now : ℕ
  pub ok : Bool
  pub trace : DTrace
  pub start : ℕ

abbrev pub AreDifferent : List Text → Type 0
AreDifferent [] = Unit {0}
AreDifferent (x ∷ xs) = All (λ y. text_eq x y ≡ false) xs × AreDifferent xs

-- Ids that are all different, and none of which was exported before.
abbrev IsSent : Map Text Bool → List Text → Type 0
IsSent pushed ids = All (λ id. lookup id pushed ≡ none) ids × AreDifferent ids

abbrev sent : Text → Bool → Option (List ZSpan) → List Text
sent trace_id ok none = []
sent trace_id ok (some zs) = if ok then trace_id ∷ [] else []

abbrev IsOneExport : Text → Bool → Map Text Bool → Map Text Bool × Option (List ZSpan) → Type 0
IsOneExport id ok pushed r =
    (r.0 ≡ pushed) × (sent id ok r.1 ≡ [])
    ⊎ (lookup id pushed ≡ none) × (r.0 ≡ insert id true pushed) × (sent id ok r.1 ≡ id ∷ [])

export_unless-cases :
    (o : Option Bool) (held ok : Bool) (id : Text) (spans : List ZSpan) (pushed : Map Text Bool)
    → lookup id pushed ≡ o
    → IsOneExport id ok pushed (export_unless o held ok id spans pushed)
export_unless-cases (some v) held ok id spans pushed e = inl (refl, refl)
export_unless-cases none true ok id spans pushed e = inl (refl, refl)
export_unless-cases none false true id spans pushed e = inr (e, refl, refl)
export_unless-cases none false false id spans pushed e = inl (refl, refl)

module _ (format : ℕ → Text) (hex_id : Text → ℕ → Text) (loki : Bool) where
  abbrev pushed_by : Call → Map Text Bool → Map Text Bool × Option (List ZSpan)
  pushed_by c = push_zipkin format hex_id loki c.now c.ok c.trace c.start

  -- The ids that the calls post with success, in order.
  unfoldable pub exported : List Call → Map Text Bool → List Text
  exported [] pushed = []
  exported (c ∷ cs) pushed =
      let r = pushed_by c pushed in
      sent (trace_id_of format hex_id c.trace c.start) c.ok (r.1) ++ exported cs (r.0)

  -- A call either changes nothing and sends nothing that counts, or it sends an id that is new.
  pushed_by-cases :
      (c : Call) (pushed : Map Text Bool)
      → IsOneExport (trace_id_of format hex_id c.trace c.start) c.ok pushed (pushed_by c pushed)
  unfolding push_zipkin
  pushed_by-cases c pushed = export_unless-cases _ _ c.ok _ _ pushed refl

  -- What is new behind an insertion is another id, and was new before.
  new_before :
      (id : Text) (pushed : Map Text Bool) (xs : List Text)
      → All (λ i. lookup i (insert id true pushed) ≡ none) xs
      → All (λ i. lookup i pushed ≡ none) xs × All (λ i. text_eq id i ≡ false) xs
  new_before id pushed [] h = (tt, tt)
  new_before id pushed (x ∷ xs) h =
      let rest = new_before id pushed xs (h.1) in
      let one = go x (sym (lookup-insert id x true pushed) ∙ h.0) in
      ((one.0, rest.0), (one.1, rest.1))
    where
      go :
          (i : Text)
          → (if text_eq id i then some true else lookup i pushed) ≡ none
          → (lookup i pushed ≡ none) × (text_eq id i ≡ false)
      go i e = (ground arith, ground arith)

  -- However often the exporter is called, and whatever posts fail, it never posts a trace id again that it has posted with success.
  pub exported-AreDifferent :
      (cs : List Call) (pushed : Map Text Bool)
      → All (λ id. lookup id pushed ≡ none) (exported cs pushed) × AreDifferent (exported cs pushed)
  unfolding exported
  exported-AreDifferent [] pushed = (tt, tt)
  exported-AreDifferent (c ∷ cs) pushed =
      let rest = exported-AreDifferent cs (pushed_by c pushed).0 in
      let id = trace_id_of format hex_id c.trace c.start in
      elim (pushed_by-cases c pushed) [
        | inl same ↦
            rw (same.1) (subst (λ m. IsSent m (exported cs (pushed_by c pushed).0)) (same.0) rest)
        | inr new ↦
            let r : IsSent (insert id true pushed) (exported cs (pushed_by c pushed).0) =
              subst (λ m. IsSent m (exported cs (pushed_by c pushed).0)) (new.1) rest in
            let n = new_before id pushed _ (r.0) in rw (new.2) ((new.0, n.0), (n.1, r.1))
      ]
