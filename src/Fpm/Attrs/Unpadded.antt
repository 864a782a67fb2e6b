-- ===== src/Fpm/Attrs/Unpadded.antt =====
-- internal/ingest/fpm.go: forEachAttr on an input whose last attribute lacks its padding.
use frr_visible.Base.{
  ℕ, zero, suc, ◌+◌, ◌%◌, ◌<◌, ◌≡◌, ◌≢◌, refl, sym, ap, ◌∙◌, subst, subst₃, fun_ext, List, [], ◌∷◌,
  ◌++◌, append_assoc, append-nil, Bool, true, false, ltb, length, All, arith, length-append,
}
use frr_visible.Base.Outcome.{Outcome, ret, panic, stuck, ◌>>=◌}
use frr_visible.Base.Bytes.{le16, slice}
use frr_visible.Fpm.Attrs.{attr_loop, for_each_attr, align4}
use frr_visible.Fpm.Attrs.Walk.{
  Attr, IsAttr, zeros, padding, encode_bare, encode, visit, length-bare, le16-bare, kind-bare,
  payload-bare, stop-bare, advance, round, step-bare,
}

caught :
    {S : Type 0} (y : Outcome S) (b : Bool)
    → b ≡ true
    → (elim b [ true ↦ panic | false ↦ y ]) ≡ panic
caught y true h = refl
caught y false h = cc

bind_assoc :
    {A B C : Type 0} (m : Outcome A) (f : A → Outcome B) (g : B → Outcome C)
    → (m >>= f >>= g) ≡ (m >>= λ a. f a >>= g)
bind_assoc (ret a) f g = refl
bind_assoc panic f g = refl
bind_assoc stuck f g = refl

module _ {S : Type 0} (fn : S → ℕ → List ℕ → Outcome S) where
  -- The last attribute, without the padding that its payload lacks.
  loop-bare :
      (f : ℕ) (a : Attr) (s : S)
      → IsAttr a
      → length a.payload % 4 ≢ 0
      → attr_loop fn (suc f) (encode_bare a) s ≡ (fn s a.kind a.payload >>= λ s'. panic)
  loop-bare f a s h odd =
      subst (λ l. attr_loop fn (suc f) l s ≡ (fn s a.kind a.payload >>= λ s'. panic))
        (append-nil (encode_bare a))
        (round fn f (encode_bare a ++ []) s (stop-bare a [])
          ∙ subst₃
              (λ (n k : ℕ) (p : List ℕ).
                (fn s k p >>= advance fn f (encode_bare a ++ []) (align4 n))
                ≡ (fn s a.kind a.payload >>= λ s'. panic))
              (sym (le16-bare a [])) (sym (kind-bare a [] h)) (sym whole)
              (ap (λ g. fn s a.kind a.payload >>= g) (fun_ext (λ s'. caught _ _ too_long))))
    where
      too_long : ltb (length (encode_bare a ++ [])) (align4 (length a.payload + 4)) ≡ true
      too_long = ground (arith, length-append (encode_bare a) [], length-bare a)

      whole : slice 4 (le16 (encode_bare a ++ []) 0) (encode_bare a ++ []) ≡ a.payload
      whole = rw (le16-bare a []) (payload-bare a [])

  loop_unpadded :
      (f : ℕ) (rs : List Attr) (a : Attr) (s : S)
      → All IsAttr rs
      → IsAttr a
      → length a.payload % 4 ≢ 0
      → length (encode rs ++ encode_bare a) < f
      → attr_loop fn f (encode rs ++ encode_bare a) s ≡ (visit fn (rs ++ a ∷ []) s >>= λ s'. panic)
  unfolding encode visit
  loop_unpadded zero rs a s h ha odd hf = absurd (omega arith)
  loop_unpadded (suc f) [] a s h ha odd hf =
      loop-bare f a s ha odd ∙ sym (bind_assoc (fn s a.kind a.payload) ret (λ s'. panic))
  loop_unpadded (suc f) (b ∷ rs) a s h ha odd hf =
      let tail : List ℕ = encode rs ++ encode_bare a in
      ap (λ l. attr_loop fn (suc f) l s)
        (append_assoc (encode_bare b) (zeros (padding b) ++ encode rs) (encode_bare a)
          ∙ ap (λ l. encode_bare b ++ l)
              (append_assoc (zeros (padding b)) (encode rs) (encode_bare a)))
      ∙ step-bare fn f b tail s h.0
      ∙ ap (λ g. fn s b.kind b.payload >>= g)
          (fun_ext (λ s'. loop_unpadded f rs a s' h.1 ha odd (
            omega (
              arith,
              length-append (encode (b ∷ rs)) (encode_bare a),
              length-append (encode_bare b) (zeros (padding b) ++ encode rs),
              length-append (zeros (padding b)) (encode rs),
              length-append (encode rs) (encode_bare a),
              length-bare b,
            ))))
      ∙ sym (bind_assoc (fn s b.kind b.payload) (visit fn (rs ++ a ∷ [])) (λ s'. panic))

  -- An input of attributes with their padding, and a last one whose payload is no multiple of four long
  -- and that has no padding, makes the walk panic once it has called back for all of them, the last
  -- one included, and every callback has returned.
  pub for_each_attr_unpadded :
      (rs : List Attr) (a : Attr) (s s' : S)
      → All IsAttr rs
      → IsAttr a
      → length a.payload % 4 ≢ 0
      → visit fn (rs ++ a ∷ []) s ≡ ret s'
      → for_each_attr fn (encode rs ++ encode_bare a) s ≡ panic
  unfolding for_each_attr
  for_each_attr_unpadded rs a s s' h ha odd done =
      loop_unpadded (suc (length (encode rs ++ encode_bare a))) rs a s h ha odd (omega arith)
      ∙ rw done refl
