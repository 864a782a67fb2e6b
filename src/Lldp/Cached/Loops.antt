-- ===== src/Lldp/Cached/Loops.antt =====
-- internal/ingest/lldp.go: what the two loops of a reconcile leave of a neighbor in the cache.
use frr_visible.Base.{
  ◌≡◌, refl, subst, ap, ◌∙◌, inl, inr, [], ◌∷◌, Bool, true, false, ◌&&◌, Option, none, some,
  if◌then◌else◌, Bool-cases,
}
use frr_visible.Base.Text.{Text, is_empty, text_eq, text_eq_iff, text_eq_instance}
use frr_visible.Base.Map.{Map, lookup, insert, lookup-insert, IsDistinct}
use frr_visible.Lldp.{Neighbor, nbr_updates, present_loop, gone_loop, gone_calls}
use frr_visible.Lldp.Cached.{
  is_some, is_none, or_else, after_call, cached, current, after-nbr_updates, cached-append,
  cached-gone_calls,
}

lookup-cons {ℓ} :
    {V : Type ℓ} (i : Text) (v : V) (m : Map Text V) (j : Text)
    → lookup j ((i, v) ∷ m) ≡ (if text_eq i j then some v else lookup j m)
unfolding lookup
lookup-cons i v m j = refl

-- A key that is not in the map behind it.
fresh_at {ℓ} :
    {V : Type ℓ} (i j : Text) (m : Map Text V)
    → lookup i m ≡ none
    → text_eq i j ≡ true
    → lookup j m ≡ none
fresh_at i j m h e = subst (λ x. lookup x m ≡ none) ((text_eq_iff i j).0 e) h

module _ (ifn id : Text) where
  gone_first :
      (i d : Text) (old seen : Map Text Text) (b : Bool)
      → lookup i old ≡ none
      → (if is_some (lookup ifn old) id && is_none (lookup ifn seen)
          then false
          else if text_eq i ifn && (text_eq d id && is_none (lookup i seen))
          then false
          else b)
        ≡ (if is_some (lookup ifn ((i, d) ∷ old)) id && is_none (lookup ifn seen) then false else b)
  gone_first i d old seen b h = elim (Bool-cases (text_eq i ifn)) [
    | inl same ↦
        rw (lookup-cons i d old ifn, same, fresh_at i ifn old h same)
          (ap (λ x. if text_eq d id && is_none (lookup x seen) then false else b)
            ((text_eq_iff i ifn).0 same))
    | inr not_same ↦ rw (lookup-cons i d old ifn, not_same) refl
  ]

  -- The loop over the old neighbors deletes the entry exactly when the interface has gone.
  pub cached-gone_loop :
      (old seen : Map Text Text) (b : Bool)
      → IsDistinct old
      → cached ifn id (gone_loop old seen) b
        ≡ (if is_some (lookup ifn old) id && is_none (lookup ifn seen) then false else b)
  unfolding gone_loop
  cached-gone_loop [] seen b h = unfold cached lookup in refl
  cached-gone_loop ((i, d) ∷ old) seen b h =
      cached-append ifn id (gone_calls i d (lookup i seen)) (gone_loop old seen) b
      ∙ cached-gone_loop old seen _ (h.1)
      ∙ ap (λ c. if is_some (lookup ifn old) id && is_none (lookup ifn seen) then false else c)
          (cached-gone_calls ifn id i d (lookup i seen) b)
      ∙ gone_first i d old seen b (h.0)

  first_blank :
      (i : Text) (nb : Neighbor) (cur : Map Text Neighbor) (b : Bool)
      → is_empty nb.chassis_id ≡ true
      → lookup i cur ≡ none
      → (if is_some (current cur ifn) id then true else b)
        ≡ (if is_some (current ((i, nb) ∷ cur) ifn) id then true else b)
  first_blank i nb cur b blank h = elim (Bool-cases (text_eq i ifn)) [
    | inl same ↦ rw (lookup-cons i nb cur ifn, same, fresh_at i ifn cur h same, blank) refl
    | inr not_same ↦ rw (lookup-cons i nb cur ifn, not_same) refl
  ]

  first_there :
      (i : Text) (nb : Neighbor) (cur : Map Text Neighbor) (b : Bool)
      → is_empty nb.chassis_id ≡ false
      → lookup i cur ≡ none
      → (if is_some (current cur ifn) id then true else after_call ifn id (nbr_updates i nb) b)
        ≡ (if is_some (current ((i, nb) ∷ cur) ifn) id then true else b)
  first_there i nb cur b there h = elim (Bool-cases (text_eq i ifn)) [
    | inl same ↦
        rw
          (
            after-nbr_updates ifn id i nb b,
            lookup-cons i nb cur ifn,
            same,
            fresh_at i ifn cur h same,
            there,
          )
          refl
    | inr not_same ↦ rw (after-nbr_updates ifn id i nb b, lookup-cons i nb cur ifn, not_same) refl
  ]

  -- The loop over the current neighbors writes the entry exactly when it is in the snapshot.
  pub cached-present_loop :
      (cur : Map Text Neighbor) (seen : Map Text Text) (b : Bool)
      → IsDistinct cur
      → cached ifn id (present_loop cur seen).1 b
        ≡ (if is_some (current cur ifn) id then true else b)
  unfolding present_loop cached
  cached-present_loop [] seen b h = unfold lookup in refl
  cached-present_loop ((i, nb) ∷ cur) seen b h = elim (Bool-cases (is_empty nb.chassis_id)) [
    | inl blank ↦
        rw blank (cached-present_loop cur seen b (h.1) ∙ first_blank i nb cur b blank (h.0))
    | inr there ↦ rw there (
        cached-present_loop cur (insert i nb.chassis_id seen) _ (h.1)
        ∙ first_there i nb cur b there (h.0))
  ]

module _ (ifn : Text) where
  seen_blank :
      (i : Text) (nb : Neighbor) (cur : Map Text Neighbor) (o : Option Text)
      → is_empty nb.chassis_id ≡ true
      → lookup i cur ≡ none
      → or_else (current cur ifn) o ≡ or_else (current ((i, nb) ∷ cur) ifn) o
  seen_blank i nb cur o blank h = elim (Bool-cases (text_eq i ifn)) [
    | inl same ↦ rw (lookup-cons i nb cur ifn, same, fresh_at i ifn cur h same, blank) refl
    | inr not_same ↦ rw (lookup-cons i nb cur ifn, not_same) refl
  ]

  seen_there :
      (i : Text) (nb : Neighbor) (cur : Map Text Neighbor) (seen : Map Text Text)
      → is_empty nb.chassis_id ≡ false
      → lookup i cur ≡ none
      → or_else (current cur ifn) (lookup ifn (insert i nb.chassis_id seen))
        ≡ or_else (current ((i, nb) ∷ cur) ifn) (lookup ifn seen)
  seen_there i nb cur seen there h = elim (Bool-cases (text_eq i ifn)) [
    | inl same ↦
        rw
          (
            lookup-insert i ifn nb.chassis_id seen,
            lookup-cons i nb cur ifn,
            same,
            fresh_at i ifn cur h same,
            there,
          )
          refl
    | inr not_same ↦
        rw (lookup-insert i ifn nb.chassis_id seen, lookup-cons i nb cur ifn, not_same) refl
  ]

pub seen-present_loop :
    (ifn : Text) (cur : Map Text Neighbor) (seen : Map Text Text)
    → IsDistinct cur
    → lookup ifn (present_loop cur seen).0 ≡ or_else (current cur ifn) (lookup ifn seen)
unfolding present_loop
seen-present_loop ifn [] seen h = unfold lookup in refl
seen-present_loop ifn ((i, nb) ∷ cur) seen h = elim (Bool-cases (is_empty nb.chassis_id)) [
  | inl blank ↦
      rw blank (
        seen-present_loop ifn cur seen (h.1)
        ∙ seen_blank ifn i nb cur (lookup ifn seen) blank (h.0))
  | inr there ↦ rw there (
      seen-present_loop ifn cur (insert i nb.chassis_id seen) (h.1)
      ∙ seen_there ifn i nb cur seen there (h.0))
]
