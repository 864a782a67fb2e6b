-- ===== src/Aggregator/Cluster/Groups.antt =====
-- cmd/trace-aggregator/main.go: what the groups of build are, said without the loop.
use frr_visible.Base.{
  ◌↔◌, ◌+◌, ◌≤◌, ◌<◌, subst, ℕ, ◌≡◌, refl, sym, ap, ap₂, ◌∙◌, List, [], ◌∷◌, ◌++◌, All, All-append,
  true, false, arith, append_assoc, append-nil, Bool-cases, inl, inr,
}
use frr_visible.Correlate.{Trace}
use frr_visible.Aggregator.Cluster.{is_near, fits, place, cluster_loop, cluster}

unfoldable pub flatten {ℓ} : {A : Type ℓ} → List (List A) → List A
flatten [] = []
flatten (g ∷ gs) = g ++ flatten gs

module _ {A : Type 0} {x y : A} {xs ys : List A} (e : x ∷ xs ≡ y ∷ ys) where
  head_eq : x ≡ y
  head_eq = cc

  tail_eq : xs ≡ ys
  tail_eq = cc

module _ (window : ℕ) where
  abbrev IsWithin : Trace → Trace → Type 0
  IsWithin first t = t.start ≤ first.start + window

  abbrev IsOutside : List Trace → Trace → Type 0
  IsOutside [] t = Unit {0}
  IsOutside (first ∷ rest) t = first.start + window < t.start

  -- A group has a first trace, and the others start within the window of it.
  abbrev pub IsGroup : List Trace → Type 0
  IsGroup [] = ⊥
  IsGroup (first ∷ rest) = All (IsWithin first) rest

  -- The group after it does not start within the window.
  abbrev pub IsApart : List Trace → List (List Trace) → Type 0
  IsApart g [] = Unit {0}
  IsApart g ([] ∷ gs) = ⊥
  IsApart g ((t ∷ ts) ∷ gs) = IsOutside g t

  within : (first t : Trace) → is_near window first t ≡ true → IsWithin first t
  within first t near = ground arith

  outside : (g : List Trace) (t : Trace) → fits window g t ≡ false → IsOutside g t
  outside [] t far = tt
  outside (first ∷ g) t far = ground arith

  abbrev pub IsClustering : List (List Trace) → Type 0
  IsClustering [] = Unit {0}
  IsClustering (g ∷ gs) = IsGroup g × IsApart g gs × IsClustering gs

  place-IsApart :
      (g h : List Trace) (gs : List (List Trace)) (t : Trace)
      → IsApart g (h ∷ gs)
      → IsApart g (place window (h ∷ gs) t)
  unfolding place
  place-IsApart g [] gs t a = absurd a
  place-IsApart g (x ∷ h) [] t a = elim (Bool-cases (fits window (x ∷ h) t)) [
    | inl near ↦ rw near a
    | inr far ↦ rw far a
  ]
  place-IsApart g (x ∷ h) (k ∷ gs) t a = a

  IsGroup-append :
      (g : List Trace) (t : Trace) → IsGroup g → fits window g t ≡ true → IsGroup (g ++ t ∷ [])
  IsGroup-append [] t i f = absurd i
  IsGroup-append (x ∷ g) t i f = All-append _ g (t ∷ []) i (within x t f, tt)

  place-IsClustering :
      (gs : List (List Trace)) (t : Trace) → IsClustering gs → IsClustering (place window gs t)
  unfolding place
  place-IsClustering [] t c = (tt, tt, tt)
  place-IsClustering (g ∷ []) t c = elim (Bool-cases (fits window g t)) [
    | inl near ↦ rw near (IsGroup-append g t (c.0) near, tt, tt)
    | inr far ↦ rw far (c.0, outside g t far, (tt, tt, tt))
  ]
  place-IsClustering (g ∷ h ∷ gs) t c =
      (c.0, place-IsApart g h gs t (c.1), place-IsClustering (h ∷ gs) t (c.2))

  flatten-place :
      (gs : List (List Trace)) (t : Trace) → flatten (place window gs t) ≡ flatten gs ++ t ∷ []
  unfolding place flatten
  flatten-place [] t = refl
  flatten-place (g ∷ []) t = elim (Bool-cases (fits window g t)) [
    | inl near ↦ rw near (append-nil (g ++ t ∷ []) ∙ ap (λ l. l ++ t ∷ []) (sym (append-nil g)))
    | inr far ↦ rw far (ap (λ l. l ++ t ∷ []) (sym (append-nil g)))
  ]
  flatten-place (g ∷ h ∷ gs) t =
      ap (λ l. g ++ l) (flatten-place (h ∷ gs) t) ∙ sym (append_assoc g (flatten (h ∷ gs)) (t ∷ []))

  cluster_loop-IsClustering :
      (ts : List Trace) (gs : List (List Trace))
      → IsClustering gs
      → IsClustering (cluster_loop window ts gs)
  unfolding cluster_loop
  cluster_loop-IsClustering [] gs c = c
  cluster_loop-IsClustering (t ∷ ts) gs c =
      cluster_loop-IsClustering ts (place window gs t) (place-IsClustering gs t c)

  flatten-cluster_loop :
      (ts : List Trace) (gs : List (List Trace))
      → flatten (cluster_loop window ts gs) ≡ flatten gs ++ ts
  unfolding cluster_loop
  flatten-cluster_loop [] gs = sym (append-nil (flatten gs))
  flatten-cluster_loop (t ∷ ts) gs =
      flatten-cluster_loop ts (place window gs t)
      ∙ ap (λ l. l ++ ts) (flatten-place gs t)
      ∙ append_assoc (flatten gs) (t ∷ []) ts

  not_both : (first x y : Trace) → first.start + window < x.start → IsWithin first y → x ≡ y → ⊥
  not_both first x y far near e = omega (arith, far, near, ap (λ t. t.start) e)

  -- Only the first trace of a group counts.
  same-IsApart :
      (first : Trace) (g h : List Trace) (gs : List (List Trace))
      → IsApart (first ∷ g) gs
      → IsApart (first ∷ h) gs
  same-IsApart first g h [] a = a
  same-IsApart first g h ([] ∷ gs) a = a
  same-IsApart first g h ((t ∷ ts) ∷ gs) a = a

  -- Two ways to go on after the same first trace: both groups end at the same place.
  same_rest :
      (first : Trace) (g h : List Trace) (gs hs : List (List Trace))
      → IsGroup (first ∷ g)
      → IsGroup (first ∷ h)
      → IsApart (first ∷ g) gs
      → IsApart (first ∷ h) hs
      → g ++ flatten gs ≡ h ++ flatten hs
      → (g ≡ h) × (flatten gs ≡ flatten hs)
  unfolding flatten
  same_rest first [] [] gs hs ig ih ag ah e = (refl, e)
  same_rest first [] (y ∷ h) [] hs ig ih ag ah e = cc
  same_rest first [] (y ∷ h) ([] ∷ gs) hs ig ih ag ah e = elim ag [ ]
  same_rest first [] (y ∷ h) ((x ∷ k) ∷ gs) hs ig ih ag ah e =
      absurd (not_both first x y ag (ih.0) (head_eq e))
  same_rest first (x ∷ g) [] gs [] ig ih ag ah e = cc
  same_rest first (x ∷ g) [] gs ([] ∷ hs) ig ih ag ah e = elim ah [ ]
  same_rest first (x ∷ g) [] gs ((y ∷ k) ∷ hs) ig ih ag ah e =
      absurd (not_both first y x ah (ig.0) (sym (head_eq e)))
  same_rest first (x ∷ g) (y ∷ h) gs hs ig ih ag ah e =
      let rest =
        same_rest first g h gs hs (ig.1) (ih.1) (same-IsApart first (x ∷ g) g gs ag)
          (same-IsApart first (y ∷ h) h hs ah) (tail_eq e) in
      (ap₂ (λ a b. a ∷ b) (head_eq e) (rest.0), rest.1)

  -- Only one list of groups over the same traces is a clustering.
  IsClustering-unique :
      (gs hs : List (List Trace))
      → IsClustering gs
      → IsClustering hs
      → flatten gs ≡ flatten hs
      → gs ≡ hs
  unfolding flatten
  IsClustering-unique [] [] cg ch e = refl
  IsClustering-unique [] ([] ∷ hs) cg ch e = absurd (ch.0)
  IsClustering-unique [] ((x ∷ h) ∷ hs) cg ch e = cc
  IsClustering-unique ([] ∷ gs) hs cg ch e = absurd (cg.0)
  IsClustering-unique ((x ∷ g) ∷ gs) [] cg ch e = cc
  IsClustering-unique ((x ∷ g) ∷ gs) ([] ∷ hs) cg ch e = absurd (ch.0)
  IsClustering-unique ((x ∷ g) ∷ gs) ((y ∷ h) ∷ hs) cg ch e =
      let same : x ≡ y = head_eq e in
      let rest =
        same_rest x g h gs hs (cg.0) (subst (λ z. IsGroup (z ∷ h)) (sym same) (ch.0)) (cg.1)
          (subst (λ z. IsApart (z ∷ h) hs) (sym same) (ch.1)) (tail_eq e) in
      ap₂ (λ a b. a ∷ b) (ap₂ (λ a b. a ∷ b) same (rest.0))
        (IsClustering-unique gs hs (cg.2) (ch.2) (rest.1))

  -- build's groups are the only lists of traces that are not empty, whose traces start at most the
  -- window after their first trace, which begin later than the window after the first trace of the
  -- group before, and which in order make up the sorted traces.
  pub cluster_exact :
      (ts : List Trace) (gs : List (List Trace))
      → (cluster window ts ≡ gs) ↔ (IsClustering gs × (flatten gs ≡ ts))
  unfolding cluster flatten
  cluster_exact ts gs = (
    λ e. (
      subst IsClustering e (cluster_loop-IsClustering ts [] tt),
      ap flatten (sym e) ∙ flatten-cluster_loop ts [],
    ),
    λ c.
        IsClustering-unique _ gs (cluster_loop-IsClustering ts [] tt) (c.0)
          (flatten-cluster_loop ts [] ∙ sym (c.1)),
  )
