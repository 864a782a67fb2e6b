-- ===== src/Aggregator/Txns/Latest.antt =====
-- cmd/trace-aggregator/main.go: the transaction that a trace is attributed to.
use mathlib.Core.List.{Mem, mem-cons_self, mem-cons_of_mem}
use frr_visible.Base.{
  ℕ, ◌+◌, ◌≤◌, ◌≡◌, refl, sym, ap, ◌∙◌, subst, ◌⊎◌, inl, inr, List, [], ◌∷◌, All, true, ◌&&◌, ◌||◌,
  Option, none, some, if◌then◌else◌, ltb, arith, Bool-cases,
}
use frr_visible.Base.Text.{Text, is_empty, text_eq, text_eq_instance}
use frr_visible.Aggregator.{TxnRec}
use frr_visible.Aggregator.Txns.{is_candidate, latest, match_loop, match_txn}

-- A transaction of the lab, if a lab is set, that was committed at most `window` before the start and
-- at most `skew` after it.
pub record Fits (lab : Text) (window skew st : ℕ) (t : TxnRec) : Type 0 where
  pub of_lab : (is_empty lab || text_eq t.lab lab) ≡ true
  pub not_before : st ≤ t.commit_ns + window
  pub not_after : t.commit_ns ≤ st + skew

some_eq : {A : Type 0} {x y : A} → some x ≡ some y → x ≡ y
some_eq e = cc

All-imp :
    {A : Type 0} {P Q : A → Type 0} (xs : List A) → ((x : A) → P x → Q x) → All P xs → All Q xs
All-imp [] f h = tt
All-imp (x ∷ xs) f h = (f x (h.0), All-imp xs f (h.1))

module _ (lab : Text) (window skew st : ℕ) where
  candidate-Fits :
      (t : TxnRec) → is_candidate lab window skew st t ≡ true → Fits lab window skew st t
  unfolding is_candidate
  candidate-Fits t h = record {
    of_lab = ground arith;
    not_before = ground arith;
    not_after = ground arith;
  }

  Fits-candidate :
      (t : TxnRec) → Fits lab window skew st t → is_candidate lab window skew st t ≡ true
  unfolding is_candidate
  Fits-candidate t f = ground (arith, f.of_lab, f.not_before, f.not_after)

  abbrev next : TxnRec → Option TxnRec → Option TxnRec
  next t best = if is_candidate lab window skew st t then latest t best else best

  -- Some held candidate that is at least as late.
  abbrev IsCovered : Option TxnRec → TxnRec → Type 0
  IsCovered held t = (b : TxnRec) × (held ≡ some b) × (t.commit_ns ≤ b.commit_ns)

  latest_covers : (t : TxnRec) (best : Option TxnRec) → IsCovered (latest t best) t
  latest_covers t none = (t, refl, omega arith)
  latest_covers t (some x) = elim (Bool-cases (ltb x.commit_ns t.commit_ns)) [
    | inl later ↦ rw later (t, refl, omega arith)
    | inr earlier ↦ rw earlier (x, refl, ground arith)
  ]

  next_keeps : (t x : TxnRec) → IsCovered (next t (some x)) x
  next_keeps t x =
      elim (Bool-cases (is_candidate lab window skew st t && ltb x.commit_ns t.commit_ns)) [
        | inl later ↦ (t, ground arith, ground arith)
        | inr same ↦ (x, ground arith, omega arith)
      ]

  next-cases :
      (t : TxnRec) (best : Option TxnRec)
      → (next t best ≡ best) ⊎ ((next t best ≡ some t) × (is_candidate lab window skew st t ≡ true))
  next-cases t best = elim (Bool-cases (is_candidate lab window skew st t)) [
    | inr not_one ↦ inl (rw not_one refl)
    | inl one ↦ rw one (latest-cases t best)
  ]
    where
      latest-cases :
          (u : TxnRec) (o : Option TxnRec)
          → (latest u o ≡ o) ⊎ ((latest u o ≡ some u) × (true ≡ true))
      latest-cases u none = inr (refl, refl)
      latest-cases u (some x) = ground arith

  -- What the loop holds is only given up for a later one.
  match_loop_keeps :
      (ts : List TxnRec) (held : Option TxnRec) (t : TxnRec)
      → IsCovered held t
      → IsCovered (match_loop lab window skew st ts held) t
  unfolding match_loop
  match_loop_keeps [] held t c = c
  match_loop_keeps (u ∷ ts) held t c =
      let n = next_keeps u (c.0) in
      match_loop_keeps ts (next u held) t (n.0, ap (next u) (c.1) ∙ n.1, omega (arith, c.2, n.2))

  match_loop_covers :
      (ts : List TxnRec) (best : Option TxnRec)
      → All
          (λ t.
            is_candidate lab window skew st t ≡ true
            → IsCovered (match_loop lab window skew st ts best) t)
          ts
  unfolding match_loop
  match_loop_covers [] best = tt
  match_loop_covers (t ∷ ts) best = (
    λ c. match_loop_keeps ts (next t best) t (rw c (latest_covers t best)),
    match_loop_covers ts (next t best),
  )

  match_loop_found :
      (ts : List TxnRec) (best : Option TxnRec) (b : TxnRec)
      → match_loop lab window skew st ts best ≡ some b
      → (best ≡ some b) ⊎ (Mem b ts × (is_candidate lab window skew st b ≡ true))
  unfolding match_loop
  match_loop_found [] best b e = inl e
  match_loop_found (t ∷ ts) best b e = elim (match_loop_found ts (next t best) b e) [
    | inl held ↦ elim (next-cases t best) [
      | inl old ↦ inl (sym old ∙ held)
      | inr new ↦
          let same : t ≡ b = some_eq (sym (new.0) ∙ held) in
          inr (
            subst (λ x. Mem x (t ∷ ts)) same mem-cons_self,
            subst (λ x. is_candidate lab window skew st x ≡ true) same (new.1),
          )
    ]
    | inr found ↦ inr (mem-cons_of_mem t (found.0), found.1)
  ]

  -- A trace is attributed to one of the known transactions that fit its start, and to none that is older than another that fits;
  -- when there is one that fits, it is attributed.
  pub match_txn_latest :
      (txns : List TxnRec)
      → let result = match_txn lab window skew txns st in
        All
          (λ t.
            Fits lab window skew st t
            → (b : TxnRec) × (result ≡ some b) × (t.commit_ns ≤ b.commit_ns))
          txns
        × ((b : TxnRec) → result ≡ some b → Mem b txns × Fits lab window skew st b)
  unfolding match_txn
  match_txn_latest txns = (
    All-imp txns (λ t c f. c (Fits-candidate t f)) (match_loop_covers txns none),
    λ b e. elim (match_loop_found txns none b e) [
      | inl never ↦ cc
      | inr found ↦ (found.0, candidate-Fits b (found.1))
    ],
  )
