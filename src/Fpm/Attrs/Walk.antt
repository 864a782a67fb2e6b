-- ===== src/Fpm/Attrs/Walk.antt =====
-- internal/ingest/fpm.go: forEachAttr against the netlink attribute format.
use frr_visible.Base.{
  ℕ, zero, suc, ◌+◌, ◌-◌, ◌*◌, ◌/◌, ◌%◌, ◌<◌, ◌≡◌, ◌≢◌, refl, sym, ap, ◌∙◌, subst, subst₃, fun_ext,
  List, [], ◌∷◌, ◌++◌, append_assoc, Bool, true, false, ltb, length, take, drop, All, arith,
  length-append, take-length-append, drop-length-append, Bool-cases, inl, inr, length-drop,
}
use frr_visible.Base.Outcome.{Outcome, ret, panic, stuck, ◌>>=◌, bind-ne-stuck}
use frr_visible.Base.Bytes.{le16, slice}
use frr_visible.Fpm.Attrs.{attr_stop, attr_loop, for_each_attr, align4}

-- An attribute on the wire: `flags` are NLA_F_NESTED and NLA_F_NET_BYTEORDER, the top bits of the type.
pub record Attr : Type 0 where
  pub kind : ℕ
  pub flags : ℕ
  pub payload : List ℕ

abbrev pub IsAttr : Attr → Type 0
IsAttr a = (a.kind < 16384) × (a.flags < 4) × (length a.payload + 4 < 65536)

abbrev pub zeros : ℕ → List ℕ
zeros zero = []
zeros (suc n) = 0 ∷ zeros n

length-zeros : (n : ℕ) → length (zeros n) ≡ n
length-zeros zero = refl
length-zeros (suc n) = ap suc (length-zeros n)

-- The attribute up to its padding.
unfoldable pub encode_bare : Attr → List ℕ
encode_bare a =
    let len = length a.payload + 4 in
    let t = a.kind + a.flags * 16384 in
    (len % 256) ∷ (len / 256) ∷ (t % 256) ∷ (t / 256) ∷ a.payload

abbrev pub padding : Attr → ℕ
padding a = align4 (length a.payload + 4) - (length a.payload + 4)

unfoldable pub encode : List Attr → List ℕ
encode [] = []
encode (a ∷ rs) = encode_bare a ++ (zeros (padding a) ++ encode rs)

-- The callback on each attribute in turn.
unfoldable pub visit : {S : Type 0} → (S → ℕ → List ℕ → Outcome S) → List Attr → S → Outcome S
visit fn [] s = ret s
visit fn (a ∷ rs) s = fn s a.kind a.payload >>= λ s'. visit fn rs s'

pub length-bare : (a : Attr) → length (encode_bare a) ≡ length a.payload + 4
unfolding encode_bare
length-bare a = omega arith

pub le16-bare : (a : Attr) (tail : List ℕ) → le16 (encode_bare a ++ tail) 0 ≡ length a.payload + 4
unfolding encode_bare
le16-bare a tail = omega arith

pub kind-bare :
    (a : Attr) (tail : List ℕ) → IsAttr a → le16 (encode_bare a ++ tail) 2 % 16384 ≡ a.kind
unfolding encode_bare
kind-bare a tail h = omega arith

pub payload-bare :
    (a : Attr) (tail : List ℕ) → slice 4 (length a.payload + 4) (encode_bare a ++ tail) ≡ a.payload
unfolding encode_bare
payload-bare a tail =
    subst (λ n. take n (a.payload ++ tail) ≡ a.payload) (omega arith)
      (take-length-append a.payload tail)

pub stop-bare : (a : Attr) (tail : List ℕ) → attr_stop (encode_bare a ++ tail) ≡ false
unfolding attr_stop
stop-bare a tail =
    ground (arith, le16-bare a tail, length-append (encode_bare a) tail, length-bare a)

drop-two : (n : ℕ) (xs ys zs : List ℕ) → n ≡ length xs + length ys → drop n (xs ++ (ys ++ zs)) ≡ zs
drop-two n xs ys zs e =
    subst (λ m. drop m (xs ++ (ys ++ zs)) ≡ zs) (omega (arith, length-append xs ys))
      (subst (λ l. drop (length (xs ++ ys)) l ≡ zs) (append_assoc xs ys zs)
        (drop-length-append (xs ++ ys) zs))

-- The end of a round of the loop: the missing padding, or the next round.
abbrev pub advance : {S : Type 0} → (S → ℕ → List ℕ → Outcome S) → ℕ → List ℕ → ℕ → S → Outcome S
advance fn f attrs n s = elim (ltb (length attrs) n) [
  | true ↦ panic
  | false ↦ attr_loop fn f (drop n attrs) s
]

pick : {S : Type 0} (x y : Outcome S) (b : Bool) → b ≡ false → (elim b [ true ↦ x | false ↦ y ]) ≡ y
pick x y true h = cc
pick x y false h = refl

bounded :
    {S : Type 0} {y : Outcome S} (b : Bool)
    → y ≢ stuck
    → (elim b [ true ↦ panic | false ↦ y ]) ≢ stuck
bounded true h = λ e. cc
bounded false h = h

module _ {S : Type 0} (fn : S → ℕ → List ℕ → Outcome S) where
  pub round :
      (f : ℕ) (attrs : List ℕ) (s : S)
      → attr_stop attrs ≡ false
      → attr_loop fn (suc f) attrs s ≡ (
          fn s (le16 attrs 2 % 16384) (slice 4 (le16 attrs 0) attrs)
          >>= advance fn f attrs (align4 (le16 attrs 0)))
  unfolding attr_loop
  round f attrs s h = rw (h, attr_loop)

  advance_fits :
      (f : ℕ) (attrs rest : List ℕ) (n : ℕ)
      → ltb (length attrs) n ≡ false
      → drop n attrs ≡ rest
      → (s : S) → advance fn f attrs n s ≡ attr_loop fn f rest s
  advance_fits f attrs rest n h e s =
      pick _ _ (ltb (length attrs) n) h ∙ ap (λ r. attr_loop fn f r s) e

  pub step-bare :
      (f : ℕ) (a : Attr) (rest : List ℕ) (s : S)
      → IsAttr a
      → attr_loop fn (suc f) (encode_bare a ++ (zeros (padding a) ++ rest)) s
        ≡ (fn s a.kind a.payload >>= attr_loop fn f rest)
  step-bare f a rest s h =
      let tail : List ℕ = zeros (padding a) ++ rest in
      round f (encode_bare a ++ tail) s (stop-bare a tail)
      ∙ subst₃
          (λ (n k : ℕ) (p : List ℕ).
            (fn s k p >>= advance fn f (encode_bare a ++ tail) (align4 n))
            ≡ (fn s a.kind a.payload >>= attr_loop fn f rest))
          (sym (le16-bare a tail)) (sym (kind-bare a tail h)) (sym (whole tail))
          (ap (λ g. fn s a.kind a.payload >>= g)
            (fun_ext (
              advance_fits f (encode_bare a ++ tail) rest (align4 (length a.payload + 4)) fits (
                drop-two (align4 (length a.payload + 4)) (encode_bare a) (zeros (padding a)) rest
                  (omega (arith, length-bare a, length-zeros (padding a)))))))
    where
      whole :
          (tail : List ℕ)
          → slice 4 (le16 (encode_bare a ++ tail) 0) (encode_bare a ++ tail) ≡ a.payload
      whole tail = rw (le16-bare a tail) (payload-bare a tail)

      fits :
          ltb
            (length (encode_bare a ++ (zeros (padding a) ++ rest)))
            (align4 (length a.payload + 4))
          ≡ false
      fits = ground (
        arith,
        length-append (encode_bare a) (zeros (padding a) ++ rest),
        length-append (zeros (padding a)) rest,
        length-zeros (padding a),
        length-bare a,
      )

  loop-encode :
      (f : ℕ) (rs : List Attr) (s : S)
      → All IsAttr rs
      → length (encode rs) < f
      → attr_loop fn f (encode rs) s ≡ visit fn rs s
  unfolding encode visit
  loop-encode zero rs s h hf = absurd (omega arith)
  loop-encode (suc f) [] s h hf = unfold attr_loop attr_stop in refl
  loop-encode (suc f) (a ∷ rs) s h hf =
      step-bare f a (encode rs) s h.0
      ∙ ap (λ g. fn s a.kind a.payload >>= g)
          (fun_ext (λ s'. loop-encode f rs s' h.1 (
            omega (
              arith,
              length-append (encode_bare a) (zeros (padding a) ++ encode rs),
              length-append (zeros (padding a)) (encode rs),
              length-bare a,
            ))))

  -- On the wire form of any list of attributes, whatever their flag bits, with types below 2^14 and
  -- payloads that a 16-bit length can count, the walk calls back with the type and payload of each
  -- attribute, in order, and with nothing else.
  pub for_each_attr-encode :
      (rs : List Attr) (s : S) → All IsAttr rs → for_each_attr fn (encode rs) s ≡ visit fn rs s
  unfolding for_each_attr
  for_each_attr-encode rs s h = loop-encode (suc (length (encode rs))) rs s h (omega arith)

  loop-ne-stuck :
      (f : ℕ) (attrs : List ℕ) (s : S)
      → ((x : S) (k : ℕ) (p : List ℕ) → fn x k p ≢ stuck)
      → length attrs < f
      → attr_loop fn f attrs s ≢ stuck
  loop-ne-stuck zero attrs s hfn hf = absurd (omega arith)
  loop-ne-stuck (suc f) attrs s hfn hf = elim (Bool-cases (attr_stop attrs)) [
    | inl done ↦ unfold attr_loop in rw (done, attr_loop) (λ e. cc)
    | inr more ↦ rw (round f attrs s more) (
        bind-ne-stuck _ (advance fn f attrs (align4 (le16 attrs 0))) (hfn _ _ _) (λ s'.
          bounded (ltb (length attrs) (align4 (le16 attrs 0)))
            (loop-ne-stuck f (drop (align4 (le16 attrs 0)) attrs) s' hfn (shrinks more))))
  ]
    where
      shrinks : attr_stop attrs ≡ false → length (drop (align4 (le16 attrs 0)) attrs) < f
      shrinks more = unfold attr_stop in ground (arith, length-drop (align4 (le16 attrs 0)) attrs)

  -- On every input the walk ends, with a result or with a panic, if each callback does.
  pub for_each_attr-ne-stuck :
      (attrs : List ℕ) (s : S)
      → ((x : S) (k : ℕ) (p : List ℕ) → fn x k p ≢ stuck)
      → for_each_attr fn attrs s ≢ stuck
  unfolding for_each_attr
  for_each_attr-ne-stuck attrs s hfn = loop-ne-stuck (suc (length attrs)) attrs s hfn (omega arith)
