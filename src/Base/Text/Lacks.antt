-- ===== src/Base/Text/Lacks.antt =====
-- Texts that a byte does not occur in: numerals, and what IndexByte and Split find behind such a text.
use Prim.Native.Nat.{ℕ, zero, suc, ◌+◌, ◌/◌, ◌%◌, ◌<◌, ◌≤◌}
use mathlib.Core.Path.{◌≡◌, refl, sym, ap, ◌∙◌}
use mathlib.Core.Logic.{inl, inr}
use mathlib.Core.Bool.{true, false}
use mathlib.Core.Option.{some}
use mathlib.Core.List.{List, [], ◌∷◌, ◌++◌, append_assoc, append-nil}
use native.Mathlib.Omega.{arith}
use frr_visible.Base.Tests.{ltb, ◌==◌, Bool-cases, ==_iff}
use frr_visible.Base.Lists.{All, drop-length-append}
use frr_visible.Base.Text.{
  Text, is_empty, itoa, itoa_loop, cut_byte, split, split_loop, join, has_prefix, after_index,
}

abbrev pub Lacks : ℕ → Text → Type 0
Lacks b = All (λ c. (c == b) ≡ false)

abbrev pub IsDigit : ℕ → Type 0
IsDigit c = (48 ≤ c) × (c ≤ 57)

itoa_loop-IsDigit : (f n : ℕ) (rest : Text) → All IsDigit rest → All IsDigit (itoa_loop f n rest)
unfolding itoa_loop
itoa_loop-IsDigit zero n rest l = l
itoa_loop-IsDigit (suc f) n rest l = elim (Bool-cases (ltb n 10)) [
  | inl small ↦ rw small ((ground arith, ground arith), l)
  | inr large ↦
      rw large
        (itoa_loop-IsDigit f (n / 10) ((48 + n % 10) ∷ rest) ((ground arith, ground arith), l))
]

pub itoa-IsDigit : (n : ℕ) → All IsDigit (itoa n)
unfolding itoa
itoa-IsDigit n = itoa_loop-IsDigit (suc n) n [] tt

itoa_loop_present : (f n c : ℕ) (rest : Text) → is_empty (itoa_loop f n (c ∷ rest)) ≡ false
unfolding itoa_loop
itoa_loop_present zero n c rest = refl
itoa_loop_present (suc f) n c rest =
    ground (arith, itoa_loop_present f (n / 10) (48 + n % 10) (c ∷ rest))

pub itoa_present : (n : ℕ) → is_empty (itoa n) ≡ false
unfolding itoa itoa_loop
itoa_present n = ground (arith, itoa_loop_present n (n / 10) (48 + n % 10) [])

IsDigit-Lacks : (b : ℕ) (s : Text) → b < 48 → All IsDigit s → Lacks b s
IsDigit-Lacks b [] h d = tt
IsDigit-Lacks b (c ∷ s) h d = (ground (arith, d.0), IsDigit-Lacks b s h d.1)

-- A numeral has no byte below '0'.
pub itoa-Lacks : (b n : ℕ) → b < 48 → Lacks b (itoa n)
itoa-Lacks b n h = IsDigit-Lacks b (itoa n) h (itoa-IsDigit n)

pub cut_byte-append :
    (b : ℕ) (xs ys : Text) → Lacks b xs → cut_byte b (xs ++ b ∷ ys) ≡ some (xs, ys)
unfolding cut_byte
cut_byte-append b [] ys h = ground (arith, ==_iff b b)
cut_byte-append b (x ∷ xs) ys h = ground (arith, cut_byte-append b xs ys h.1)

split_loop-append :
    (b : ℕ) (xs ys acc : Text)
    → Lacks b xs
    → split_loop b (xs ++ b ∷ ys) acc ≡ (acc ++ xs) ∷ split_loop b ys []
unfolding split_loop
split_loop-append b [] ys acc h =
    rw ((==_iff b b).1 refl, split_loop) (ap (λ l. l ∷ split_loop b ys []) (sym (append-nil acc)))
split_loop-append b (x ∷ xs) ys acc h =
    rw (h.0, split_loop)
      (split_loop-append b xs ys (acc ++ x ∷ []) h.1
        ∙ ap (λ l. l ∷ split_loop b ys []) (append_assoc acc (x ∷ []) xs))

split_loop-last : (b : ℕ) (xs acc : Text) → Lacks b xs → split_loop b xs acc ≡ (acc ++ xs) ∷ []
unfolding split_loop
split_loop-last b [] acc h = ap (λ l. l ∷ []) (sym (append-nil acc))
split_loop-last b (x ∷ xs) acc h =
    rw (h.0, split_loop)
      (split_loop-last b xs (acc ++ x ∷ []) h.1 ∙ ap (λ l. l ∷ []) (append_assoc acc (x ∷ []) xs))

-- The first line of a text, and the others.
pub split-lines : (b : ℕ) (xs ys : Text) → Lacks b xs → split (xs ++ b ∷ ys) b ≡ xs ∷ split ys b
unfolding split
split-lines b xs ys h = split_loop-append b xs ys [] h

-- Split undoes Join on parts that the separator does not occur in.
pub split-join :
    (b : ℕ) (x : Text) (xs : List Text)
    → All (Lacks b) (x ∷ xs)
    → split (join (x ∷ xs) (b ∷ [])) b ≡ x ∷ xs
unfolding split join
split-join b x [] h = split_loop-last b x [] h.0
split-join b x (y ∷ r) h =
    split_loop-append b x (join (y ∷ r) (b ∷ [])) [] h.0 ∙ ap (λ l. x ∷ l) (split-join b y r h.1)

has_prefix-append : (k s : Text) → has_prefix (k ++ s) k ≡ true
unfolding has_prefix
has_prefix-append [] s = refl
has_prefix-append (c ∷ k) s = ground (arith, ==_iff c c, has_prefix-append k s)

-- A text is found at its front.
pub after_index-append : (c : ℕ) (k s : Text) → after_index (c ∷ k) ((c ∷ k) ++ s) ≡ some s
unfolding after_index
after_index-append c k s =
    rw (has_prefix-append k s, (==_iff c c).1 refl) (ap some (drop-length-append k s))

pub is_empty-append : (xs : Text) (c : ℕ) (ys : Text) → is_empty (xs ++ c ∷ ys) ≡ false
is_empty-append [] c ys = refl
is_empty-append (x ∷ xs) c ys = refl
