-- ===== src/Bmp/Wire/Distinguishers.antt =====
-- internal/ingest/bmp.go: formatRD on the wire form of a route distinguisher (RFC 4364, section 4.2).
use frr_visible.Base.{
  ℕ, ◌+◌, ◌*◌, ◌/◌, ◌%◌, ◌<◌, ◌≡◌, refl, sym, ap, ◌∙◌, ◌↔◌, List, [], ◌∷◌, ◌++◌, Option, some, map,
  All, All-append, arith,
}
use frr_visible.Base.Bytes.{IsByte}
use frr_visible.Base.Text.{Text, lit, itoa, cut_byte, split, join}
use frr_visible.Base.Text.Lacks.{
  Lacks, IsDigit, itoa-IsDigit, itoa-Lacks, cut_byte-append, split-join,
}
use frr_visible.Base.Text.Numeral.{parse_uint, parse_uint-itoa}
use frr_visible.Net.{ip_string, to4, dotted}
use frr_visible.Bmp.Wire.{format_rd}

-- Type 0, type 1 and type 2: an administrator and a number that it assigns.
pub data Distinguisher : Type 0 where
  as2 : (asn num : ℕ) → Distinguisher
  address : (a b c d num : ℕ) → Distinguisher
  as4 : (asn num : ℕ) → Distinguisher

unfoldable pub encode_rd : Distinguisher → List ℕ
encode_rd (as2 asn num) =
    0
    ∷ 0
    ∷ asn / 256
    ∷ asn % 256
    ∷ num / 16777216
    ∷ num / 65536 % 256
    ∷ num / 256 % 256
    ∷ num % 256
    ∷ []
encode_rd (address a b c d num) = 0 ∷ 1 ∷ a ∷ b ∷ c ∷ d ∷ num / 256 ∷ num % 256 ∷ []
encode_rd (as4 asn num) =
    0
    ∷ 2
    ∷ asn / 16777216
    ∷ asn / 65536 % 256
    ∷ asn / 256 % 256
    ∷ asn % 256
    ∷ num / 256
    ∷ num % 256
    ∷ []

abbrev pub IsDistinguisher : Distinguisher → Type 0
IsDistinguisher (as2 asn num) = (asn < 65536) × (num < 4294967296)
IsDistinguisher (address a b c d num) = All IsByte (a ∷ b ∷ c ∷ d ∷ []) × (num < 65536)
IsDistinguisher (as4 asn num) = (asn < 4294967296) × (num < 65536)

-- The administrator's number, or the bytes of its address.
abbrev pub admin_of : Distinguisher → List ℕ
admin_of (as2 asn num) = asn ∷ []
admin_of (address a b c d num) = a ∷ b ∷ c ∷ d ∷ []
admin_of (as4 asn num) = asn ∷ []

abbrev pub number_of : Distinguisher → ℕ
number_of (as2 asn num) = num
number_of (address a b c d num) = num
number_of (as4 asn num) = num

unfoldable admin_text : List ℕ → Text
admin_text xs = join (map itoa xs) (b'.' ∷ [])

abbrev rd_text : Distinguisher → Text
rd_text r = admin_text (admin_of r) ++ b':' ∷ itoa (number_of r)

format_rd-encode : (r : Distinguisher) → IsDistinguisher r → format_rd (encode_rd r) ≡ rd_text r
unfolding format_rd encode_rd admin_text join lit ip_string to4 dotted
format_rd-encode (as2 asn num) h =
    let ha : asn / 256 * 256 + asn % 256 ≡ asn = omega arith in
    let hn : num / 16777216 * 16777216
          + num / 65536 % 256 * 65536
          + num / 256 % 256 * 256
          + num % 256
        ≡ num =
      omega arith in
    rw (ha, hn) refl
format_rd-encode (address a b c d num) h =
    let hn : num / 256 * 256 + num % 256 ≡ num = omega arith in rw hn refl
format_rd-encode (as4 asn num) h =
    let ha : asn / 16777216 * 16777216
          + asn / 65536 % 256 * 65536
          + asn / 256 % 256 * 256
          + asn % 256
        ≡ asn =
      omega arith in
    let hn : num / 256 * 256 + num % 256 ≡ num = omega arith in rw (ha, hn) refl

abbrev IsWord32 : ℕ → Type 0
IsWord32 n = n < 4294967296

itoa_injective : (m n : ℕ) → IsWord32 m → IsWord32 n → itoa m ≡ itoa n → m ≡ n
itoa_injective m n hm hn e =
    let same : some m ≡ some n =
      sym (parse_uint-itoa m (omega (arith, hm)))
      ∙ ap parse_uint e
      ∙ parse_uint-itoa n (omega (arith, hn)) in
    cc

itoas_injective :
    (xs ys : List ℕ) → All IsWord32 xs → All IsWord32 ys → map itoa xs ≡ map itoa ys → xs ≡ ys
itoas_injective [] [] hx hy e = refl
itoas_injective [] (y ∷ ys) hx hy e = cc
itoas_injective (x ∷ xs) [] hx hy e = cc
itoas_injective (x ∷ xs) (y ∷ ys) hx hy e =
    let head : itoa x ≡ itoa y = cc in
    let tail : map itoa xs ≡ map itoa ys = cc in
    let ex = itoa_injective x y hx.0 hy.0 head in
    let exs = itoas_injective xs ys hx.1 hy.1 tail in cc

-- The text of an administrator has no colon, and tells the administrator.
IsDigit-Lacks_colon : (s : Text) → All IsDigit s → Lacks b':' s
IsDigit-Lacks_colon [] h = tt
IsDigit-Lacks_colon (c ∷ s) h = (ground (arith, h.0), IsDigit-Lacks_colon s h.1)

admin_text-Lacks : (xs : List ℕ) → Lacks b':' (admin_text xs)
unfolding admin_text join
admin_text-Lacks [] = tt
admin_text-Lacks (x ∷ []) = IsDigit-Lacks_colon (itoa x) (itoa-IsDigit x)
admin_text-Lacks (x ∷ y ∷ r) =
    All-append _ (itoa x) (b'.' ∷ admin_text (y ∷ r))
      (IsDigit-Lacks_colon (itoa x) (itoa-IsDigit x)) (refl, admin_text-Lacks (y ∷ r))

itoas-Lacks : (xs : List ℕ) → All (Lacks b'.') (map itoa xs)
itoas-Lacks [] = tt
itoas-Lacks (x ∷ xs) = (itoa-Lacks b'.' x (omega arith), itoas-Lacks xs)

admin_text_injective :
    (x y : ℕ) (xs ys : List ℕ)
    → All IsWord32 (x ∷ xs)
    → All IsWord32 (y ∷ ys)
    → admin_text (x ∷ xs) ≡ admin_text (y ∷ ys)
    → x ∷ xs ≡ y ∷ ys
unfolding admin_text
admin_text_injective x y xs ys hx hy e = itoas_injective (x ∷ xs) (y ∷ ys) hx hy (
    sym (split-join b'.' (itoa x) (map itoa xs) (itoas-Lacks (x ∷ xs)))
    ∙ ap (λ t. split t b'.') e
    ∙ split-join b'.' (itoa y) (map itoa ys) (itoas-Lacks (y ∷ ys)))

-- An administrator is a number or four bytes.
admin_of-cases :
    (r : Distinguisher)
    → IsDistinguisher r
    → (x : ℕ) × (xs : List ℕ) × (admin_of r ≡ x ∷ xs)
      × All IsWord32 (x ∷ xs)
      × IsWord32 (number_of r)
admin_of-cases (as2 asn num) h = (asn, [], refl, (omega (arith, h), tt), h.1)
admin_of-cases (address a b c d num) h = (
  a,
  b ∷ c ∷ d ∷ [],
  refl,
  (omega (arith, h), (omega (arith, h), (omega (arith, h), (omega (arith, h), tt)))),
  omega (arith, h),
)
admin_of-cases (as4 asn num) h = (asn, [], refl, (h.0, tt), omega (arith, h))

parts_eq :
    (p q s t : Text)
    → Lacks b':' p
    → Lacks b':' q
    → p ++ b':' ∷ s ≡ q ++ b':' ∷ t
    → (p ≡ q) × (s ≡ t)
parts_eq p q s t hp hq e =
    let cuts : ◌≡◌ {A = Option (Text × Text)} (some (p, s)) (some (q, t)) =
      sym (cut_byte-append b':' p s hp) ∙ ap (cut_byte b':') e ∙ cut_byte-append b':' q t hq in
    (cc, cc)

rd_text_injective :
    (r s : Distinguisher)
    → IsDistinguisher r
    → IsDistinguisher s
    → rd_text r ≡ rd_text s
    → (admin_of r ≡ admin_of s) × (number_of r ≡ number_of s)
rd_text_injective r s hr hs e =
    let (x, xs, er, wr, nr) = admin_of-cases r hr in
    let (y, ys, es, ws, ns) = admin_of-cases s hs in
    let parts =
      parts_eq (admin_text (admin_of r)) (admin_text (admin_of s)) (itoa (number_of r))
        (itoa (number_of s)) (admin_text-Lacks (admin_of r)) (admin_text-Lacks (admin_of s)) e in
    let admins : admin_text (x ∷ xs) ≡ admin_text (y ∷ ys) =
      sym (ap admin_text er) ∙ parts.0 ∙ ap admin_text es in
    let same = admin_text_injective x y xs ys wr ws admins in
    (er ∙ same ∙ sym es, itoa_injective (number_of r) (number_of s) nr ns parts.1)

-- Two distinguishers of the types 0, 1 and 2, with their fields in range, have the same text exactly
-- when their administrators and their numbers agree. So the texts tell the distinguishers of one type
-- apart, and an address from an AS number, but not type 0 from type 2.
pub format_rd_exact :
    (r s : Distinguisher)
    → IsDistinguisher r
    → IsDistinguisher s
    → (format_rd (encode_rd r) ≡ format_rd (encode_rd s))
      ↔ ((admin_of r ≡ admin_of s) × (number_of r ≡ number_of s))
format_rd_exact r s hr hs = (
  (λ e. rd_text_injective r s hr hs (sym (format_rd-encode r hr) ∙ e ∙ format_rd-encode s hs)),
  (λ (ha, hn).
      format_rd-encode r hr
      ∙ ap (λ xs. admin_text xs ++ b':' ∷ itoa (number_of r)) ha
      ∙ ap (λ n. admin_text (admin_of s) ++ b':' ∷ itoa n) hn
      ∙ sym (format_rd-encode s hs)),
)
