-- ===== src/Base/Text.antt =====
-- Go strings as lists of bytes: literals, equality, decimal and hexadecimal rendering (strconv,
-- fmt's %d and %x), strings.Index, IndexByte, HasPrefix, Split and Join.
pub mod Lacks
pub mod Order
pub mod Fields
pub mod Numeral
use Prim.Native.Char.{code}
use Prim.Native.String.{String}
use Prim.Native.Nat.{ℕ, zero, suc, ◌+◌, ◌-◌, ◌/◌, ◌%◌}
use mathlib.Core.Path.{◌≡◌}
use mathlib.Core.Logic.{◌↔◌}
use mathlib.Core.Bool.{Bool, true, false, ◌&&◌}
use mathlib.Core.Option.{Option, none, some}
use mathlib.Core.List.{List, [], ◌∷◌, ◌++◌}
use native.Mathlib.Omega.{arith}
use frr_visible.Base.Tests.{Eq, ltb, ◌==◌, if◌then◌else◌}
use frr_visible.Base.Lists.{length, drop}

abbrev pub Text : Type 0
Text = List ℕ

-- A string literal of the source, in ASCII. It is shut, so proofs treat a literal as an atom.
unfoldable pub lit : String → Text
lit String.[] = []
lit (String.◌∷◌ c s) = code c ∷ lit s

unfoldable pub text_eq : Text → Text → Bool
text_eq [] [] = true
text_eq [] (y ∷ ys) = false
text_eq (x ∷ xs) [] = false
text_eq (x ∷ xs) (y ∷ ys) = x == y && text_eq xs ys

pub text_eq_iff : (s t : Text) → (text_eq s t ≡ true) ↔ (s ≡ t)
unfolding text_eq
text_eq_iff [] [] = ground arith
text_eq_iff [] (y ∷ ys) = ground arith
text_eq_iff (x ∷ xs) [] = ground arith
text_eq_iff (x ∷ xs) (y ∷ ys) = ground (arith, text_eq_iff xs ys)

instance abbrev pub text_eq_instance : Eq Text
text_eq_instance = record { beq = text_eq; beq_iff = text_eq_iff }

-- s == ""
abbrev pub is_empty {ℓ} : {A : Type ℓ} → List A → Bool
is_empty [] = true
is_empty (x ∷ xs) = false

-- strconv.Itoa on a number that is not negative: digits in front of `rest`.
itoa_loop : ℕ → ℕ → Text → Text
itoa_loop zero n rest = rest
itoa_loop (suc f) n rest =
    let more = itoa_loop f (n / 10) ((b'0' + n % 10) ∷ rest) in
    if ltb n 10 then (b'0' + n) ∷ rest else more

-- A number has at most as many digits as its value plus one, so the fuel is enough.
unfoldable pub itoa : ℕ → Text
unfolding itoa_loop
itoa n = itoa_loop (suc n) n []

abbrev hex_digit : ℕ → ℕ
hex_digit d = if ltb d 10 then b'0' + d else b'a' + d - 10

-- %02x of a byte.
unfoldable pub hex2 : ℕ → Text
hex2 b = hex_digit (b / 16) ∷ hex_digit (b % 16) ∷ []

-- %x of a 16-bit number.
unfoldable pub hex16 : ℕ → Text
hex16 n =
    let d0 = hex_digit (n % 16) in
    let d1 = hex_digit (n / 16 % 16) in
    let d2 = hex_digit (n / 256 % 16) in
    let d3 = hex_digit (n / 4096) in
    if ltb n 16
    then d0 ∷ []
    else if ltb n 256
    then d1 ∷ d0 ∷ []
    else if ltb n 4096
    then d2 ∷ d1 ∷ d0 ∷ []
    else d3 ∷ d2 ∷ d1 ∷ d0 ∷ []

-- strings.HasPrefix
unfoldable pub has_prefix : Text → Text → Bool
has_prefix s [] = true
has_prefix [] (p ∷ ps) = false
has_prefix (c ∷ s) (p ∷ ps) = c == p && has_prefix s ps

-- strings.IndexByte, as the text before the first `b` and the text after it.
unfoldable pub cut_byte : ℕ → Text → Option (Text × Text)
cut_byte b [] = none
cut_byte b (c ∷ s) =
    let rest = cut_byte b s in
    if c == b
    then some ([], s)
    else elim rest [ none ↦ none | some (before, after) ↦ some (c ∷ before, after) ]

-- strings.Index(s, k), as the text that follows the first occurrence of `k`.
unfoldable pub after_index : Text → Text → Option Text
unfolding has_prefix
after_index k [] = if is_empty k then some [] else none
after_index k (c ∷ s) =
    let later = after_index k s in
    if has_prefix (c ∷ s) k then some (drop (length k) (c ∷ s)) else later

-- strings.Split(s, sep) for a separator of one byte: never empty.
split_loop : ℕ → Text → Text → List Text
split_loop sep [] acc = acc ∷ []
split_loop sep (c ∷ s) acc = elim (c == sep) [
  | true ↦ acc ∷ split_loop sep s []
  | false ↦ split_loop sep s (acc ++ c ∷ [])
]

unfoldable pub split : Text → ℕ → List Text
unfolding split_loop
split s sep = split_loop sep s []

-- strings.Join
unfoldable pub join : List Text → Text → Text
join [] sep = []
join (x ∷ []) sep = x
join (x ∷ y ∷ r) sep = x ++ (sep ++ join (y ∷ r) sep)

-- a > b on strings: by bytes.
unfoldable pub text_gt : Text → Text → Bool
text_gt [] b = false
text_gt (x ∷ a) [] = true
text_gt (x ∷ a) (y ∷ b) = let rest = text_gt a b in if x == y then rest else ltb y x
