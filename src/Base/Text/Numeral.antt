-- ===== src/Base/Text/Numeral.antt =====
-- strconv.ParseUint(s, 10, 64), and that it reads what strconv.Itoa writes.
use Prim.Native.Nat.{ℕ, zero, suc, ◌+◌, ◌*◌, ◌-◌, ◌/◌, ◌%◌, ◌<◌}
use mathlib.Core.Path.{◌≡◌, sym, ◌∙◌}
use mathlib.Core.Logic.{inl, inr}
use mathlib.Core.Bool.{◌&&◌}
use mathlib.Core.Option.{Option, none, some}
use mathlib.Core.List.{[], ◌∷◌}
use native.Mathlib.Omega.{arith}
use frr_visible.Base.Tests.{ltb, leb, if◌then◌else◌, Bool-cases}
use frr_visible.Base.Text.{Text, is_empty, itoa, itoa_loop}
use frr_visible.Base.Text.Lacks.{itoa_present}

-- The number that the digits write behind `acc`; `none` where a byte is no digit.
unfoldable pub digits_loop : ℕ → Text → Option ℕ
digits_loop acc [] = some acc
digits_loop acc (c ∷ s) =
    let rest = digits_loop (acc * 10 + (c - b'0')) s in
    if leb b'0' c && leb c b'9' then rest else none

-- A value of 2^64 or more is an error.
abbrev pub in_range : Option ℕ → Option ℕ
in_range none = none
in_range (some n) = if ltb n 18446744073709551616 then some n else none

unfoldable pub parse_uint : Text → Option ℕ
unfolding digits_loop
parse_uint s = if is_empty s then none else in_range (digits_loop 0 s)

digit_step :
    (acc d n : ℕ) (s : Text)
    → d < 10
    → acc * 10 + d ≡ n
    → digits_loop acc ((b'0' + d) ∷ s) ≡ digits_loop n s
unfolding digits_loop
digit_step acc d n s h e = rw (sym e) (ground (arith, h))

digits_loop-itoa_loop :
    (f n : ℕ) (rest : Text) → n < f → digits_loop 0 (itoa_loop f n rest) ≡ digits_loop n rest
unfolding itoa_loop
digits_loop-itoa_loop zero n rest h = ground (arith, h)
digits_loop-itoa_loop (suc f) n rest h = elim (Bool-cases (ltb n 10)) [
  | inl small ↦ rw small (digit_step 0 n n rest (ground (arith, small)) (omega arith))
  | inr large ↦ rw large (
      digits_loop-itoa_loop f (n / 10) ((b'0' + n % 10) ∷ rest) (ground (arith, large, h))
      ∙ digit_step (n / 10) (n % 10) n rest (omega arith) (omega arith))
]

-- The decimal numeral of a number below 2^64 is read back as that number.
pub parse_uint-itoa : (n : ℕ) → n < 18446744073709551616 → parse_uint (itoa n) ≡ some n
unfolding parse_uint itoa
parse_uint-itoa n h =
    rw (itoa_present n, digits_loop-itoa_loop (suc n) n [] (omega arith)) (ground (arith, h))
