-- ===== src/Base/Int.antt =====
-- Go's int64 where a value may be negative: only what the time differences need.
use Prim.Native.Nat.{ℕ, zero, suc, ◌-◌, ◌/◌}
use frr_visible.Base.Tests.{leb, if◌then◌else◌}

-- `negsuc n` is -(n + 1).
pub data ℤ : Type 0 where
  pos : ℕ → ℤ
  negsuc : ℕ → ℤ

abbrev neg : ℕ → ℤ
neg zero = pos 0
neg (suc n) = negsuc n

-- a.Sub(b).Milliseconds() for times in nanoseconds: the quotient is cut towards zero.
unfoldable pub ms_since : ℕ → ℕ → ℤ
ms_since a b = if leb b a then pos ((a - b) / 1000000) else neg ((b - a) / 1000000)
