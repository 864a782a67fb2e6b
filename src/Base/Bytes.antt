-- ===== src/Base/Bytes.antt =====
-- encoding/binary over a list of bytes, and slice expressions. An index past the end reads 0 here; the
-- code's guards keep every read inside, or the model's function says where it would panic.
use Prim.Native.Nat.{ℕ, ◌+◌, ◌-◌, ◌*◌, ◌/◌, ◌%◌, ◌<◌}
use mathlib.Core.Bool.{Bool}
use mathlib.Core.List.{List}
use frr_visible.Base.Tests.{◌==◌}
use frr_visible.Base.Lists.{get_or, take, drop}

abbrev pub IsByte : ℕ → Type 0
IsByte b = b < 256

-- b[i]
abbrev pub byte_at : List ℕ → ℕ → ℕ
byte_at b i = get_or b i 0

-- b[i:j]
abbrev pub slice : ℕ → ℕ → List ℕ → List ℕ
slice i j b = take (j - i) (drop i b)

-- binary.BigEndian.Uint16(b[i:i+2]) and Uint32(b[i:i+4])
abbrev pub be16 : List ℕ → ℕ → ℕ
be16 b i = byte_at b i * 256 + byte_at b (i + 1)

abbrev pub be32 : List ℕ → ℕ → ℕ
be32 b i =
    byte_at b i * 16777216 + byte_at b (i + 1) * 65536 + byte_at b (i + 2) * 256 + byte_at b (i + 3)

-- binary.LittleEndian.Uint16(b[i:i+2]) and Uint32(b[i:i+4])
abbrev pub le16 : List ℕ → ℕ → ℕ
le16 b i = byte_at b i + byte_at b (i + 1) * 256

abbrev pub le32 : List ℕ → ℕ → ℕ
le32 b i =
    byte_at b i + byte_at b (i + 1) * 256 + byte_at b (i + 2) * 65536 + byte_at b (i + 3) * 16777216

-- x & bit != 0, for a power of two.
abbrev pub has_bit : ℕ → ℕ → Bool
has_bit bit x = x / bit % 2 == 1
