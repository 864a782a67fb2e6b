-- ===== src/Cgroup/Stat.antt =====
-- internal/ingest/cgroup.go: readKV and sample on a file as the kernel writes cpu.stat.
use frr_visible.Base.{
  ℕ, ◌<◌, ◌≡◌, refl, ap, ◌∙◌, [], ◌∷◌, ◌++◌, All, All-append, Option, none, some, false, arith,
}
use frr_visible.Base.Text.{Text, itoa, split, is_empty, text_eq_instance, text_eq_iff}
use frr_visible.Base.Text.Lacks.{
  Lacks, IsDigit, itoa-Lacks, itoa-IsDigit, itoa_present, split-lines,
}
use frr_visible.Base.Text.Numeral.{parse_uint-itoa}
use frr_visible.Base.Text.Fields.{fields, IsWord, fields_loop-append, fields_loop_last}
use frr_visible.Base.Map.{Map, lookup, insert, IsDistinct, lookup-insert}
use frr_visible.Cgroup.{kv_line, kv_loop, read_kv}

-- A line of cpu.stat, without its newline.
abbrev stat_line : Text × ℕ → Text
stat_line (k, v) = k ++ b' ' ∷ itoa v

unfoldable pub cpu_stat : Map Text ℕ → Text
cpu_stat [] = []
cpu_stat (kv ∷ m) = stat_line kv ++ 10 ∷ cpu_stat m

-- A key is a word, and a value has 64 bits.
abbrev pub IsStat : Text × ℕ → Type 0
IsStat (k, v) = (is_empty k ≡ false) × IsWord k × (v < 18446744073709551616)

pub numeral-IsWord : (s : Text) → All IsDigit s → IsWord s
numeral-IsWord [] d = tt
numeral-IsWord (c ∷ s) d = (ground (arith, d.0), numeral-IsWord s d.1)

word-Lacks : (s : Text) → IsWord s → Lacks 10 s
word-Lacks [] w = tt
word-Lacks (c ∷ s) w = (ground (arith, w.0), word-Lacks s w.1)

fields-stat_line : (kv : Text × ℕ) → IsStat kv → fields (stat_line kv) ≡ kv.0 ∷ itoa (kv.1) ∷ []
unfolding fields
fields-stat_line (k, v) (present, word, small) =
    rw
      (
        fields_loop-append k (itoa v) [] word,
        fields_loop_last (itoa v) [] (numeral-IsWord (itoa v) (itoa-IsDigit v)),
        itoa_present v,
        present,
      )
      refl

kv_line-stat_line :
    (kv : Text × ℕ) (m : Map Text ℕ)
    → IsStat kv
    → kv_line (fields (stat_line kv)) m ≡ insert (kv.0) (kv.1) m
kv_line-stat_line kv m h = rw (fields-stat_line kv h, parse_uint-itoa (kv.1) (h.2)) refl

stat_line-Lacks : (kv : Text × ℕ) → IsStat kv → Lacks 10 (stat_line kv)
stat_line-Lacks (k, v) (present, word, small) =
    All-append _ k (b' ' ∷ itoa v) (word-Lacks k word) (refl, itoa-Lacks 10 v (ground arith))

-- What was found, or else what there was before.
abbrev or_before : Option ℕ → Option ℕ → Option ℕ
or_before none before = before
or_before (some v) before = some v

kv_loop-cpu_stat :
    (k : Text) (m acc : Map Text ℕ)
    → IsDistinct m
    → All IsStat m
    → lookup k (kv_loop (split (cpu_stat m) 10) acc) ≡ or_before (lookup k m) (lookup k acc)
unfolding cpu_stat kv_loop lookup split fields
kv_loop-cpu_stat k [] acc d h = refl
kv_loop-cpu_stat k ((j, v) ∷ m) acc d h =
    ap (λ ls. lookup k (kv_loop ls acc))
      (split-lines 10 (stat_line (j, v)) (cpu_stat m) (stat_line-Lacks (j, v) h.0))
    ∙ (ap (λ a. lookup k (kv_loop (split (cpu_stat m) 10) a)) (kv_line-stat_line (j, v) acc h.0)
        ∙ (kv_loop-cpu_stat k m (insert j v acc) d.1 h.1
            ∙ ground (arith, lookup-insert j k v acc, text_eq_iff j k, d.0)))

or_before-none : (o : Option ℕ) → or_before o none ≡ o
or_before-none none = refl
or_before-none (some v) = refl

-- What readKV makes of a file that holds a map is that map, key by key.
pub read_kv-cpu_stat :
    (k : Text) (m : Map Text ℕ)
    → IsDistinct m
    → All IsStat m
    → lookup k (read_kv (some (cpu_stat m))) ≡ lookup k m
unfolding read_kv lookup
read_kv-cpu_stat k m d h = kv_loop-cpu_stat k m [] d h ∙ or_before-none (lookup k m)
