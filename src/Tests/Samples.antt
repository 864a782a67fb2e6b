-- ===== src/Tests/Samples.antt =====
-- internal/ingest/cgroup.go on concrete inputs.
use frr_visible.Base.{ℕ, ◌≡◌, refl, ap, [], ◌∷◌, ◌++◌, Option, none, some, if◌then◌else◌, arith}
use frr_visible.Base.Text.{Text, lit, itoa, text_eq, text_eq_instance}
use frr_visible.Base.Text.Fields.{IsWord}
use frr_visible.Base.Map.{Map, lookup}
use frr_visible.Gnmi.{updates}
use frr_visible.Cgroup.{cpu_loop, host_update, sample}
use frr_visible.Cgroup.Stat.{cpu_stat}
use frr_visible.Cgroup.Kernel.{one_line, limit_text, sample_exact}

-- A text without its last byte.
chop : Text → Text
chop [] = []
chop (c ∷ []) = []
chop (c ∷ d ∷ s) = c ∷ chop (d ∷ s)

chop-one_line : (s : Text) → IsWord s → chop (one_line s) ≡ s
unfolding chop
chop-one_line [] w = refl
chop-one_line (c ∷ []) w = refl
chop-one_line (c ∷ d ∷ s) w = ap (λ t. c ∷ t) (chop-one_line (d ∷ s) (w.1))

abbrev cpu : Map Text ℕ
cpu = (lit "usage_usec", 123456) ∷ (lit "nr_bursts", 3) ∷ (lit "nr_throttled", 7) ∷ []

abbrev root : Text
root = lit "/cg"

read : Text → Option Text
read path =
    if text_eq path (root ++ lit "/cpu.stat")
    then some (cpu_stat cpu)
    else if text_eq path (root ++ lit "/memory.current")
    then some (one_line (itoa 4096))
    else if text_eq path (root ++ lit "/memory.swap.current")
    then some (one_line (itoa 0))
    else if text_eq path (root ++ lit "/memory.max")
    then some (one_line (limit_text none))
    else none

sample_exact_example :
    sample chop read root
    ≡ updates
        (lit "host")
        (host_update (lit "cpu") (lit "usage-usec") 123456
          ∷ host_update (lit "cpu") (lit "nr-throttled") 7
          ∷ host_update (lit "memory") (lit "current") 4096
          ∷ host_update (lit "memory") (lit "swap-current") 0
          ∷ [])
        []
      ∷ []
unfolding lit text_eq lookup read cpu_loop
sample_exact_example =
    sample_exact chop chop-one_line read root cpu 4096 0 none (refl, (refl, (refl, tt)))
      (
        (refl, ground arith, ground arith),
        ((refl, ground arith, ground arith), ((refl, ground arith, ground arith), tt)),
      )
      (ground arith) (ground arith) tt refl refl refl refl
