-- ===== src/Cgroup/Kernel.antt =====
-- internal/ingest/cgroup.go: sample on the files of a cgroup as the kernel writes them.
use frr_visible.Base.{
  ℕ, ◌<◌, ◌≡◌, refl, ap₂, List, [], ◌∷◌, ◌++◌, All, Option, none, some, false, arith,
}
use frr_visible.Base.Text.{Text, lit, itoa, text_eq, text_eq_instance}
use frr_visible.Base.Text.Lacks.{IsDigit, itoa-IsDigit}
use frr_visible.Base.Text.Numeral.{parse_uint-itoa}
use frr_visible.Base.Text.Fields.{IsWord}
use frr_visible.Base.Map.{Map, lookup, IsDistinct}
use frr_visible.Gnmi.{Update, updates}
use frr_visible.Cgroup.{
  host_update, maybe_update, cpu_loop, cpu_leaves, update_if_any, read_kv, read_uint, read_limit,
  sample_updates, sample,
}
use frr_visible.Cgroup.Stat.{cpu_stat, IsStat, read_kv-cpu_stat, numeral-IsWord}

-- A file of one line.
abbrev pub one_line : Text → Text
one_line s = s ++ 10 ∷ []

-- memory.max
abbrev pub limit_text : Option ℕ → Text
limit_text none = lit "max"
limit_text (some n) = itoa n

-- A limit, where there is one, has 64 bits.
abbrev pub IsLimit : Option ℕ → Type 0
IsLimit none = Unit
IsLimit (some n) = n < 18446744073709551616

cpu_loop_cong :
    (a b : Map Text ℕ) (ls : List (Text × Text))
    → ((k : Text) → lookup k a ≡ lookup k b)
    → cpu_loop a ls ≡ cpu_loop b ls
unfolding cpu_loop
cpu_loop_cong a b [] same = refl
cpu_loop_cong a b ((k, leaf) ∷ ls) same =
    ap₂ (λ v us. maybe_update (lit "cpu") leaf v ++ us) (same k) (cpu_loop_cong a b ls same)

update_if_any_present :
    (xs : List Update) (y : Update) (ys : List Update)
    → update_if_any (xs ++ y ∷ ys) ≡ updates (lit "host") (xs ++ y ∷ ys) [] ∷ []
update_if_any_present [] y ys = refl
update_if_any_present (x ∷ xs) y ys = refl

digits-ne-max : (s : Text) → All IsDigit s → text_eq s (lit "max") ≡ false
unfolding text_eq lit
digits-ne-max [] d = refl
digits-ne-max (c ∷ s) d = ground (arith, d.0)

max-IsWord : IsWord (lit "max")
unfolding lit
max-IsWord = (refl, (refl, (refl, tt)))

itoa-IsWord : (n : ℕ) → IsWord (itoa n)
itoa-IsWord n = numeral-IsWord (itoa n) (itoa-IsDigit n)

module _ (trim_space : Text → Text)
    (trims : (s : Text) → IsWord s → trim_space (one_line s) ≡ s) where
  read_uint-one_line :
      (n : ℕ) → n < 18446744073709551616 → read_uint trim_space (some (one_line (itoa n))) ≡ some n
  unfolding read_uint
  read_uint-one_line n small = rw (trims (itoa n) (itoa-IsWord n)) (parse_uint-itoa n small)

  read_limit-one_line :
      (limit : Option ℕ)
      → IsLimit limit
      → read_limit trim_space (some (one_line (limit_text limit))) ≡ limit
  unfolding read_limit text_eq lit
  read_limit-one_line none h = rw (trims (lit "max") max-IsWord) refl
  read_limit-one_line (some n) h =
      rw (trims (itoa n) (itoa-IsWord n), digits-ne-max (itoa n) (itoa-IsDigit n))
        (parse_uint-itoa n h)

  -- Given that strings.TrimSpace takes the newline off a word and leaves the word:
  -- where cpu.stat holds a value of 64 bits for each of some different words, memory.current and
  -- memory.swap.current a number of 64 bits on a line, and memory.max one or the word max, a round makes
  -- one update: the value of each sampled key that cpu.stat has, in the order of the keys, then the three
  -- values of the memory, the last only where there is a limit.
  pub sample_exact :
      (read : Text → Option Text) (root : Text) (cpu : Map Text ℕ) (current swap : ℕ)
      (limit : Option ℕ)
      → IsDistinct cpu
      → All IsStat cpu
      → current < 18446744073709551616
      → swap < 18446744073709551616
      → IsLimit limit
      → read (root ++ lit "/cpu.stat") ≡ some (cpu_stat cpu)
      → read (root ++ lit "/memory.current") ≡ some (one_line (itoa current))
      → read (root ++ lit "/memory.swap.current") ≡ some (one_line (itoa swap))
      → read (root ++ lit "/memory.max") ≡ some (one_line (limit_text limit))
      → sample trim_space read root
        ≡ updates
            (lit "host")
            (cpu_loop cpu cpu_leaves
              ++ host_update (lit "memory") (lit "current") current
                ∷ host_update (lit "memory") (lit "swap-current") swap
                ∷ maybe_update (lit "memory") (lit "max") limit)
            []
          ∷ []
  unfolding sample sample_updates
  sample_exact read root cpu current swap limit d h hc hs hl rcpu rcur rswap rmax =
      rw
        (
          rcpu,
          rcur,
          rswap,
          rmax,
          read_uint-one_line current hc,
          read_uint-one_line swap hs,
          read_limit-one_line limit hl,
          cpu_loop_cong (read_kv (some (cpu_stat cpu))) cpu cpu_leaves
              (λ k. read_kv-cpu_stat k cpu d h),
        )
        (update_if_any_present (cpu_loop cpu cpu_leaves) _ _)
