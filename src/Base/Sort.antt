-- ===== src/Base/Sort.antt =====
-- sort.Slice by a number: what it promises of its result. The order of equal keys is open, as Go leaves
-- it.
use Prim.Native.Nat.{ℕ, ◌≤◌}
use mathlib.Core.List.{List, [], ◌∷◌, Perm}
use frr_visible.Base.Lists.{All}

module _ {A : Type 0} (key : A → ℕ) where
  abbrev pub IsOrdered : List A → Type 0
  IsOrdered [] = Unit {0}
  IsOrdered (x ∷ xs) = All (λ y. key x ≤ key y) xs × IsOrdered xs

  pub record IsSort (sort : List A → List A) : Type 0 where
    pub perm : (l : List A) → Perm (sort l) l
    pub ordered : (l : List A) → IsOrdered (sort l)
