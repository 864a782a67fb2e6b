-- ===== src/Base/Text/Order.antt =====
-- The order of strings.
use mathlib.Core.Path.{◌≡◌, refl}
use mathlib.Core.Bool.{true, false}
use mathlib.Core.List.{[], ◌∷◌}
use native.Mathlib.Omega.{arith}
use frr_visible.Base.Text.{Text, text_gt}

pub text_gt_asym : (a b : Text) → text_gt a b ≡ true → text_gt b a ≡ false
unfolding text_gt
text_gt_asym [] b h = cc
text_gt_asym (x ∷ a) [] h = refl
text_gt_asym (x ∷ a) (y ∷ b) h = ground (arith, text_gt_asym a b)

pub text_gt_total : (a b : Text) → text_gt a b ≡ false → text_gt b a ≡ false → a ≡ b
unfolding text_gt
text_gt_total [] [] h k = refl
text_gt_total [] (y ∷ b) h k = cc
text_gt_total (x ∷ a) [] h k = cc
text_gt_total (x ∷ a) (y ∷ b) h k = ground (arith, text_gt_total a b)
