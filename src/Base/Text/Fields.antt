-- ===== src/Base/Text/Fields.antt =====
-- strings.Fields on text in ASCII: it splits at the bytes 9 to 13 and 32.
use Prim.Native.Nat.{ℕ}
use mathlib.Core.Path.{◌≡◌, sym, ap, ◌∙◌}
use mathlib.Core.Bool.{Bool, false, ◌&&◌, ◌||◌}
use mathlib.Core.List.{List, [], ◌∷◌, ◌++◌, append-nil, append_assoc}
use frr_visible.Base.Tests.{leb, ◌==◌, if◌then◌else◌}
use frr_visible.Base.Lists.{All}
use frr_visible.Base.Text.{Text, is_empty}

abbrev pub is_space : ℕ → Bool
is_space c = (leb 9 c && leb c 13) || c == 32

-- strings.Fields, with the word that is being read.
abbrev pub flush_word : Text → List Text → List Text
flush_word word rest = if is_empty word then rest else word ∷ rest

unfoldable pub fields_loop : Text → Text → List Text
fields_loop [] word = flush_word word []
fields_loop (c ∷ s) word =
    let gap = flush_word word (fields_loop s []) in
    let more = fields_loop s (word ++ c ∷ []) in if is_space c then gap else more

unfoldable pub fields : Text → List Text
unfolding fields_loop
fields s = fields_loop s []

abbrev pub IsWord : Text → Type 0
IsWord = All (λ c. is_space c ≡ false)

pub fields_loop-append :
    (p s word : Text)
    → IsWord p
    → fields_loop (p ++ b' ' ∷ s) word ≡ flush_word (word ++ p) (fields_loop s [])
unfolding fields_loop
fields_loop-append [] s word h = ap (λ w. flush_word w (fields_loop s [])) (sym (append-nil word))
fields_loop-append (c ∷ p) s word h = rw (h.0) (
    fields_loop-append p s (word ++ c ∷ []) (h.1)
    ∙ ap (λ w. flush_word w (fields_loop s [])) (append_assoc word (c ∷ []) p))

pub fields_loop_last : (p word : Text) → IsWord p → fields_loop p word ≡ flush_word (word ++ p) []
unfolding fields_loop
fields_loop_last [] word h = ap (λ w. flush_word w []) (sym (append-nil word))
fields_loop_last (c ∷ p) word h = rw (h.0) (
    fields_loop_last p (word ++ c ∷ []) (h.1)
    ∙ ap (λ w. flush_word w []) (append_assoc word (c ∷ []) p))
