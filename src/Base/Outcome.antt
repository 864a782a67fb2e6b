-- ===== src/Base/Outcome.antt =====
-- The result of Go code that may panic on an index out of range. `stuck` is no Go result: a loop of the
-- model ran out of fuel.
use mathlib.Core.Logic.{◌≢◌}

pub data Outcome {ℓ} (A : Type ℓ) : Type ℓ where
  ret : A → Outcome A
  panic : Outcome A
  stuck : Outcome A

infixl 5 ◌>>=◌
abbrev pub ◌>>=◌ {ℓ κ} : {A : Type ℓ} {B : Type κ} → Outcome A → (A → Outcome B) → Outcome B
ret a >>= f = f a
panic >>= f = panic
stuck >>= f = stuck

pub bind-ne-stuck {ℓ κ} :
    {A : Type ℓ} {B : Type κ} (m : Outcome A) (f : A → Outcome B)
    → m ≢ stuck
    → ((a : A) → f a ≢ stuck)
    → (m >>= f) ≢ stuck
bind-ne-stuck (ret a) f hm hf = hf a
bind-ne-stuck panic f hm hf = λ e. cc
bind-ne-stuck stuck f hm hf = λ e. hm (cc)
