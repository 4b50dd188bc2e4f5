-- ===== src/PipelineState/Outcome.antt =====
-- What holds of the value of a step of pipeline.py, where it raises nothing.
use mathlib.Core.Path.{subst}
use ghost_amm.Base.{◌≡◌}
use ghost_amm.PipelineState.{Result, ok, raised, ◌>>=◌}

abbrev pub Gives {ℓ κ} : {A : Type ℓ} → (A → Type κ) → Result A → Type κ
Gives P (ok a) = P a
Gives P (raised e) = Unit

pub bind-Gives {ℓ κ κ'} :
    {A B : Type ℓ} (Q : A → Type κ') (P : B → Type κ) (r : Result A) (f : A → Result B)
    → Gives Q r
    → ((a : A) → Q a → Gives P (f a))
    → Gives P (r >>= f)
bind-Gives Q P (ok a) f g h = h a g
bind-Gives Q P (raised e) f g h = tt

pub any-Gives {ℓ} : {A : Type ℓ} (r : Result A) → Gives {ℓ, 0} (λ _. Unit) r
any-Gives (ok a) = tt
any-Gives (raised e) = tt

pub of_gives {ℓ κ} :
    {A : Type ℓ} (P : A → Type κ) (r : Result A) (a : A) → r ≡ ok a → Gives P r → P a
of_gives P r a h g = subst (Gives P) h g

pub map-Gives {ℓ κ κ'} :
    {A : Type ℓ} (P : A → Type κ) (Q : A → Type κ') (r : Result A)
    → ((a : A) → P a → Q a)
    → Gives P r
    → Gives Q r
map-Gives P Q (ok a) f h = f a h
map-Gives P Q (raised e) f h = tt
