-- ===== src/Replay/Engine/Outcome.antt =====
-- What holds of the value of a step of replay/engine.py, where it raises nothing.
use mathlib.Core.Path.{subst}
use ghost_amm.Base.{◌≡◌, refl, Bool, true, false, not, ◌&&◌, ◌⊎◌, arith}
use ghost_amm.Replay.Engine.{Replayed, done, failed, ◌>>=◌}

abbrev pub Yields {ℓ κ} : {A : Type ℓ} → (A → Type κ) → Replayed A → Type κ
Yields P (done a) = P a
Yields P (failed e) = Unit

pub bind-Yields {ℓ κ κ'} :
    {A B : Type ℓ} (Q : A → Type κ') (P : B → Type κ) (r : Replayed A) (f : A → Replayed B)
    → Yields Q r
    → ((a : A) → Q a → Yields P (f a))
    → Yields P (r >>= f)
bind-Yields Q P (done a) f g h = h a g
bind-Yields Q P (failed e) f g h = tt

pub map-Yields {ℓ κ κ'} :
    {A : Type ℓ} (P : A → Type κ) (Q : A → Type κ') (r : Replayed A)
    → ((a : A) → P a → Q a)
    → Yields P r
    → Yields Q r
map-Yields P Q (done a) f h = f a h
map-Yields P Q (failed e) f h = tt

pub of_yields {ℓ κ} :
    {A : Type ℓ} (P : A → Type κ) (r : Replayed A) (a : A) → r ≡ done a → Yields P r → P a
of_yields P r a h g = subst (Yields P) h g

pub any-Yields {ℓ} : {A : Type ℓ} (r : Replayed A) → Yields {ℓ, 0} (λ _. Unit) r
any-Yields (done a) = tt
any-Yields (failed e) = tt

pub self-Yields {ℓ} : {A : Type ℓ} (r : Replayed A) → Yields (λ a. r ≡ done a) r
self-Yields (done a) = refl
self-Yields (failed e) = tt

pub strict_or :
    (strict passes : Bool) → (strict && not passes ≡ false) → (strict ≡ false) ⊎ (passes ≡ true)
strict_or strict passes h = ground arith
