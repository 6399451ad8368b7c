-- ===== src/Base/Options.antt =====
-- Chains of optional results, for do blocks.
use mathlib.Core.Path.{◌≡◌, refl, ap}
use native.Mathlib.Omega.{arith}
use mathlib.Core.Option.{Option, none, some}

infixl 5 ◌>>=◌
abbrev pub ◌>>=◌ {ℓ κ} : {A : Type ℓ} {B : Type κ} → Option A → (A → Option B) → Option B
none >>= f = none
some a >>= f = f a

pub bind_some-bind_some {ℓ κ μ} :
    {A : Type ℓ} {B : Type κ} {C : Type μ} (o : Option A) (f : A → B) (g : B → C)
    → ((o >>= λ a. some (f a)) >>= λ b. some (g b)) ≡ (o >>= λ a. some (g (f a)))
bind_some-bind_some none f g = refl
bind_some-bind_some (some a) f g = refl

pub none-some {ℓ} : {A : Type ℓ} (a : A) → none ≡ some a → ⊥
none-some a e = ground arith

pub bind_some_total {ℓ κ} :
    {A : Type ℓ} {B : Type κ} (o : Option A) (f : A → B)
    → ((a : A) × (o ≡ some a))
    → (b : B) × ((o >>= λ a. some (f a)) ≡ some b)
bind_some_total o f c = (f c.0, ap (λ m. m >>= λ a. some (f a)) c.1)
