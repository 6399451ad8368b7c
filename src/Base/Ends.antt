-- ===== src/Base/Ends.antt =====
-- Results that are there and have a property, step by step through a do block.
use miniupnpd_sdn.Base.{◌≡◌, refl, Bool, true, false, Option, none, some, if◌then◌else◌}
use miniupnpd_sdn.Base.Options.{◌>>=◌}

abbrev pub Ends : {A : Type 0} → (A → Type 0) → Option A → Type 0
Ends P none = ⊥
Ends P (some a) = P a

module _ {A B : Type 0} (Q : B → Type 0) where
  pub Ends-bind :
      (P : A → Type 0) (f : A → Option B) (m : Option A)
      → Ends P m
      → ((a : A) → P a → Ends Q (f a))
      → Ends Q (m >>= f)
  Ends-bind P f none e h = absurd e
  Ends-bind P f (some a) e h = h a e

  -- A first step with a known result.
  pub Ends-at :
      (f : A → Option B) (m : Option A) (a : A) → m ≡ some a → Ends Q (f a) → Ends Q (m >>= f)
  Ends-at f m a e h = rw e h

module _ {A : Type 0} (Q : A → Type 0) where
  pub Ends-if :
      (x y : Option A) (b : Bool)
      → (b ≡ true → Ends Q x)
      → (b ≡ false → Ends Q y)
      → Ends Q (if b then x else y)
  Ends-if x y true t f = t refl
  Ends-if x y false t f = f refl

  pub Ends-more : (P : A → Type 0) (m : Option A) → Ends P m → ((a : A) → P a → Q a) → Ends Q m
  Ends-more P none e h = absurd e
  Ends-more P (some a) e h = h a e

pub if_ends :
    {A : Type 0} (P : A → Type 0) (x y : A) (b : Bool)
    → (b ≡ true → P x)
    → (b ≡ false → P y)
    → P (if b then x else y)
if_ends P x y true t f = t refl
if_ends P x y false t f = f refl

-- Results that have a property where they are there.
abbrev pub Meets : {A : Type 0} → (A → Type 0) → Option A → Type 0
Meets P none = Unit {0}
Meets P (some a) = P a

pub Meets-bind :
    {A B : Type 0} (Q : B → Type 0) (P : A → Type 0) (f : A → Option B) (m : Option A)
    → Meets P m
    → ((a : A) → P a → Meets Q (f a))
    → Meets Q (m >>= f)
Meets-bind Q P f none e h = tt
Meets-bind Q P f (some a) e h = h a e

pub Meets-found :
    {A B : Type 0} (Q : B → Type 0) (f : A → Option B) (m : Option A)
    → ((a : A) → m ≡ some a → Meets Q (f a))
    → Meets Q (m >>= f)
Meets-found Q f none h = tt
Meets-found Q f (some a) h = h a refl

pub Ends-Meets :
    {A : Type 0} (P Q : A → Type 0) (m : Option A) → Ends P m → Meets Q m → Ends (λ a. P a × Q a) m
Ends-Meets P Q none e h = absurd e
Ends-Meets P Q (some a) e h = (e, h)
