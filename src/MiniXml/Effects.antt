-- ===== src/MiniXml/Effects.antt =====
-- miniupnpd/minixml.c: the effects of the parser. A run reports its events in order and ends in the
-- next position, by one of the parser's early returns, in a read outside the buffer, or with no fuel.
use miniupnpd_sdn.Base.{ℕ, Bool, true, false, List, [], ◌∷◌, ◌++◌}

-- A callback's arguments: the offset and the length of a name, a text or a value.
pub data Event : Type 0 where
  starts ends text : ℕ → ℕ → Event
  attribute : ℕ → ℕ → ℕ → ℕ → Event

pub data Flow {ℓ} (A : Type ℓ) : Type ℓ where
  next : A → Flow A
  stop fault stuck : Flow A

abbrev pub Run {ℓ} : Type ℓ → Type ℓ
Run A = List Event × Flow A

infixl 5 ◌>>=◌ ◌>>◌
abbrev pub after {ℓ κ} : {A : Type ℓ} {B : Type κ} → List Event → Flow A → (A → Run B) → Run B
after es (next a) f = let (es', r) = f a in (es ++ es', r)
after es stop f = (es, stop)
after es fault f = (es, fault)
after es stuck f = (es, stuck)

abbrev pub ◌>>=◌ {ℓ κ} : {A : Type ℓ} {B : Type κ} → Run A → (A → Run B) → Run B
m >>= f = after m.0 m.1 f

abbrev pub ◌>>◌ {ℓ} : {B : Type ℓ} → Run (Unit {0}) → Run B → Run B
m >> k = m >>= λ _. k

abbrev pub pass {ℓ} : {A : Type ℓ} → A → Run A
pass a = ([], next a)

unfoldable pub emit : Event → Run (Unit {0})
emit e = (e ∷ [], next tt)

-- `if(at_end) return;`
unfoldable pub stop_if : Bool → Run (Unit {0})
stop_if true = ([], stop)
stop_if false = pass tt
