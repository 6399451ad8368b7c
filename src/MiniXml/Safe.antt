-- ===== src/MiniXml/Safe.antt =====
-- miniupnpd/minixml.c: the loops over characters and the attributes stay inside a buffer with one
-- readable byte behind the document, and end.
use miniupnpd_sdn.Base.{
  ℕ, zero, suc, ◌+◌, ◌≤◌, ◌<◌, ◌≡◌, refl, inl, inr, Bool, true, false, not, ◌||◌, List, [], ◌∷◌,
  ◌++◌, some, Bytes, ◌==◌, if◌then◌else◌, get_elem?, length, Bool-cases, arith,
}
use miniupnpd_sdn.MiniXml.Effects.{
  Event, starts, ends, text, attribute, Flow, next, stop, fault, stuck, Run, after, ◌>>=◌, pass,
  emit, stop_if,
}
use miniupnpd_sdn.MiniXml.{
  is_white_space, read, advance_while, matches, seek, fuel, pass_equals, att_value, att, parseatt,
}

-- What an event points to lies in the document.
abbrev pub InDocument : ℕ → Event → Type 0
InDocument n (starts s l) = s + l ≤ n
InDocument n (ends s l) = s + l ≤ n
InDocument n (text s l) = s + l ≤ n
InDocument n (attribute s l t k) = (s + l ≤ n) × (t + k ≤ n)

abbrev pub AllInDocument : ℕ → List Event → Type 0
AllInDocument n [] = Unit {0}
AllInDocument n (e ∷ es) = InDocument n e × AllInDocument n es

-- The run neither faults nor lacks fuel; where it goes on, the next value meets `P`.
abbrev pub Flows : {A : Type 0} → (A → Type 0) → Flow A → Type 0
Flows P (next a) = P a
Flows P stop = Unit {0}
Flows P fault = ⊥
Flows P stuck = ⊥

pub record Ends (n : ℕ) {A : Type 0} (P : A → Type 0) (m : Run A) : Type 0 where
  pub events : AllInDocument n m.0
  pub flow : Flows P m.1

AllInDocument-append :
    (n : ℕ) (es es' : List Event)
    → AllInDocument n es
    → AllInDocument n es'
    → AllInDocument n (es ++ es')
AllInDocument-append n [] es' h k = k
AllInDocument-append n (e ∷ es) es' h k = (h.0, AllInDocument-append n es es' h.1 k)

module _ {n : ℕ} {A B : Type 0} {P : A → Type 0} {Q : B → Type 0} where
  after-Ends :
      (es : List Event) (r : Flow A) (f : A → Run B)
      → AllInDocument n es
      → Flows P r
      → ((a : A) → P a → Ends n Q (f a))
      → Ends n Q (after es r f)
  after-Ends es (next a) f h k g = record {
    events = AllInDocument-append n es (f a).0 h (g a k).events;
    flow = (g a k).flow;
  }
  after-Ends es stop f h k g = record { events = h; flow = tt }
  after-Ends es fault f h k g = absurd k
  after-Ends es stuck f h k g = absurd k

  pub bind-Ends :
      (m : Run A) (f : A → Run B)
      → Ends n P m
      → ((a : A) → P a → Ends n Q (f a))
      → Ends n Q (m >>= f)
  bind-Ends m f h g = after-Ends m.0 m.1 f h.events h.flow g

pub pass-Ends : {n : ℕ} {A : Type 0} {P : A → Type 0} (a : A) → P a → Ends n P (pass a)
pass-Ends a h = record { events = tt; flow = h }

pub emit-Ends : {n : ℕ} (e : Event) → InDocument n e → Ends n (λ _. Unit {0}) (emit e)
unfolding emit
emit-Ends e h = record { events = (h, tt); flow = tt }

pub stop_if-Ends : {n : ℕ} (b : Bool) → Ends n (λ _. b ≡ false) (stop_if b)
unfolding stop_if
stop_if-Ends true = record { events = tt; flow = tt }
stop_if-Ends false = record { events = tt; flow = refl }

pub if-Ends :
    {n : ℕ} {A : Type 0} {P : A → Type 0} (b : Bool) {x y : Run A}
    → (b ≡ true → Ends n P x)
    → (b ≡ false → Ends n P y)
    → Ends n P (if b then x else y)
if-Ends true h k = h refl
if-Ends false h k = k refl

weaken-Flows :
    {A : Type 0} {P Q : A → Type 0} (r : Flow A) → Flows P r → ((a : A) → P a → Q a) → Flows Q r
weaken-Flows (next a) k g = g a k
weaken-Flows stop k g = tt
weaken-Flows fault k g = k
weaken-Flows stuck k g = k

pub weaken-Ends :
    {n : ℕ} {A : Type 0} {P Q : A → Type 0} (m : Run A)
    → Ends n P m
    → ((a : A) → P a → Q a)
    → Ends n Q m
weaken-Ends m h g = record { events = h.events; flow = weaken-Flows m.1 h.flow g }

get_elem?-some : (xs : Bytes) (i : ℕ) → i < length xs → (c : ℕ) × (get_elem? xs i ≡ some c)
get_elem?-some [] i h = elim h [ ]
get_elem?-some (x ∷ xs) zero h = (x, refl)
get_elem?-some (x ∷ xs) (suc i) h = get_elem?-some xs i (omega arith)

module _ (buf : Bytes) (n : ℕ) (room : n < length buf) where
  pub read-Ends : (p : ℕ) → p ≤ n → Ends n (λ _. Unit {0}) (read buf p)
  unfolding read
  read-Ends p h = let (c, e) = get_elem?-some buf p (omega arith) in rw (e, read) (pass-Ends c tt)

  pub advance_while-Ends :
      (f : ℕ) (test : ℕ → Bool) (margin p : ℕ)
      → p ≤ n
      → n < f + p
      → Ends n (λ q. (p ≤ q) × (q ≤ n) × (p < n → q < n)) (advance_while buf n f test margin p)
  unfolding advance_while
  advance_while-Ends zero test margin p h k = absurd (omega arith)
  advance_while-Ends (suc f) test margin p h k = bind-Ends (read buf p) _ (read-Ends p h) λ c _.
      elim (Bool-cases (test c)) [
        | inl t ↦ rw t (
            bind-Ends (stop_if _) _ (stop_if-Ends _) λ _ e.
              weaken-Ends _ (advance_while-Ends f test margin (p + 1) (ground arith) (omega arith))
                λ q r. (omega arith, r.1, λ _. r.2 (ground arith)))
        | inr t ↦ rw t (pass-Ends p (omega arith, h, λ z. z))
      ]

  pub matches-Ends :
      (word : Bytes) (p : ℕ) → p + length word ≤ n + 1 → Ends n (λ _. Unit {0}) (matches buf word p)
  unfolding matches
  matches-Ends [] p h = pass-Ends true tt
  matches-Ends (w ∷ ws) p h = bind-Ends (read buf p) _ (read-Ends p (omega arith)) λ c _.
      elim (Bool-cases (w == c)) [
        | inl t ↦ rw t (matches-Ends ws (p + 1) (omega arith))
        | inr t ↦ rw t (pass-Ends false tt)
      ]

  pub seek-Ends :
      (f : ℕ) (mark : Bytes) (p : ℕ)
      → length mark ≡ 3
      → p + 3 ≤ n
      → n < f + p
      → Ends n (λ q. (p ≤ q) × (q + 3 ≤ n)) (seek buf n f mark p)
  unfolding seek
  seek-Ends zero mark p l h k = absurd (omega arith)
  seek-Ends (suc f) mark p l h k =
      bind-Ends (matches buf mark p) _ (matches-Ends mark p (omega arith)) λ found _.
        elim (Bool-cases found) [
          | inl t ↦ rw t (pass-Ends p (omega arith, h))
          | inr t ↦ rw t (
              bind-Ends (stop_if _) _ (stop_if-Ends _) λ _ e.
                weaken-Ends _ (seek-Ends f mark (p + 1) l (ground arith) (omega arith))
                  λ q r. (omega arith, r.1))
        ]

  pass_equals-Ends :
      (f p : ℕ) → p < n → n < f + p → Ends n (λ q. (p < q) × (q ≤ n)) (pass_equals buf n f p)
  unfolding pass_equals
  pass_equals-Ends zero p h k = absurd (omega arith)
  pass_equals-Ends (suc f) p h k = bind-Ends (read buf p) _ (read-Ends p (omega arith)) λ c _.
      elim (Bool-cases (not (c == b'='))) [
        | inl t ↦ rw t (
            bind-Ends (stop_if _) _ (stop_if-Ends _) λ _ e.
              weaken-Ends _ (pass_equals-Ends f (p + 1) (ground arith) (omega arith))
                λ q r. (omega arith, r.1))
        | inr t ↦ rw t (pass-Ends (p + 1) (omega arith, omega arith))
      ]

  att_value-Ends :
      (p : ℕ) → p ≤ n → Ends n (λ v. (v.0 + v.1 ≤ n) × (p ≤ v.2) × (v.2 ≤ n)) (att_value buf n p)
  unfolding att_value
  att_value-Ends p h = bind-Ends (read buf p) _ (read-Ends p h) λ sep _.
      elim (Bool-cases (sep == b'\'' || sep == b'"')) [
        | inl t ↦ rw t (
            bind-Ends (stop_if _) _ (stop_if-Ends _) λ _ e.
              bind-Ends (advance_while buf n (fuel buf n) (λ c. not (c == sep)) 0 (p + 1)) _
                (advance_while-Ends _ _ 0 (p + 1) (ground arith) (omega arith))
                λ q r. pass-Ends _ (omega arith, omega arith, r.1))
        | inr t ↦ rw t (
            bind-Ends (advance_while buf n (fuel buf n) _ 0 p) _
              (advance_while-Ends _ _ 0 p h (omega arith))
              λ q r. pass-Ends _ (omega arith, r.0, r.1))
      ]

  att-Ends : (p : ℕ) → p < n → Ends n (λ q. (p ≤ q) × (q ≤ n)) (att buf n p)
  unfolding att
  att-Ends p h =
      bind-Ends (advance_while buf n (fuel buf n) _ 0 p) _
        (advance_while-Ends _ _ 0 p (omega arith) (omega arith))
        λ q a.
          let inside : q < n = a.2 h in
          bind-Ends (pass_equals buf n (fuel buf n) q) _ (pass_equals-Ends _ q inside (omega arith))
            λ r b.
              bind-Ends (advance_while buf n (fuel buf n) is_white_space 0 r) _
                (advance_while-Ends _ _ 0 r b.1 (omega arith))
                λ s c. bind-Ends (att_value buf n s) _ (att_value-Ends s c.1) λ v d.
                  bind-Ends (emit _) _ (emit-Ends _ (omega arith, d.0))
                    λ _ _. pass-Ends _ (omega arith, d.2)

  pub parseatt-Ends :
      (f p : ℕ) → p ≤ n + 1 → n + 1 < f + p → Ends n (λ q. (p ≤ q) × (q < n)) (parseatt buf n f p)
  unfolding parseatt
  parseatt-Ends zero p h k = absurd (omega arith)
  parseatt-Ends (suc f) p h k = bind-Ends (stop_if _) _ (stop_if-Ends _) λ _ e.
      let inside : p < n = ground arith in
      bind-Ends (read buf p) _ (read-Ends p (omega arith)) λ c _.
        elim (Bool-cases (c == b'/' || c == b'>')) [
          | inl t ↦ rw t (pass-Ends p (omega arith, inside))
          | inr t ↦ elim (Bool-cases (is_white_space c)) [
            | inl w ↦
                rw (t, w)
                  (weaken-Ends _ (parseatt-Ends f (p + 1) (omega arith) (omega arith))
                    λ q r. (omega arith, r.1))
            | inr w ↦
                rw (t, w)
                  (bind-Ends (att buf n p) _ (att-Ends p inside) λ q r.
                    weaken-Ends _ (parseatt-Ends f (q + 1) (omega arith) (omega arith))
                      λ s v. (omega arith, v.1))
          ]
        ]
