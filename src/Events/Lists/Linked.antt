-- ===== src/Events/Lists/Linked.antt =====
-- miniupnpd/upnpevents.c: the pointers of subscribers and notifications point back at each other.
use miniupnpd_sdn.Base.{
  ℕ, ◌≡◌, refl, ap, ◌∙◌, sym, inl, inr, true, false, Option, none, some, ◌==◌, if◌then◌else◌,
  Bool-cases, arith,
}
use miniupnpd_sdn.Base.Options.{none-some}
use miniupnpd_sdn.Events.Cells.{Each, Below, target_of}
use miniupnpd_sdn.Events.Callback.{Target, read_callback}
use miniupnpd_sdn.Events.Lists.{Entry, Obj, Events}

-- Two maps of pointers: each points back where it is pointed at from.
pub record Mutual (S O : ℕ → Option ℕ) : Type 0 where
  pub forth : (n a : ℕ) → O n ≡ some a → S a ≡ some n
  pub back : (a n : ℕ) → S a ≡ some n → O n ≡ some a

some_same : (a b : ℕ) → some a ≡ some b → a ≡ b
some_same a b h = ground arith

differ : (a b : ℕ) → (a == b) ≡ false → a ≡ b → ⊥
differ a b h e = ground arith

pub Mutual-swap : (S O : ℕ → Option ℕ) → Mutual S O → Mutual O S
Mutual-swap S O m = record { forth = m.back; back = m.forth }

pub Mutual-same :
    (S O S' O' : ℕ → Option ℕ)
    → Mutual S O
    → ((x : ℕ) → S' x ≡ S x)
    → ((y : ℕ) → O' y ≡ O y)
    → Mutual S' O'
Mutual-same S O S' O' m s o = record {
  forth = λ n a h. s a ∙ m.forth n a (sym (o n) ∙ h);
  back = λ a n h. o n ∙ m.back a n (sym (s a) ∙ h);
}

forth_drop :
    (S O S' O' : ℕ → Option ℕ) (a n : ℕ)
    → Mutual S O
    → S a ≡ some n
    → ((x : ℕ) → S' x ≡ (if a == x then none else S x))
    → ((y : ℕ) → O' y ≡ (if n == y then none else O y))
    → (k b : ℕ) → O' k ≡ some b
    → S' b ≡ some k
forth_drop S O S' O' a n m e s o k b h = elim (Bool-cases (n == k)) [
  | inl x ↦ absurd (none-some b (sym (o k ∙ rw x refl) ∙ h))
  | inr x ↦
      let there : S b ≡ some k = m.forth k b (sym (o k ∙ rw x refl) ∙ h) in
      elim (Bool-cases (a == b)) [
        | inl y ↦
            let same : a ≡ b = ground arith in
            absurd (differ n k x (some_same n k (sym e ∙ ap S same ∙ there)))
        | inr y ↦ s b ∙ rw y there
      ]
]

-- A pair is taken apart.
pub Mutual-drop :
    (S O S' O' : ℕ → Option ℕ) (a n : ℕ)
    → Mutual S O
    → S a ≡ some n
    → ((x : ℕ) → S' x ≡ (if a == x then none else S x))
    → ((y : ℕ) → O' y ≡ (if n == y then none else O y))
    → Mutual S' O'
Mutual-drop S O S' O' a n m e s o = record {
  forth = forth_drop S O S' O' a n m e s o;
  back = forth_drop O S O' S' n a (Mutual-swap S O m) (m.back a n e) o s;
}

-- One that points nowhere is taken out.
pub Mutual-drop_idle :
    (S O S' : ℕ → Option ℕ) (a : ℕ)
    → Mutual S O
    → S a ≡ none
    → ((x : ℕ) → S' x ≡ (if a == x then none else S x))
    → Mutual S' O
Mutual-drop_idle S O S' a m e s = Mutual-same S O S' O m same (λ y. refl)
  where
    same : (x : ℕ) → S' x ≡ S x
    same x = elim (Bool-cases (a == x)) [
      | inl h ↦ let at : a ≡ x = ground arith in s x ∙ rw h (sym e ∙ ap S at)
      | inr h ↦ s x ∙ rw h refl
    ]

forth_add :
    (S O S' O' : ℕ → Option ℕ) (a n : ℕ)
    → Mutual S O
    → S a ≡ none
    → ((x : ℕ) → S' x ≡ (if a == x then some n else S x))
    → ((y : ℕ) → O' y ≡ (if n == y then some a else O y))
    → (k b : ℕ) → O' k ≡ some b
    → S' b ≡ some k
forth_add S O S' O' a n m e s o k b h = elim (Bool-cases (n == k)) [
  | inl x ↦
      let at : a ≡ b = some_same a b (sym (o k ∙ rw x refl) ∙ h) in
      let nk : n ≡ k = ground arith in
      let ab : (a == b) ≡ true = ground arith in s b ∙ rw ab (ap some nk)
  | inr x ↦
      let there : S b ≡ some k = m.forth k b (sym (o k ∙ rw x refl) ∙ h) in
      elim (Bool-cases (a == b)) [
        | inl y ↦
            let same : a ≡ b = ground arith in absurd (none-some k (sym e ∙ ap S same ∙ there))
        | inr y ↦ s b ∙ rw y there
      ]
]

-- Two that point nowhere are joined.
pub Mutual-add :
    (S O S' O' : ℕ → Option ℕ) (a n : ℕ)
    → Mutual S O
    → S a ≡ none
    → O n ≡ none
    → ((x : ℕ) → S' x ≡ (if a == x then some n else S x))
    → ((y : ℕ) → O' y ≡ (if n == y then some a else O y))
    → Mutual S' O'
Mutual-add S O S' O' a n m e f s o = record {
  forth = forth_add S O S' O' a n m e s o;
  back = forth_add O S O' S' n a (Mutual-swap S O m) f o s;
}

abbrev pub sub_target : Events → ℕ → Option ℕ
sub_target s a = target_of (λ (e : Entry). e.notify) s.subscriberlist a

abbrev pub obj_target : Events → ℕ → Option ℕ
obj_target s n = target_of (λ (o : Obj). o.sub) s.notifylist n

-- The URL is read without a fault.
abbrev pub IsReadable : Entry → Type 0
IsReadable e = (t : Target) × (read_callback e.subscriber.callback ≡ some t)

pub record Linked (s : Events) : Type 0 where
  pub pointers : Mutual (sub_target s) (obj_target s)
  pub subs_below : Below s.next s.subscriberlist
  pub objs_below : Below s.next s.notifylist
  pub readable : Each IsReadable s.subscriberlist
