-- ===== src/Events/Cells.antt =====
-- miniupnpd/upnpevents.c: a list of structures at their addresses. An address counts the allocations,
-- and a new structure goes to the head, so the addresses fall along the list.
use miniupnpd_sdn.Base.{
  ℕ, ◌<◌, ◌≤◌, ◌≡◌, refl, ap, ◌∙◌, sym, inl, inr, Bool, true, false, List, [], ◌∷◌, Option, none,
  some, ◌==◌, if◌then◌else◌, Bool-cases, arith,
}
use miniupnpd_sdn.Base.Options.{none-some}

module _ {V : Type 0} where
  -- The structure at an address, none where there is none.
  abbrev pub find : List (ℕ × V) → ℕ → Option V
  find [] n = none
  find ((m, v) ∷ l) n = let more = find l n in if m == n then some v else more

  abbrev pub modify : ℕ → (V → V) → List (ℕ × V) → List (ℕ × V)
  modify n f [] = []
  modify n f ((m, v) ∷ l) = (m, if m == n then f v else v) ∷ modify n f l

  abbrev pub delete : ℕ → List (ℕ × V) → List (ℕ × V)
  delete n [] = []
  delete n ((m, v) ∷ l) = let more = delete n l in if m == n then more else (m, v) ∷ more

  -- The addresses, in the order of the list.
  abbrev pub addresses : List (ℕ × V) → List ℕ
  addresses [] = []
  addresses ((m, v) ∷ l) = m ∷ addresses l

  -- They fall from below a bound on.
  abbrev pub Below : ℕ → List (ℕ × V) → Type 0
  Below n [] = Unit {0}
  Below n ((m, v) ∷ l) = (m < n) × Below m l

  pub Below-modify : (k n : ℕ) (f : V → V) (l : List (ℕ × V)) → Below k l → Below k (modify n f l)
  Below-modify k n f [] h = tt
  Below-modify k n f ((m, v) ∷ l) h = (h.0, Below-modify m n f l h.1)

  pub Below-more : (k m : ℕ) (l : List (ℕ × V)) → k ≤ m → Below k l → Below m l
  Below-more k m [] le h = tt
  Below-more k m ((n, v) ∷ l) le h = (omega (arith, h.0), h.1)

  pub Below-delete : (k n : ℕ) (l : List (ℕ × V)) → Below k l → Below k (delete n l)
  Below-delete k n [] h = tt
  Below-delete k n ((m, v) ∷ l) h = elim (Bool-cases (m == n)) [
    | inl e ↦ rw e (Below-more m k (delete n l) (omega (arith, h.0)) (Below-delete m n l h.1))
    | inr e ↦ rw e (h.0, Below-delete m n l h.1)
  ]

  abbrev pub or_modify : Bool → (V → V) → Option V → Option V
  or_modify c f none = none
  or_modify c f (some v) = some (if c then f v else v)

  pub find-modify :
      (n : ℕ) (f : V → V) (l : List (ℕ × V)) (m : ℕ)
      → find (modify n f l) m ≡ or_modify (n == m) f (find l m)
  find-modify n f [] m = refl
  find-modify n f ((k, v) ∷ l) m = elim (Bool-cases (k == m)) [
    | inl e ↦ let same : (k == n) ≡ (n == m) = ground arith in rw (e, same) refl
    | inr e ↦ rw e (find-modify n f l m)
  ]

  pub find-delete :
      (n : ℕ) (l : List (ℕ × V)) (m : ℕ) → find (delete n l) m ≡ (if n == m then none else find l m)
  find-delete n [] m = ground arith
  find-delete n ((k, v) ∷ l) m = ground (arith, find-delete n l m)

-- What the structures' pointers point at, as a map of addresses.
module _ {V : Type 0} (link : V → Option ℕ) where
  abbrev pub linked : Option V → Option ℕ
  linked none = none
  linked (some v) = link v

  abbrev pub target_of : List (ℕ × V) → ℕ → Option ℕ
  target_of l n = linked (find l n)

  -- A change that leaves the pointer alone.
  pub target_of-modify :
      (n : ℕ) (f : V → V) (l : List (ℕ × V)) (m : ℕ)
      → ((v : V) → link (f v) ≡ link v)
      → target_of (modify n f l) m ≡ target_of l m
  target_of-modify n f l m h = ap linked (find-modify n f l m) ∙ same (n == m) (find l m)
    where
      same : (b : Bool) (o : Option V) → linked (or_modify b f o) ≡ linked o
      same b none = refl
      same true (some v) = h v
      same false (some v) = refl

  -- The pointer is cleared.
  pub target_of-clear :
      (n : ℕ) (f : V → V) (l : List (ℕ × V)) (m : ℕ)
      → ((v : V) → link (f v) ≡ none)
      → target_of (modify n f l) m ≡ (if n == m then none else target_of l m)
  target_of-clear n f l m h = ap linked (find-modify n f l m) ∙ cleared (n == m) (find l m)
    where
      cleared :
          (b : Bool) (o : Option V) → linked (or_modify b f o) ≡ (if b then none else linked o)
      cleared true none = refl
      cleared false none = refl
      cleared true (some v) = h v
      cleared false (some v) = refl

  -- The pointer of a structure that is there is set.
  pub target_of-set :
      (n k : ℕ) (f : V → V) (l : List (ℕ × V)) (m : ℕ) (v : V)
      → find l n ≡ some v
      → ((w : V) → link (f w) ≡ some k)
      → target_of (modify n f l) m ≡ (if n == m then some k else target_of l m)
  target_of-set n k f l m v there h = elim (Bool-cases (n == m)) [
    | inl e ↦
        let same : n ≡ m = ground arith in
        rw e (
          ap linked (find-modify n f l m)
          ∙ ap (λ o. linked (or_modify (n == m) f o)) (ap (λ (i : ℕ). find l i) (sym same) ∙ there)
          ∙ rw e (h v))
    | inr e ↦ rw e (ap linked (find-modify n f l m) ∙ rw e (same_option (find l m)))
  ]
    where
      same_option : (o : Option V) → linked (or_modify false f o) ≡ linked o
      same_option none = refl
      same_option (some w) = refl

  pub target_of-delete :
      (n : ℕ) (l : List (ℕ × V)) (m : ℕ)
      → target_of (delete n l) m ≡ (if n == m then none else target_of l m)
  target_of-delete n l m = elim (Bool-cases (n == m)) [
    | inl e ↦ rw e (ap linked (find-delete n l m) ∙ rw e refl)
    | inr e ↦ rw e (ap linked (find-delete n l m) ∙ rw e refl)
  ]

  pub target_of-insert :
      (n : ℕ) (v : V) (l : List (ℕ × V)) (m : ℕ)
      → target_of ((n, v) ∷ l) m ≡ (if n == m then link v else target_of l m)
  target_of-insert n v l m = elim (Bool-cases (n == m)) [ inl e ↦ rw e refl | inr e ↦ rw e refl ]

  pub target_of-some :
      (l : List (ℕ × V)) (n k : ℕ)
      → target_of l n ≡ some k
      → (v : V) × (find l n ≡ some v) × (link v ≡ some k)
  target_of-some l n k h = of_option (find l n) h
    where
      of_option : (o : Option V) → linked o ≡ some k → (v : V) × (o ≡ some v) × (link v ≡ some k)
      of_option none e = absurd (none-some k e)
      of_option (some v) e = (v, refl, e)

pub some_is : {V : Type 0} (v w : V) → some v ≡ some w → v ≡ w
some_is v w h = cc

module _ {V : Type 0} (P : V → Type 0) where
  -- Of each structure.
  abbrev pub Each : List (ℕ × V) → Type 0
  Each [] = Unit {0}
  Each ((m, v) ∷ l) = P v × Each l

  pub Each-modify :
      (n : ℕ) (f : V → V) (l : List (ℕ × V))
      → ((v : V) → P v → P (f v))
      → Each l
      → Each (modify n f l)
  Each-modify n f [] h e = tt
  Each-modify n f ((m, v) ∷ l) h e = elim (Bool-cases (m == n)) [
    | inl x ↦ rw x (h v e.0, Each-modify n f l h e.1)
    | inr x ↦ rw x (e.0, Each-modify n f l h e.1)
  ]

  pub Each-delete : (n : ℕ) (l : List (ℕ × V)) → Each l → Each (delete n l)
  Each-delete n [] e = tt
  Each-delete n ((m, v) ∷ l) e = elim (Bool-cases (m == n)) [
    | inl x ↦ rw x (Each-delete n l e.1)
    | inr x ↦ rw x (e.0, Each-delete n l e.1)
  ]

  pub Each-find : (n : ℕ) (l : List (ℕ × V)) (v : V) → Each l → find l n ≡ some v → P v
  Each-find n [] v e h = absurd (none-some v h)
  Each-find n ((m, w) ∷ l) v e h = elim (Bool-cases (m == n)) [
    | inl x ↦ let same : w ≡ v = some_is w v (rw x at h) in rw (sym same) e.0
    | inr x ↦ Each-find n l v e.1 (rw x at h)
  ]

-- Nothing is at an address that has not been given out.
pub find-Below : {V : Type 0} (k n : ℕ) (l : List (ℕ × V)) → Below k l → k ≤ n → find l n ≡ none
find-Below k n [] h le = refl
find-Below k n ((m, v) ∷ l) h le =
    let other : (m == n) ≡ false = ground (arith, h.0) in
    rw other (find-Below m n l h.1 (omega (arith, h.0)))
