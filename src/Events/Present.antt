-- ===== src/Events/Present.antt =====
-- miniupnpd/upnpevents.c: the addresses that a loop has still to go to.
use miniupnpd_sdn.Base.{
  ℕ, ◌<◌, ◌≤◌, ◌≡◌, refl, ap, ◌∙◌, inl, inr, true, false, List, [], ◌∷◌, some, ◌==◌, if◌then◌else◌,
  Bool-cases, arith,
}
use miniupnpd_sdn.Events.Cells.{
  find, modify, delete, addresses, Below, or_modify, find-modify, find-delete,
}

-- They fall from below a bound on.
abbrev pub Falling : ℕ → List ℕ → Type 0
Falling n [] = Unit {0}
Falling n (a ∷ more) = (a < n) × Falling a more

module _ {V : Type 0} where
  abbrev pub Has : List (ℕ × V) → ℕ → Type 0
  Has l a = (v : V) × (find l a ≡ some v)

  -- A structure is at each.
  abbrev pub Present : List ℕ → List (ℕ × V) → Type 0
  Present [] l = Unit {0}
  Present (a ∷ more) l = Has l a × Present more l

  Has-modify : (n a : ℕ) (f : V → V) (l : List (ℕ × V)) → Has l a → Has (modify n f l) a
  Has-modify n a f l h =
      (if n == a then f h.0 else h.0, find-modify n f l a ∙ ap (or_modify (n == a) f) h.1)

  pub Present-modify :
      (more : List ℕ) (n : ℕ) (f : V → V) (l : List (ℕ × V))
      → Present more l
      → Present more (modify n f l)
  Present-modify [] n f l h = tt
  Present-modify (a ∷ more) n f l h = (Has-modify n a f l h.0, Present-modify more n f l h.1)

  pub Present-delete :
      (more : List ℕ) (k n : ℕ) (l : List (ℕ × V))
      → Falling k more
      → k ≤ n
      → Present more l
      → Present more (delete n l)
  Present-delete [] k n l fall le h = tt
  Present-delete (a ∷ more) k n l fall le h =
      let other : (n == a) ≡ false = ground (arith, fall.0) in
      (
        (h.0.0, find-delete n l a ∙ rw other h.0.1),
        Present-delete more a n l fall.1 (omega (arith, fall.0)) h.1,
      )

  pub Has-more : (m : ℕ) (v : V) (a : ℕ) (l : List (ℕ × V)) → Has l a → Has ((m, v) ∷ l) a
  Has-more m v a l h = elim (Bool-cases (m == a)) [
    | inl e ↦ (v, rw e refl)
    | inr e ↦ (h.0, rw e h.1)
  ]

  pub Present-more :
      (more : List ℕ) (m : ℕ) (v : V) (l : List (ℕ × V))
      → Present more l
      → Present more ((m, v) ∷ l)
  Present-more [] m v l h = tt
  Present-more (a ∷ more) m v l h = (Has-more m v a l h.0, Present-more more m v l h.1)

  pub addresses-Present : (l : List (ℕ × V)) → Present (addresses l) l
  addresses-Present [] = tt
  addresses-Present ((m, v) ∷ l) =
      let same : (m == m) ≡ true = ground arith in
      ((v, rw same refl), Present-more (addresses l) m v l (addresses-Present l))

  pub addresses-Falling : (n : ℕ) (l : List (ℕ × V)) → Below n l → Falling n (addresses l)
  addresses-Falling n [] h = tt
  addresses-Falling n ((m, v) ∷ l) h = (h.0, addresses-Falling m l h.1)
