-- ===== src/Events/Pending.antt =====
-- miniupnpd/upnpevents.c: the structures that a loop has still to go to, and those that it is done with.
use miniupnpd_sdn.Base.{
  ℕ, ◌≤◌, ◌≡◌, refl, ◌∙◌, sym, inl, inr, false, List, [], ◌∷◌, some, ◌⊎◌, ◌==◌, Bool-cases, arith,
}
use miniupnpd_sdn.Base.Options.{none-some}
use miniupnpd_sdn.Events.Cells.{find, modify, delete, addresses, Below, find-Below, Each}

abbrev pub Among : ℕ → List ℕ → Type 0
Among m [] = ⊥
Among m (a ∷ more) = (m ≡ a) ⊎ Among m more

module _ {V : Type 0} (P : V → Type 0) where
  -- Each structure has the property, or its address is to come.
  abbrev pub Pending : List ℕ → List (ℕ × V) → Type 0
  Pending more [] = Unit {0}
  Pending more ((m, v) ∷ l) = (P v ⊎ Among m more) × Pending more l

  later : (v : V) (m a : ℕ) (more : List ℕ) → P v ⊎ Among m more → P v ⊎ Among m (a ∷ more)
  later v m a more (inl p) = inl p
  later v m a more (inr w) = inr (inr w)

  Pending-later : (a : ℕ) (more : List ℕ) (l : List (ℕ × V)) → Pending more l → Pending (a ∷ more) l
  Pending-later a more [] h = tt
  Pending-later a more ((m, v) ∷ l) h = (later v m a more h.0, Pending-later a more l h.1)

  pub addresses-Pending : (l : List (ℕ × V)) → Pending (addresses l) l
  addresses-Pending [] = tt
  addresses-Pending ((m, v) ∷ l) =
      (inr (inl refl), Pending-later m (addresses l) l (addresses-Pending l))

  pub Pending-Each : (l : List (ℕ × V)) → Pending [] l → Each P l
  Pending-Each [] h = tt
  Pending-Each ((m, v) ∷ l) h = (done h.0, Pending-Each l h.1)
    where
      done : P v ⊎ Among m [] → P v
      done (inl p) = p
      done (inr w) = absurd w

  other :
      (v : V) (m a : ℕ) (more : List ℕ)
      → (m == a) ≡ false
      → P v ⊎ Among m (a ∷ more)
      → P v ⊎ Among m more
  other v m a more x (inl p) = inl p
  other v m a more x (inr (inl e)) = absurd (ground arith)
  other v m a more x (inr (inr w)) = inr w

  -- The structures at an address are gone, or have been given the property.
  pub Pending-delete :
      (a : ℕ) (more : List ℕ) (l : List (ℕ × V)) → Pending (a ∷ more) l → Pending more (delete a l)
  Pending-delete a more [] h = tt
  Pending-delete a more ((m, v) ∷ l) h = elim (Bool-cases (m == a)) [
    | inl x ↦ rw x (Pending-delete a more l h.1)
    | inr x ↦ rw x (other v m a more x h.0, Pending-delete a more l h.1)
  ]

  pub Pending-modify :
      (a : ℕ) (more : List ℕ) (f : V → V) (l : List (ℕ × V))
      → ((v : V) → P (f v))
      → Pending (a ∷ more) l
      → Pending more (modify a f l)
  Pending-modify a more f [] g h = tt
  Pending-modify a more f ((m, v) ∷ l) g h = elim (Bool-cases (m == a)) [
    | inl x ↦ rw x (inl (g v), Pending-modify a more f l g h.1)
    | inr x ↦ rw x (other v m a more x h.0, Pending-modify a more f l g h.1)
  ]

  -- The one at the address has the property: no other is at it.
  pub Pending-has :
      (k a : ℕ) (more : List ℕ) (l : List (ℕ × V))
      → Below k l
      → ((v : V) → find l a ≡ some v → P v)
      → Pending (a ∷ more) l
      → Pending more l
  Pending-has k a more [] b g h = tt
  Pending-has k a more ((m, v) ∷ l) b g h = elim (Bool-cases (m == a)) [
    | inl x ↦
        let le : m ≤ a = ground arith in
        (
          inl (g v (rw x refl)),
          Pending-has m a more l b.1
              (λ w e. absurd (none-some w (sym (find-Below m a l b.1 le) ∙ e))) h.1,
        )
    | inr x ↦ (other v m a more x h.0, Pending-has m a more l b.1 (λ w e. g w (rw x e)) h.1)
  ]
