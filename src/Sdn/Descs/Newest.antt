-- ===== src/Sdn/Descs/Newest.antt =====
-- miniupnpd/sdn/iptcrdr.c: the list of descriptions read after a change of it.
use miniupnpd_sdn.Base.{
  &&-true, ℕ, zero, suc, ◌+◌, ◌-◌, ◌≤◌, ◌≡◌, ◌≢◌, ◌⊎◌, refl, sym, ap, ◌∙◌, inl, inr, true, false,
  ==_iff, List, [], ◌∷◌, ◌++◌, Bytes, length, take, drop, replicate, Bool-cases, arith,
}
use miniupnpd_sdn.Base.Ints.{ℤ, int_eq-≡}
use miniupnpd_sdn.Sdn.Descs.{RdrDesc, strncpy, is_at, del_redirect_desc, get_redirect_desc}

abbrev zeros : ℕ → Bytes
zeros n = replicate n 0

take-zeros : (n m : ℕ) → n ≤ m → take n (zeros m) ≡ zeros n
take-zeros zero m h = refl
take-zeros (suc n) zero h = absurd (omega arith)
take-zeros (suc n) (suc m) h = ap (λ s. 0 ∷ s) (take-zeros n m (omega arith))

same : (k n : ℕ) → 0 + k ≡ n → k ≡ n
same k n h = omega arith

take-padded :
    (src : Bytes) (n k m : ℕ)
    → length src + k ≡ n
    → n ≤ m
    → take n (src ++ zeros m) ≡ src ++ zeros k
take-padded [] n k m h le = rw⁻¹ (same k n h) (take-zeros k m (omega arith))
take-padded (c ∷ src) zero k m h le = absurd (omega arith)
take-padded (c ∷ src) (suc n) k m h le =
    ap (λ s. c ∷ s) (take-padded src n k m (omega arith) (omega arith))

-- A source that fits is copied whole and filled up with zeros.
pub strncpy_fits :
    (dst src : Bytes) (n : ℕ)
    → length src ≤ n
    → strncpy dst src n ≡ (src ++ replicate (n - length src) 0) ++ drop n dst
unfolding strncpy
strncpy_fits dst src n h =
    ap (λ s. s ++ drop n dst) (take-padded src n (n - length src) n (omega arith) (omega arith))

-- An entry stands at one key only.
is_at-one :
    (eport eport' : ℕ) (proto proto' : ℤ) (p : RdrDesc)
    → is_at eport proto p ≡ true
    → (eport ≢ eport') ⊎ (proto ≢ proto')
    → is_at eport' proto' p ≡ false
is_at-one eport eport' proto proto' p h ne =
    let here = &&-true _ _ h in
    elim (Bool-cases (is_at eport' proto' p)) [
      | inr f ↦ f
      | inl f ↦
          let there = &&-true _ _ f in
          elim ne [
            | inl e ↦
                absurd
                  (e (sym ((==_iff p.eport eport).0 here.0) ∙ (==_iff p.eport eport').0 there.0))
            | inr e ↦
                absurd (e (sym (int_eq-≡ p.proto proto here.1) ∙ int_eq-≡ p.proto proto' there.1))
          ]
    ]

-- Deleting at one port and protocol changes nothing that is read at another.
pub get_redirect_desc-del :
    (list : List RdrDesc) (eport eport' : ℕ) (proto proto' : ℤ) (desc : Bytes) (desclen : ℕ)
    → (eport ≢ eport') ⊎ (proto ≢ proto')
    → get_redirect_desc (del_redirect_desc list eport proto) eport' proto' desc desclen
      ≡ get_redirect_desc list eport' proto' desc desclen
unfolding get_redirect_desc del_redirect_desc
get_redirect_desc-del [] eport eport' proto proto' desc desclen ne = refl
get_redirect_desc-del (p ∷ list) eport eport' proto proto' desc desclen ne =
    let rest = get_redirect_desc-del list eport eport' proto proto' desc desclen ne in
    elim (Bool-cases (is_at eport proto p)) [
      | inl e ↦ rw (e, is_at-one eport eport' proto proto' p e ne) refl
      | inr e ↦
          rw e (elim (Bool-cases (is_at eport' proto' p)) [ inl f ↦ rw f refl | inr f ↦ rw f rest ])
    ]
