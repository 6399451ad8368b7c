-- ===== src/Sdn/Fields/Letters.antt =====
-- miniupnpd/sdn/iptcrdr.c: cmpCaseInsensitive is the equality of names up to the case of letters.
use miniupnpd_sdn.Base.{
  ℕ, suc, ◌+◌, ◌≡◌, ◌≢◌, ◌⊎◌, refl, ap, inl, inr, Bool, true, false, ◌&&◌, ◌||◌, [], ◌∷◌, Bytes,
  leb, ◌==◌, if◌then◌else◌, length, get_or, drop, Bool-cases, arith,
}
use miniupnpd_sdn.Base.Ints.{ℤ, pos, negsuc}
use miniupnpd_sdn.Sdn.Fields.{differs, cmp_case_insensitive, compare_from}

abbrev pub is_upper : ℕ → Bool
is_upper c = leb b'A' c && leb c b'Z'

abbrev pub is_lower : ℕ → Bool
is_lower c = leb b'a' c && leb c b'z'

abbrev pub to_lower : ℕ → ℕ
to_lower c = if is_upper c then c + 32 else c

abbrev pub lower_case : Bytes → Bytes
lower_case [] = []
lower_case (c ∷ s) = to_lower c ∷ lower_case s

abbrev pub AllLetters : Bytes → Type 0
AllLetters [] = Unit {0}
AllLetters (c ∷ s) = ((is_upper c || is_lower c) ≡ true) × AllLetters s

differs-to_lower :
    (a b : ℕ)
    → (is_upper a || is_lower a) ≡ true
    → (is_upper b || is_lower b) ≡ true
    → (differs a b ≡ false × to_lower a ≡ to_lower b)
      ⊎ (differs a b ≡ true × to_lower a ≢ to_lower b)
unfolding differs
differs-to_lower a b h k = ground arith

length-lower_case : (s : Bytes) → length (lower_case s) ≡ length s
length-lower_case [] = refl
length-lower_case (c ∷ s) = ap suc (length-lower_case s)

differ : (a b : Bytes) → (length a == length b) ≡ false → length a ≡ length b → ⊥
differ a b e q = ground arith

-- The code's answer is 0, and the names are equal, or it is -1 and they are not.
abbrev pub Decides : ℤ → Bytes → Bytes → Type 0
Decides r a b =
    (r ≡ pos 0 × lower_case a ≡ lower_case b) ⊎ (r ≡ negsuc 0 × lower_case a ≢ lower_case b)

compare_from-Decides :
    (a b : Bytes)
    → AllLetters a
    → AllLetters b
    → length a ≡ length b
    → Decides (compare_from a b) a b
compare_from-Decides [] [] h k e = inl (refl, refl)
compare_from-Decides [] (y ∷ b) h k e = absurd (omega arith)
compare_from-Decides (x ∷ a) [] h k e = absurd (omega arith)
compare_from-Decides (x ∷ a) (y ∷ b) h k e = elim (differs-to_lower x y h.0 k.0) [
  | inl (f, g) ↦ rw f (elim (compare_from-Decides a b h.1 k.1 (omega arith)) [
    | inl (f', g') ↦ inl (f', cc)
    | inr (f', g') ↦ inr (f', λ q. g' (ap (drop 1) q))
  ])
  | inr (f, g) ↦ rw f (inr (refl, λ q. g (ap (λ s. get_or s 0 0) q)))
]

-- On names made of letters the result is 0 where the names are equal when upper case letters are
-- replaced by lower case ones, and -1 where they are not.
pub cmp_case_insensitive-Decides :
    (a b : Bytes) → AllLetters a → AllLetters b → Decides (cmp_case_insensitive a b) a b
unfolding cmp_case_insensitive
cmp_case_insensitive-Decides a b h k = elim (Bool-cases (length a == length b)) [
  | inl e ↦ rw e (compare_from-Decides a b h k (ground arith))
  | inr e ↦ rw e (
      inr (
        refl,
        λ q. differ a b e (omega (arith, ap length q, length-lower_case a, length-lower_case b)),
      ))
]
