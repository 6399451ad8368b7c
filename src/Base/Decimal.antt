-- ===== src/Base/Decimal.antt =====
-- Decimal numbers in C strings: what `%u` prints, and what `atoi` and `strtoul` read.
use Prim.Native.Nat.{ℕ, zero, suc, ◌+◌, ◌-◌, ◌*◌, ◌/◌, ◌%◌, ◌^◌, ◌≤◌, ◌<◌}
use mathlib.Core.Path.{◌≡◌, refl, sym, ap, ◌∙◌}
use mathlib.Core.Logic.{inl, inr}
use mathlib.Core.Bool.{Bool, true, false, ◌&&◌, ◌||◌}
use mathlib.Core.List.{[], ◌∷◌, ◌++◌}
use native.Mathlib.Omega.{arith}
use miniupnpd_sdn.Base.Tests.{ltb, leb, ◌==◌, if◌then◌else◌, Bool-cases}
use miniupnpd_sdn.Base.Lists.{Bytes, length}

abbrev pub is_digit : ℕ → Bool
is_digit c = leb b'0' c && leb c b'9'

-- `isspace` in the C locale.
abbrev pub is_blank : ℕ → Bool
is_blank c = c == b' ' || leb 9 c && leb c 13

abbrev pub digits : ℕ → ℕ → Bytes → Bytes
digits zero n acc = acc
digits (suc k) n acc =
    let more = digits k (n / 10) ((b'0' + n % 10) ∷ acc) in
    if ltb n 10 then (b'0' + n % 10) ∷ acc else more

-- A number below 2 ^ 64 has at most 20 digits.
unfoldable pub decimal : ℕ → Bytes
decimal n = digits 20 n []

-- The value of the digits at the start.
unfoldable pub digits_value : ℕ → Bytes → ℕ
digits_value acc [] = acc
digits_value acc (c ∷ s) =
    let more = digits_value (acc * 10 + (c - b'0')) s in if is_digit c then more else acc

-- What `strtol` and `strtoul` read in base ten: whether there is a minus sign, and the digits' value.
unfoldable pub signed_value : Bytes → Bool × ℕ
signed_value [] = (false, 0)
signed_value (c ∷ s) =
    if c == b'-'
    then (true, digits_value 0 s)
    else if c == b'+'
    then (false, digits_value 0 s)
    else (false, digits_value 0 (c ∷ s))

unfoldable pub skip_blanks : Bytes → Bytes
skip_blanks [] = []
skip_blanks (c ∷ s) = if is_blank c then skip_blanks s else c ∷ s

-- `(unsigned short)atoi(s)`: the value that strtol bounds to a long, cut to 16 bits.
unfoldable pub atoi_ushort : Bytes → ℕ
atoi_ushort s =
    let (negative, v) = signed_value (skip_blanks s) in
    if negative
    then (2 ^ 64 - (if leb v (2 ^ 63) then v else 2 ^ 63)) % 65536
    else (if ltb v (2 ^ 63) then v else 2 ^ 63 - 1) % 65536

-- `(unsigned int)strtoul(s, NULL, 10)`
unfoldable pub strtoul_uint : Bytes → ℕ
strtoul_uint s =
    let (negative, v) = signed_value (skip_blanks s) in
    if ltb v (2 ^ 64) then (if negative then (2 ^ 64 - v) % 2 ^ 32 else v % 2 ^ 32) else 2 ^ 32 - 1

pow_ten : (k : ℕ) → 10 ^ suc k ≡ 10 * 10 ^ k
pow_ten k = omega arith

length-digits :
    (fuel k n : ℕ) (acc : Bytes) → n < 10 ^ suc k → length (digits fuel n acc) ≤ suc k + length acc
length-digits zero k n acc h = omega arith
length-digits (suc fuel) zero n acc h = elim (Bool-cases (ltb n 10)) [
  | inl e ↦ rw e (omega arith)
  | inr e ↦ absurd (ground arith)
]
length-digits (suc fuel) (suc k) n acc h = elim (Bool-cases (ltb n 10)) [
  | inl e ↦ rw e (omega arith)
  | inr e ↦ rw e (
      omega (
        arith,
        length-digits fuel k (n / 10) ((b'0' + n % 10) ∷ acc) (omega (arith, pow_ten (suc k), h)),
      ))
]

pub length-decimal : (k n : ℕ) → n < 10 ^ suc k → length (decimal n) ≤ suc k
unfolding decimal
length-decimal k n h = omega (arith, length-digits 20 k n [] h)

digit_step :
    (d a : ℕ) (acc : Bytes)
    → d < 10
    → digits_value a ((b'0' + d) ∷ acc) ≡ digits_value (a * 10 + d) acc
unfolding digits_value
digit_step d a acc h =
    let e : is_digit (b'0' + d) ≡ true = ground arith in
    let v : a * 10 + (b'0' + d - b'0') ≡ a * 10 + d = omega arith in rw (e, v) refl

-- The digits of a number spell it.
digits_value-digits :
    (k n : ℕ) (acc : Bytes)
    → n < 10 ^ suc k
    → digits_value 0 (digits (suc k) n acc) ≡ digits_value n acc
digits_value-digits zero n acc h =
    let e : ltb n 10 ≡ true = ground arith in
    rw e
      (digit_step (n % 10) 0 acc (omega arith) ∙ ap (λ (t : ℕ). digits_value t acc) (omega arith))
digits_value-digits (suc k) n acc h = elim (Bool-cases (ltb n 10)) [
  | inl e ↦
      rw e (
        digit_step (n % 10) 0 acc (omega arith) ∙ ap (λ (t : ℕ). digits_value t acc) (ground arith))
  | inr e ↦ rw e (
      digits_value-digits k (n / 10) ((b'0' + n % 10) ∷ acc) (omega (arith, pow_ten (suc k)))
      ∙ digit_step (n % 10) (n / 10) acc (omega arith)
      ∙ ap (λ (t : ℕ). digits_value t acc) (omega arith))
]

-- They start with a digit.
record Starts (s : Bytes) : Type 0 where
  pub c : ℕ
  pub t : Bytes
  pub is : s ≡ c ∷ t
  pub digit : is_digit c ≡ true

Starts-digits : (k n c : ℕ) (t : Bytes) → is_digit c ≡ true → Starts (digits k n (c ∷ t))
Starts-digits zero n c t h = record { c = c; t = t; is = refl; digit = h }
Starts-digits (suc k) n c t h =
    let d : is_digit (b'0' + n % 10) ≡ true = ground arith in
    elim (Bool-cases (ltb n 10)) [
      | inl e ↦ rw e (record { c = b'0' + n % 10; t = c ∷ t; is = refl; digit = d })
      | inr e ↦ rw e (Starts-digits k (n / 10) (b'0' + n % 10) (c ∷ t) d)
    ]

Starts-decimal : (n : ℕ) → Starts (decimal n)
unfolding decimal
Starts-decimal n =
    let d : is_digit (b'0' + n % 10) ≡ true = ground arith in
    elim (Bool-cases (ltb n 10)) [
      | inl e ↦ rw e (record { c = b'0' + n % 10; t = []; is = refl; digit = d })
      | inr e ↦ rw e (Starts-digits 19 (n / 10) (b'0' + n % 10) [] d)
    ]

signed_value-digit :
    (c : ℕ) (t : Bytes)
    → is_digit c ≡ true
    → signed_value (skip_blanks (c ∷ t)) ≡ (false, digits_value 0 (c ∷ t))
unfolding signed_value skip_blanks
signed_value-digit c t h =
    let b : is_blank c ≡ false = ground arith in
    let m : (c == b'-') ≡ false = ground arith in
    let p : (c == b'+') ≡ false = ground arith in rw (b, m, p) refl

signed_value-decimal : (n : ℕ) → n < 10 ^ 20 → signed_value (skip_blanks (decimal n)) ≡ (false, n)
unfolding decimal digits_value
signed_value-decimal n h =
    let s = Starts-decimal n in
    ap (λ w. signed_value (skip_blanks w)) s.is
    ∙ signed_value-digit s.c s.t s.digit
    ∙ ap (λ w. (false, digits_value 0 w)) (sym s.is)
    ∙ ap (λ v. (false, v)) (digits_value-digits 19 n [] h)

pub atoi_ushort-decimal : (n : ℕ) → n < 65536 → atoi_ushort (decimal n) ≡ n
unfolding atoi_ushort
atoi_ushort-decimal n h = rw (signed_value-decimal n (omega arith)) (ground arith)

pub strtoul_uint-decimal : (n : ℕ) → n < 2 ^ 32 → strtoul_uint (decimal n) ≡ n
unfolding strtoul_uint
strtoul_uint-decimal n h = rw (signed_value-decimal n (omega arith)) (ground arith)

-- A byte that is no digit is not among the bytes of a number.
abbrev pub Lacks : ℕ → Bytes → Type 0
Lacks b [] = Unit {0}
Lacks b (c ∷ s) = ((c == b) ≡ false) × Lacks b s

Lacks-digits :
    (b k n : ℕ) (acc : Bytes) → is_digit b ≡ false → Lacks b acc → Lacks b (digits k n acc)
Lacks-digits b zero n acc h l = l
Lacks-digits b (suc k) n acc h l =
    let d : ((b'0' + n % 10) == b) ≡ false = ground arith in
    elim (Bool-cases (ltb n 10)) [
      | inl e ↦ rw e (d, l)
      | inr e ↦ rw e (Lacks-digits b k (n / 10) ((b'0' + n % 10) ∷ acc) h (d, l))
    ]

pub Lacks-decimal : (b n : ℕ) → is_digit b ≡ false → Lacks b (decimal n)
unfolding decimal
Lacks-decimal b n h = Lacks-digits b 20 n [] h tt

digits-append : (k n : ℕ) (acc w : Bytes) → digits k n acc ++ w ≡ digits k n (acc ++ w)
digits-append zero n acc w = refl
digits-append (suc k) n acc w = elim (Bool-cases (ltb n 10)) [
  | inl e ↦ rw e refl
  | inr e ↦ rw e (digits-append k (n / 10) ((b'0' + n % 10) ∷ acc) w)
]

-- The number ends before a byte that is no digit.
pub atoi_ushort-decimal_before :
    (n c : ℕ) (w : Bytes) → n < 65536 → is_digit c ≡ false → atoi_ushort (decimal n ++ (c ∷ w)) ≡ n
unfolding atoi_ushort decimal digits_value
atoi_ushort-decimal_before n c w h d =
    let s = Starts-decimal n in
    let v : digits_value 0 (digits 20 n [] ++ (c ∷ w)) ≡ n =
      ap (λ t. digits_value 0 t) (digits-append 20 n [] (c ∷ w))
      ∙ digits_value-digits 19 n (c ∷ w) (omega arith)
      ∙ rw d refl in
    let r : signed_value (skip_blanks (digits 20 n [] ++ (c ∷ w))) ≡ (false, n) =
      ap (λ t. signed_value (skip_blanks (t ++ (c ∷ w)))) s.is
      ∙ signed_value-digit s.c (s.t ++ (c ∷ w)) s.digit
      ∙ ap (λ t. (false, digits_value 0 (t ++ (c ∷ w)))) (sym s.is)
      ∙ ap (λ (t : ℕ). (false, t)) v in
    rw r (ground arith)
