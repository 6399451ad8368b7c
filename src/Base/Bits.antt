-- ===== src/Base/Bits.antt =====
-- Single bits of a word under `|`, `&` and complement.
use Prim.Native.Nat.{
  ℕ, zero, suc, ◌+◌, ◌-◌, ◌*◌, ◌/◌, ◌%◌, ◌^◌, ◌≤◌, ◌<◌, min, max, bit_and, bit_or, digits,
  bit_and-bitwise, bit_or-bitwise,
}
use mathlib.Core.Path.{◌≡◌, refl, ◌∙◌, ap}
use mathlib.Core.Bool.{Bool, true, false, not, ◌&&◌, ◌||◌}
use native.Mathlib.Nat.{pow-suc, one-le-pow, le_refl}
use native.Mathlib.Omega.{arith}
use miniupnpd_sdn.Base.Tests.{◌==◌}

-- Bit `i` of `w`.
abbrev pub test_bit : ℕ → ℕ → Bool
test_bit w zero = w % 2 == 1
test_bit w (suc i) = test_bit (w / 2) i

-- `~w` in a word of `width` bits.
abbrev pub complement : ℕ → ℕ → ℕ
complement width w = 2 ^ width - 1 - w

pub test_bit-zero : (i : ℕ) → test_bit 0 i ≡ false
test_bit-zero zero = refl
test_bit-zero (suc i) = test_bit-zero i

low_digit : (d x i : ℕ) → x < 2 → test_bit (d * 2 + x) (suc i) ≡ test_bit d i
low_digit d x i h = ap (λ (t : ℕ). test_bit t i) (omega arith)

or_digits :
    (n a b i : ℕ) → a ≤ n → test_bit (digits (λ y. y) max n a b) i ≡ (test_bit a i || test_bit b i)
or_digits zero zero b i h = ground (arith, test_bit-zero i)
or_digits zero (suc a) b i h = absurd (omega arith)
or_digits (suc n) zero b i h = ground (arith, test_bit-zero i)
or_digits (suc n) (suc a) b zero h = ground arith
or_digits (suc n) (suc a) b (suc i) h =
    low_digit (digits (λ y. y) max n (suc a / 2) (b / 2)) (max (suc a % 2) (b % 2)) i (omega arith)
    ∙ or_digits n (suc a / 2) (b / 2) i (omega arith)

and_digits :
    (n a b i : ℕ) → a ≤ n → test_bit (digits (λ y. 0) min n a b) i ≡ (test_bit a i && test_bit b i)
and_digits zero zero b i h = ground (arith, test_bit-zero i)
and_digits zero (suc a) b i h = absurd (omega arith)
and_digits (suc n) zero b i h = ground (arith, test_bit-zero i)
and_digits (suc n) (suc a) b zero h = ground arith
and_digits (suc n) (suc a) b (suc i) h =
    low_digit (digits (λ y. 0) min n (suc a / 2) (b / 2)) (min (suc a % 2) (b % 2)) i (omega arith)
    ∙ and_digits n (suc a / 2) (b / 2) i (omega arith)

pub test_bit-or : (a b i : ℕ) → test_bit (bit_or a b) i ≡ (test_bit a i || test_bit b i)
test_bit-or a b i = simp bit_or-bitwise (or_digits a a b i (le_refl a))

pub test_bit-and : (a b i : ℕ) → test_bit (bit_and a b) i ≡ (test_bit a i && test_bit b i)
test_bit-and a b i = simp bit_and-bitwise (and_digits a a b i (le_refl a))

pub test_bit-pow : (k i : ℕ) → test_bit (2 ^ k) i ≡ (k == i)
test_bit-pow zero zero = refl
test_bit-pow zero (suc i) = ground (arith, test_bit-zero i)
test_bit-pow (suc k) zero = ground (arith, pow-suc 2 k)
test_bit-pow (suc k) (suc i) =
    let half : 2 ^ suc k / 2 ≡ 2 ^ k = omega (arith, pow-suc 2 k) in
    ap (λ (t : ℕ). test_bit t i) half ∙ test_bit-pow k i ∙ ground arith

pub test_bit-complement :
    (n w i : ℕ) → w < 2 ^ n → i < n → test_bit (complement n w) i ≡ not (test_bit w i)
test_bit-complement zero w i h k = absurd (omega arith)
test_bit-complement (suc n) w zero h k = ground (arith, pow-suc 2 n, one-le-pow n 2)
test_bit-complement (suc n) w (suc i) h k =
    let half : complement (suc n) w / 2 ≡ complement n (w / 2) =
      omega (arith, pow-suc 2 n, one-le-pow n 2) in
    ap (λ (t : ℕ). test_bit t i) half
    ∙ test_bit-complement n (w / 2) i (omega (arith, pow-suc 2 n)) (omega arith)

pub pow_mono : (k n : ℕ) → k < n → 2 ^ k < 2 ^ n
pow_mono k zero h = absurd (omega arith)
pow_mono zero (suc n) h = omega (arith, pow-suc 2 n, one-le-pow n 2)
pow_mono (suc k) (suc n) h = omega (arith, pow-suc 2 n, pow-suc 2 k, pow_mono k n (omega arith))

-- `w | (1 << k)`, and `w & ~(1 << k)` in a word of `n` bits.
pub test_bit-set_bit : (w k i : ℕ) → test_bit (bit_or w (2 ^ k)) i ≡ (test_bit w i || k == i)
test_bit-set_bit w k i = ground (arith, test_bit-or w (2 ^ k) i, test_bit-pow k i)

pub test_bit-clear_bit :
    (n w k i : ℕ)
    → k < n
    → i < n
    → test_bit (bit_and w (complement n (2 ^ k))) i ≡ (test_bit w i && not (k == i))
test_bit-clear_bit n w k i hk hi = ground (
  arith,
  test_bit-and w (complement n (2 ^ k)) i,
  test_bit-pow k i,
  test_bit-complement n (2 ^ k) i (pow_mono k n hk) hi,
)

pub test_bit-ones : (n i : ℕ) → i < n → test_bit (2 ^ n - 1) i ≡ true
test_bit-ones n i h =
    let all : complement n 0 ≡ 2 ^ n - 1 = omega arith in
    ap (λ (t : ℕ). test_bit t i) (omega arith)
    ∙ test_bit-complement n 0 i (omega (arith, one-le-pow n 2)) h
    ∙ ground (arith, test_bit-zero i)
