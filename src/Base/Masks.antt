-- ===== src/Base/Masks.antt =====
-- Shifts and masks of words as arithmetic.
use Prim.Native.Nat.{
  ℕ, zero, suc, ◌+◌, ◌*◌, ◌/◌, ◌%◌, ◌^◌, ◌≤◌, ◌<◌, min, max, bit_and, bit_or, digits,
  bit_and-bitwise, bit_or-bitwise,
}
use mathlib.Core.Path.{◌≡◌, refl, sym, ap, ◌∙◌}
use native.Mathlib.Nat.{pow-suc, le_refl, mul_assoc}
use mathlib.Core.Bool.{Bool, true, ◌&&◌}
use miniupnpd_sdn.Base.Tests.{◌==◌}
use native.Mathlib.Omega.{arith}

-- The fuel of `digits` does not matter when there is enough of it.
or_fuel : (n m v b : ℕ) → v ≤ n → v ≤ m → digits (λ y. y) max n v b ≡ digits (λ y. y) max m v b
or_fuel zero zero v b h k = refl
or_fuel zero (suc m) zero b h k = refl
or_fuel zero (suc m) (suc v) b h k = absurd (omega arith)
or_fuel (suc n) zero zero b h k = refl
or_fuel (suc n) zero (suc v) b h k = absurd (omega arith)
or_fuel (suc n) (suc m) zero b h k = refl
or_fuel (suc n) (suc m) (suc v) b h k =
    ap (λ t. t * 2 + max (suc v % 2) (b % 2))
      (or_fuel n m (suc v / 2) (b / 2) (omega arith) (omega arith))

or_step : (v b : ℕ) → bit_or v b ≡ bit_or (v / 2) (b / 2) * 2 + max (v % 2) (b % 2)
or_step zero b = simp bit_or-bitwise (omega arith)
or_step (suc v) b = simp bit_or-bitwise (
    ap (λ t. t * 2 + max (suc v % 2) (b % 2))
      (or_fuel v (suc v / 2) (suc v / 2) (b / 2) (omega arith) (le_refl (suc v / 2))))

or_zero_fuel : (n v : ℕ) → v ≤ n → digits (λ y. y) max n v 0 ≡ v
or_zero_fuel zero zero h = refl
or_zero_fuel zero (suc v) h = absurd (omega arith)
or_zero_fuel (suc n) zero h = refl
or_zero_fuel (suc n) (suc v) h = omega (arith, or_zero_fuel n (suc v / 2) (omega arith))

or_zero : (v : ℕ) → bit_or v 0 ≡ v
or_zero v = simp bit_or-bitwise (or_zero_fuel v v (le_refl v))

-- The low bits of a shifted word are free.
pub or_shift : (k x y : ℕ) → y < 2 ^ k → bit_or (x * 2 ^ k) y ≡ x * 2 ^ k + y
or_shift zero x y h =
    let none_left : y ≡ 0 = omega arith in
    ap (λ t. bit_or (x * 1) t) none_left ∙ or_zero (x * 1) ∙ omega arith
or_shift (suc k) x y h =
    let e : x * 2 ^ suc k ≡ (x * 2 ^ k) * 2 =
      ap (λ t. x * t) (pow-suc 2 k) ∙ sym (mul_assoc x (2 ^ k) 2) in
    let half : (x * 2 ^ k) * 2 / 2 ≡ x * 2 ^ k = omega arith in
    ap (λ t. bit_or t y) e
    ∙ or_step ((x * 2 ^ k) * 2) y
    ∙ ap (λ t. bit_or t (y / 2) * 2 + max ((x * 2 ^ k) * 2 % 2) (y % 2)) half
    ∙ omega (arith, e, or_shift k x (y / 2) (omega (arith, pow-suc 2 k)))

-- `(unsigned char)(v | 0x80)`
or_1 : (v : ℕ) → bit_or v 1 % 2 ≡ 1
or_1 v = omega (arith, or_step v 1)

or_2 : (v : ℕ) → bit_or v 2 % 4 ≡ 2 + v % 2
or_2 v = omega (arith, or_step v 2, or_1 (v / 2))

or_4 : (v : ℕ) → bit_or v 4 % 8 ≡ 4 + v % 4
or_4 v = omega (arith, or_step v 4, or_2 (v / 2))

or_8 : (v : ℕ) → bit_or v 8 % 16 ≡ 8 + v % 8
or_8 v = omega (arith, or_step v 8, or_4 (v / 2))

or_16 : (v : ℕ) → bit_or v 16 % 32 ≡ 16 + v % 16
or_16 v = omega (arith, or_step v 16, or_8 (v / 2))

or_32 : (v : ℕ) → bit_or v 32 % 64 ≡ 32 + v % 32
or_32 v = omega (arith, or_step v 32, or_16 (v / 2))

or_64 : (v : ℕ) → bit_or v 64 % 128 ≡ 64 + v % 64
or_64 v = omega (arith, or_step v 64, or_32 (v / 2))

pub set_top_bit : (v : ℕ) → bit_or v 128 % 256 ≡ 128 + v % 128
set_top_bit v = omega (arith, or_step v 128, or_64 (v / 2))

and_fuel : (n m v b : ℕ) → v ≤ n → v ≤ m → digits (λ y. 0) min n v b ≡ digits (λ y. 0) min m v b
and_fuel zero zero v b h k = refl
and_fuel zero (suc m) zero b h k = refl
and_fuel zero (suc m) (suc v) b h k = absurd (omega arith)
and_fuel (suc n) zero zero b h k = refl
and_fuel (suc n) zero (suc v) b h k = absurd (omega arith)
and_fuel (suc n) (suc m) zero b h k = refl
and_fuel (suc n) (suc m) (suc v) b h k =
    ap (λ t. t * 2 + min (suc v % 2) (b % 2))
      (and_fuel n m (suc v / 2) (b / 2) (omega arith) (omega arith))

and_step : (v b : ℕ) → bit_and v b ≡ bit_and (v / 2) (b / 2) * 2 + min (v % 2) (b % 2)
and_step zero b = simp bit_and-bitwise (omega arith)
and_step (suc v) b = simp bit_and-bitwise (
    ap (λ t. t * 2 + min (suc v % 2) (b % 2))
      (and_fuel v (suc v / 2) (suc v / 2) (b / 2) (omega arith) (le_refl (suc v / 2))))

and_0 : (v : ℕ) → bit_and v 0 ≡ 0
and_0 v = simp bit_and-bitwise (and_0_fuel v v)
  where
    and_0_fuel : (n w : ℕ) → digits (λ y. 0) min n w 0 ≡ 0
    and_0_fuel zero w = refl
    and_0_fuel (suc n) zero = refl
    and_0_fuel (suc n) (suc w) = omega (arith, and_0_fuel n (suc w / 2))

and_1 : (v : ℕ) → bit_and v 1 ≡ v % 2
and_1 v = omega (arith, and_step v 1, and_0 (v / 2))

and_3 : (v : ℕ) → bit_and v 3 ≡ v % 4
and_3 v = omega (arith, and_step v 3, and_1 (v / 2))

and_7 : (v : ℕ) → bit_and v 7 ≡ v % 8
and_7 v = omega (arith, and_step v 7, and_3 (v / 2))

and_15 : (v : ℕ) → bit_and v 15 ≡ v % 16
and_15 v = omega (arith, and_step v 15, and_7 (v / 2))

and_31 : (v : ℕ) → bit_and v 31 ≡ v % 32
and_31 v = omega (arith, and_step v 31, and_15 (v / 2))

and_63 : (v : ℕ) → bit_and v 63 ≡ v % 64
and_63 v = omega (arith, and_step v 63, and_31 (v / 2))

pub low_bits : (v : ℕ) → bit_and v 127 ≡ v % 128
low_bits v = omega (arith, and_step v 127, and_63 (v / 2))

-- A property of the bytes, checked one by one.
module _ (f g : ℕ → ℕ) where
  equal_below : ℕ → Bool
  equal_below zero = true
  equal_below (suc n) = f n == g n && equal_below n

  equal_below-≡ : (n : ℕ) → equal_below n ≡ true → (i : ℕ) → i < n → f i ≡ g i
  unfolding equal_below
  equal_below-≡ zero e i h = absurd (omega arith)
  equal_below-≡ (suc n) e i h = ground (arith, equal_below-≡ n (ground arith) i)

pub top_bit : (c : ℕ) → c < 256 → bit_and c 128 ≡ c / 128 * 128
unfolding equal_below
top_bit = equal_below-≡ (λ c. bit_and c 128) (λ c. c / 128 * 128) 256 refl
