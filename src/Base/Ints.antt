-- ===== src/Base/Ints.antt =====
-- The C `int` over the native numbers, and its conversions to and from the unsigned types.
use Prim.Native.Nat.{ℕ, ◌-◌, ◌%◌, ◌^◌, ◌<◌}
use mathlib.Core.Path.{◌≡◌, ap}
use mathlib.Core.Bool.{Bool, true, false}
use native.Mathlib.Omega.{arith}
use miniupnpd_sdn.Base.Tests.{◌==◌, ltb, leb, if◌then◌else◌}

-- `negsuc n` is -(n + 1).
pub data ℤ : Type 0 where
  pos negsuc : ℕ → ℤ

abbrev pub int_eq : ℤ → ℤ → Bool
int_eq (pos m) (pos n) = m == n
int_eq (negsuc m) (negsuc n) = m == n
int_eq _ _ = false

-- `x >= 0 && x <= USHRT_MAX`
unfoldable pub isvalid_ushort : ℤ → Bool
isvalid_ushort (pos n) = leb n 65535
isvalid_ushort (negsuc n) = false

-- `(unsigned short)x`
unfoldable pub to_ushort : ℤ → ℕ
to_ushort (pos n) = n % 65536
to_ushort (negsuc n) = 65535 - n % 65536

-- An `unsigned int` passed as an `int`.
unfoldable pub int_of_uint : ℕ → ℤ
int_of_uint n = if ltb n (2 ^ 31) then pos n else negsuc (2 ^ 32 - 1 - n)

pub to_ushort-lt : (x : ℤ) → to_ushort x < 65536
unfolding to_ushort
to_ushort-lt (pos n) = omega arith
to_ushort-lt (negsuc n) = omega arith

pub int_eq-≡ : (x y : ℤ) → int_eq x y ≡ true → x ≡ y
int_eq-≡ (pos m) (pos n) h = ap pos (ground arith)
int_eq-≡ (pos m) (negsuc n) h = ground arith
int_eq-≡ (negsuc m) (pos n) h = ground arith
int_eq-≡ (negsuc m) (negsuc n) h = ap negsuc (ground arith)

pub minus_one-zero : negsuc 0 ≡ pos 0 → ⊥
minus_one-zero e = ground arith
