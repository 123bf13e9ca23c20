-- ===== src/Prelude/Integers.antt =====
-- Signed integers over the native numbers: the `i64` that the budget left is stored as.
use Prim.Native.Nat.{ℕ, suc, ◌+◌, ◌-◌}
use mathlib.Core.Path.{◌≡◌, refl}
use mathlib.Core.Logic.{◌⊎◌, inl, inr}
use mathlib.Core.Bool.{Bool, true, false}
use mathlib.Core.Option.{Option, none, some}
use native.Mathlib.Omega.{arith}
use adex_validator_stack_rus.Prelude.Tests.{leb, if◌then◌else◌}

-- `negsuc n` is `- (n + 1)`.
pub data ℤ : Type 0 where
  pos negsuc : ℕ → ℤ

-- The difference of two numbers.
abbrev pub minus : ℕ → ℕ → ℤ
minus m n = if leb n m then pos (m - n) else negsuc (n - m - 1)

abbrev pub plus_nat : ℤ → ℕ → ℤ
plus_nat (pos m) n = pos (m + n)
plus_nat (negsuc m) n = minus n (suc m)

abbrev pub minus_nat : ℤ → ℕ → ℤ
minus_nat (pos m) n = minus m n
minus_nat (negsuc m) n = negsuc (m + n)

-- `max(0, z).unsigned_abs()`
abbrev pub clamp : ℤ → ℕ
clamp (pos n) = n
clamp (negsuc n) = 0

-- `i64::is_negative`
abbrev pub is_negative : ℤ → Bool
is_negative (pos n) = false
is_negative (negsuc n) = true

-- `Option<i64>::unwrap_or_default`
abbrev pub or_zero : Option ℤ → ℤ
or_zero none = pos 0
or_zero (some z) = z

-- Taking away at most what is left leaves the difference.
pub clamp-minus_nat : (z : ℤ) (n : ℕ) → clamp (minus_nat z n) ≡ clamp z - n
clamp-minus_nat (pos m) n = ground arith
clamp-minus_nat (negsuc m) n = ground arith

pub plus_nat-minus_nat : (z : ℤ) (n : ℕ) → plus_nat (minus_nat z n) n ≡ z
plus_nat-minus_nat (pos m) n = ground arith
plus_nat-minus_nat (negsuc m) n = ground arith

pub Reply-cases :
    (o : Option ℤ)
    → (o ≡ none) ⊎ (((n : ℕ) × (o ≡ some (negsuc n))) ⊎ ((n : ℕ) × (o ≡ some (pos n))))
Reply-cases none = inl refl
Reply-cases (some (negsuc n)) = inr (inl (n, refl))
Reply-cases (some (pos n)) = inr (inr (n, refl))
