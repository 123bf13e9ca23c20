-- ===== src/Targeting/I64.antt =====
-- The `i64` operations of the standard library that the rules use.
use adex_validator_stack_rus.Prelude.{
  ℕ, zero, suc, ◌*◌, ◌/◌, ◌%◌, Bool, true, false, Option, none, some, ltb, leb, ◌==◌, if◌then◌else◌,
  ℤ, pos, negsuc, plus_nat, minus_nat,
}

-- The values that an `i64` can hold.
unfoldable pub fits : ℤ → Option ℤ
fits (pos n) = if leb n 9223372036854775807 then some (pos n) else none
fits (negsuc n) = if leb n 9223372036854775807 then some (negsuc n) else none

-- `- n`
abbrev pub neg_nat : ℕ → ℤ
neg_nat zero = pos 0
neg_nat (suc n) = negsuc n

abbrev pub neg : ℤ → ℤ
neg (pos n) = neg_nat n
neg (negsuc n) = pos (suc n)

abbrev pub add : ℤ → ℤ → ℤ
add a (pos n) = plus_nat a n
add a (negsuc n) = minus_nat a (suc n)

abbrev pub sub : ℤ → ℤ → ℤ
sub a (pos n) = minus_nat a n
sub a (negsuc n) = plus_nat a (suc n)

abbrev pub mul : ℤ → ℤ → ℤ
mul (pos m) (pos n) = pos (m * n)
mul (pos m) (negsuc n) = neg_nat (m * suc n)
mul (negsuc m) (pos n) = neg_nat (suc m * n)
mul (negsuc m) (negsuc n) = pos (suc m * suc n)

-- The quotient, truncated towards zero, and the remainder, which has the sign of the dividend.
abbrev pub div : ℤ → ℤ → ℤ
div (pos m) (pos n) = pos (m / n)
div (pos m) (negsuc n) = neg_nat (m / suc n)
div (negsuc m) (pos n) = neg_nat (suc m / n)
div (negsuc m) (negsuc n) = pos (suc m / suc n)

abbrev pub rem : ℤ → ℤ → ℤ
rem (pos m) (pos n) = pos (m % n)
rem (pos m) (negsuc n) = pos (m % suc n)
rem (negsuc m) (pos n) = neg_nat (suc m % n)
rem (negsuc m) (negsuc n) = neg_nat (suc m % suc n)

abbrev pub is_zero : ℤ → Bool
is_zero (pos n) = n == 0
is_zero (negsuc n) = false

unfoldable pub checked_add : ℤ → ℤ → Option ℤ
unfolding fits
checked_add a b = fits (add a b)

unfoldable pub checked_sub : ℤ → ℤ → Option ℤ
unfolding fits
checked_sub a b = fits (sub a b)

unfoldable pub checked_mul : ℤ → ℤ → Option ℤ
unfolding fits
checked_mul a b = fits (mul a b)

unfoldable pub checked_div : ℤ → ℤ → Option ℤ
unfolding fits
checked_div a b = if is_zero b then none else fits (div a b)

-- `i64::MIN % -1` overflows with its quotient.
unfoldable pub checked_rem : ℤ → ℤ → Option ℤ
unfolding fits
checked_rem a b =
    if is_zero b then none else elim (fits (div a b)) [ none ↦ none | some q ↦ some (rem a b) ]

abbrev pub lt : ℤ → ℤ → Bool
lt (pos m) (pos n) = ltb m n
lt (pos m) (negsuc n) = false
lt (negsuc m) (pos n) = true
lt (negsuc m) (negsuc n) = ltb n m

abbrev pub eq : ℤ → ℤ → Bool
eq (pos m) (pos n) = m == n
eq (negsuc m) (negsuc n) = m == n
eq _ _ = false

-- `i64::max` and `i64::min`
abbrev pub larger : ℤ → ℤ → ℤ
larger a b = if lt b a then a else b

abbrev pub smaller : ℤ → ℤ → ℤ
smaller a b = if lt b a then b else a
