-- ===== src/UnifiedNum/Precision.antt =====
-- Conversions between the eight decimals of `UnifiedNum` and the precision of a token.
use adex_validator_stack_rus.Prelude.{
  ℕ, zero, suc, ◌+◌, ◌-◌, ◌*◌, ◌/◌, ◌^◌, ◌≤◌, ◌<◌, ◌≡◌, some, arith,
}
use native.Mathlib.Nat.{pow-suc}
use adex_validator_stack_rus.UnifiedNum.Defs.{UnifiedNum, to_precision, from_precision, IsU64}

pow_pos : (k : ℕ) → 0 < 10 ^ k
pow_pos zero = omega arith
pow_pos (suc k) = rw pow-suc (omega (arith, pow_pos k))

mul-div_cancel : (n d : ℕ) → 0 < d → n * d / d ≡ n
mul-div_cancel n d h = grind arith

div_bounds : (n d : ℕ) → 0 < d → (n / d * d ≤ n) × (n < n / d * d + d)
div_bounds n d h = grind arith

div_mono : (a b d : ℕ) → a ≤ b → a / d ≤ b / d
div_mono a b d h = grind arith

mul_mono : (a b d : ℕ) → a ≤ b → a * d ≤ b * d
mul_mono a b d h = grind arith

-- To a precision of eight decimals or more and back, an amount is unchanged.
pub from_precision-to_precision :
    (n : UnifiedNum) (p : ℕ) → IsU64 n → 8 ≤ p → from_precision (to_precision n p) p ≡ some n
unfolding to_precision from_precision
from_precision-to_precision n p h q =
    ground (arith, mul-div_cancel n (10 ^ (p - 8)) (pow_pos (p - 8)))

-- To a precision below eight decimals and back, an amount loses what that precision cannot show:
-- the result is at most the amount, and less than one unit of the precision below it.
pub from_precision-to_precision_floor :
    (n : UnifiedNum) (p : ℕ)
    → IsU64 n
    → p < 8
    → (m : UnifiedNum) × (from_precision (to_precision n p) p ≡ some m)
      × (m ≤ n)
      × (n < m + 10 ^ (8 - p))
unfolding to_precision from_precision
from_precision-to_precision_floor n p h q =
    let bounds = div_bounds n (10 ^ (8 - p)) (pow_pos (8 - p)) in
    (n / 10 ^ (8 - p) * 10 ^ (8 - p), ground arith, bounds.0, bounds.1)

-- Converting to any precision keeps the order of two amounts.
pub to_precision_mono : (a b : UnifiedNum) (p : ℕ) → a ≤ b → to_precision a p ≤ to_precision b p
unfolding to_precision
to_precision_mono a b p h =
    ground (arith, div_mono a b (10 ^ (8 - p)) h, mul_mono a b (10 ^ (p - 8)) h)
