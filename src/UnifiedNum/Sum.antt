-- ===== src/UnifiedNum/Sum.antt =====
-- The checked sum is the exact one, or `none` where that does not fit 64 bits.
use adex_validator_stack_rus.Prelude.{ℕ, ◌+◌, ◌≤◌, ◌≡◌, some, List, [], ◌∷◌, arith, total}
use adex_validator_stack_rus.Prelude.U64
use adex_validator_stack_rus.UnifiedNum.Defs.{UnifiedNum, sum, sum_from}

sum_from-eq-fits :
    (acc : ℕ) (xs : List UnifiedNum)
    → acc ≤ U64.max_value
    → sum_from acc xs ≡ U64.fits (acc + total xs)
unfolding sum_from
sum_from-eq-fits acc [] h = ground arith
sum_from-eq-fits acc (x ∷ xs) h = ground (arith, sum_from-eq-fits (acc + x) xs)

-- The checked sum is the exact sum if that fits, and `none` otherwise.
pub sum-eq-fits : (xs : List UnifiedNum) → sum xs ≡ U64.fits (total xs)
unfolding sum
sum-eq-fits xs = ground (arith, sum_from-eq-fits 0 xs)

-- A sum that is returned is exact, and fits.
pub sum_exact :
    (xs : List UnifiedNum) {s : UnifiedNum} → sum xs ≡ some s → (s ≡ total xs) × (s ≤ U64.max_value)
sum_exact xs h = ground (arith, sum-eq-fits xs)

pub sum-eq-some : (xs : List UnifiedNum) → total xs ≤ U64.max_value → sum xs ≡ some (total xs)
sum-eq-some xs h = ground (arith, sum-eq-fits xs)
