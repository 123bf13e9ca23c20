-- ===== src/UnifiedNum/Defs.antt =====
-- The operations of `UnifiedNum` that need no `Ratio`.
use adex_validator_stack_rus.Prelude.{
  ℕ, ◌-◌, ◌*◌, ◌/◌, ◌^◌, ◌≤◌, compare, Ordering, Option, none, some, List, [], ◌∷◌, Outcome,
  returns, panics,
}
use adex_validator_stack_rus.Prelude.U64

abbrev pub UnifiedNum : Type 0
UnifiedNum = ℕ

abbrev pub BigNum : Type 0
BigNum = ℕ

-- The values that a `u64` can hold.
abbrev pub IsU64 : ℕ → Type 0
IsU64 n = n ≤ U64.max_value

-- `UnifiedNum::PRECISION`
abbrev pub precision : ℕ
precision = 8

-- `UnifiedNum::MULTIPLIER`
abbrev pub multiplier : ℕ
multiplier = 100000000

-- `UnifiedNum::ONE`
abbrev pub one : UnifiedNum
one = 100000000

abbrev pub checked_add : UnifiedNum → UnifiedNum → Option UnifiedNum
checked_add a b = U64.checked_add a b

abbrev pub checked_sub : UnifiedNum → UnifiedNum → Option UnifiedNum
checked_sub a b = U64.checked_sub a b

abbrev pub checked_rem : UnifiedNum → UnifiedNum → Option UnifiedNum
checked_rem a b = U64.checked_rem a b

-- `FromWhole<u64>::from_whole_opt`
unfoldable pub from_whole_opt : ℕ → Option UnifiedNum
from_whole_opt whole = U64.checked_mul whole multiplier

-- `FromWhole<u64>::from_whole`
unfoldable pub from_whole : ℕ → Outcome UnifiedNum
from_whole whole = elim (U64.checked_mul whole multiplier) [ none ↦ panics | some n ↦ returns n ]

-- `iter.try_fold(0_u64, |acc, unified| acc.checked_add(unified.0))`
unfoldable pub sum_from : ℕ → List UnifiedNum → Option UnifiedNum
sum_from acc [] = some acc
sum_from acc (x ∷ xs) = elim (U64.checked_add acc x) [ none ↦ none | some acc' ↦ sum_from acc' xs ]

-- `Sum for Option<UnifiedNum>`
unfoldable pub sum : List UnifiedNum → Option UnifiedNum
sum xs = sum_from 0 xs

-- `BigNum::to_u64`
abbrev pub to_u64 : BigNum → Option ℕ
to_u64 n = U64.fits n

unfoldable pub to_precision : UnifiedNum → ℕ → BigNum
to_precision n p = elim (compare p precision) [
  | Ordering.eq ↦ n
  | Ordering.lt ↦ n / 10 ^ (precision - p)
  | Ordering.gt ↦ n * 10 ^ (p - precision)
]

unfoldable pub from_precision : BigNum → ℕ → Option UnifiedNum
from_precision amount p = to_u64 (elim (compare p precision) [
  | Ordering.eq ↦ amount
  | Ordering.lt ↦ amount * 10 ^ (precision - p)
  | Ordering.gt ↦ amount / 10 ^ (p - precision)
])
