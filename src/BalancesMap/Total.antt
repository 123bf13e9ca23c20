-- ===== src/BalancesMap/Total.antt =====
-- The exact sum of the values of a map, and what `insert` does to it.
use adex_validator_stack_rus.Prelude.{ℕ, ◌+◌, ◌≤◌, ◌≡◌, [], ◌∷◌, arith, total}
use adex_validator_stack_rus.BalancesMap.Defs.{
  UnifiedMap, get, insert, values, entry_or_zero, get_or_zero,
}
use adex_validator_stack_rus.BalancesMap.Lookup.{IsSorted, get-Above}

abbrev pub sum_values : UnifiedMap → ℕ
sum_values m = total (values m)

pub total-insert :
    (k v : ℕ) (m : UnifiedMap)
    → IsSorted m
    → sum_values (insert k v m) + get_or_zero k m ≡ sum_values m + v
unfolding get insert
total-insert k v [] s = omega arith
total-insert k v ((j, w) ∷ m) s = ground (arith, total-insert k v m s.1, get-Above j k m)

pub total-entry_or_zero :
    (k : ℕ) (m : UnifiedMap) → IsSorted m → sum_values (entry_or_zero k m) ≡ sum_values m
unfolding entry_or_zero
total-entry_or_zero k m s = ground (arith, total-insert k 0 m s)

-- Every value is at most the sum.
pub get-le-total : (k : ℕ) (m : UnifiedMap) → get_or_zero k m ≤ sum_values m
unfolding get
get-le-total k [] = omega arith
get-le-total k ((j, w) ∷ m) = ground (arith, get-le-total k m)
