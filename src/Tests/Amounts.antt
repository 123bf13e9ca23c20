-- ===== src/Tests/Amounts.antt =====
-- The theorems on amounts, maps and balances at concrete data.
use adex_validator_stack_rus.Prelude.{ℕ, ◌+◌, ◌≡◌, refl, [], ◌∷◌, arith, ok}
use adex_validator_stack_rus.BalancesMap.{get}
use adex_validator_stack_rus.BalancesMap.Total.{sum_values}
use adex_validator_stack_rus.Balances.{spend, credit}
use adex_validator_stack_rus.Balances.Spend.{IsChecked, spend-IsChecked}
use adex_validator_stack_rus.StateRoot.{merkle_root}
use adex_validator_stack_rus.StateRoot.Leaves.{contains, merkle_root_same}
use adex_validator_stack_rus.Tests.Data.{hashing, two, two_IsChecked}

spends : (spend 7 9 4 two).1 ≡ ok tt
unfolding spend credit get
spends = refl

spend-IsChecked_example :
    IsChecked (spend 7 9 4 two).0
    × (sum_values (spend 7 9 4 two).0.spenders ≡ sum_values two.spenders + 4)
spend-IsChecked_example = spend-IsChecked 7 9 4 two two_IsChecked spends

same_leaves : (a : ℕ) → contains a (3 ∷ 1 ∷ 3 ∷ []) ≡ contains a (1 ∷ 3 ∷ [])
same_leaves a = ground arith

merkle_root_same_example : merkle_root hashing (3 ∷ 1 ∷ 3 ∷ []) ≡ merkle_root hashing (1 ∷ 3 ∷ [])
merkle_root_same_example = merkle_root_same hashing (3 ∷ 1 ∷ 3 ∷ []) (1 ∷ 3 ∷ []) same_leaves
