-- ===== src/Balances/Check.antt =====
-- `check` decides whether balances are checked, where the sums fit 64 bits.
use adex_validator_stack_rus.Prelude.{
  ℕ, ◌+◌, ◌≤◌, ◌≡◌, ◌↔◌, some, arith, ltb, ◌==◌, if◌then◌else◌, ok, err,
}
use adex_validator_stack_rus.Prelude.U64
use adex_validator_stack_rus.UnifiedNum.Sum.{sum-eq-fits}
use adex_validator_stack_rus.BalancesMap.{values}
use adex_validator_stack_rus.BalancesMap.Total.{sum_values}
use adex_validator_stack_rus.Balances.Defs.{
  Balances, Side, check, overflow, payout_mismatch, spend, sum_both,
}
use adex_validator_stack_rus.Balances.Spend.{IsOrdered, IsChecked, spend-IsChecked}

-- All that `check` can answer: which side overflows, the earners' first; a mismatch with both
-- sums; or the balances themselves, unchanged.
pub check_cases :
    (b : Balances)
    → check b ≡ (
        if ltb U64.max_value (sum_values b.earners)
        then err (overflow Side.earners)
        else if ltb U64.max_value (sum_values b.spenders)
        then err (overflow Side.spenders)
        else if sum_values b.earners == sum_values b.spenders
        then ok b
        else err (payout_mismatch (sum_values b.spenders) (sum_values b.earners)))
unfolding check
check_cases b = ground (arith, sum-eq-fits (values b.earners), sum-eq-fits (values b.spenders))

-- `check` accepts balances in order exactly when they are checked and their sum fits 64 bits, and
-- returns them unchanged.
pub check_iff :
    (b c : Balances)
    → IsOrdered b
    → (check b ≡ ok c) ↔ ((c ≡ b) × IsChecked b × (sum_values b.spenders ≤ U64.max_value))
check_iff b c o =
    (λ h. ground (arith, check_cases b, o), λ h. ground (arith, check_cases b, h.1.balanced))

-- Checked balances still pass `check` after a successful `spend`, if the new sum fits 64 bits.
pub check-spend :
    (s e : ℕ) (amount : ℕ) (b : Balances)
    → IsChecked b
    → (spend s e amount b).1 ≡ ok tt
    → sum_values b.spenders + amount ≤ U64.max_value
    → check (spend s e amount b).0 ≡ ok (spend s e amount b).0
check-spend s e amount b c h f =
    ground (arith, check_cases (spend s e amount b).0, spend-IsChecked s e amount b c h)

-- `sum` returns both sums, or nothing where one does not fit 64 bits.
pub sum_both-eq-fits :
    (b : Balances) (earned spent : ℕ)
    → (sum_both b ≡ some (earned, spent)) ↔ (
        (earned ≡ sum_values b.earners)
        × (spent ≡ sum_values b.spenders)
        × (sum_values b.earners ≤ U64.max_value)
        × (sum_values b.spenders ≤ U64.max_value))
unfolding sum_both
sum_both-eq-fits b earned spent =
    ground (arith, sum-eq-fits (values b.earners), sum-eq-fits (values b.spenders))
