-- ===== src/Balances/Spend.antt =====
-- `spend` keeps the two sides in balance.
use adex_validator_stack_rus.Prelude.U64
use adex_validator_stack_rus.Prelude.{
  ◌==◌, if◌then◌else◌, err, ◌<◌, ◌≤◌, ◌+◌, ◌≡◌, refl, inl, inr, some, arith, Option-cases, ok,
}
use adex_validator_stack_rus.UnifiedNum.{UnifiedNum}
use adex_validator_stack_rus.BalancesMap.{get, Address, UnifiedMap, get_or_zero}
use adex_validator_stack_rus.BalancesMap.Lookup.{
  get-insert, entry_or_zero-IsSorted, IsSorted, insert-IsSorted,
}
use adex_validator_stack_rus.BalancesMap.Total.{total-entry_or_zero, sum_values, total-insert}
use adex_validator_stack_rus.Balances.Defs.{
  OverflowError, add_earner, add_spender, Balances, spend, credit, new,
}

-- The keys of both maps ascend, as in every `BTreeMap`.
pub record IsOrdered (b : Balances) : Type 0 where
  pub earners_sorted : IsSorted b.earners
  pub spenders_sorted : IsSorted b.spenders

-- What the checked state stands for: everything that was spent was earned.
pub record IsChecked (b : Balances) : Type 0 where
  pub ordered : IsOrdered b
  pub balanced : sum_values b.earners ≡ sum_values b.spenders

credit-facts :
    (a : Address) (amount : UnifiedNum) (m : UnifiedMap) {m' : UnifiedMap}
    → IsSorted m
    → credit a amount m ≡ some m'
    → IsSorted m' × (sum_values m' ≡ sum_values m + amount)
unfolding credit
credit-facts a amount m s h = ground (
  arith,
  insert-IsSorted a (get_or_zero a m + amount) m s,
  total-insert a (get_or_zero a m + amount) m s,
)

pub new-IsChecked : IsChecked new
unfolding new
new-IsChecked = record {
  ordered = record { earners_sorted = tt; spenders_sorted = tt };
  balanced = refl;
}

-- A successful `spend` keeps balances checked and moves both sums by exactly the amount.
pub spend-IsChecked :
    (s e : Address) (amount : UnifiedNum) (b : Balances)
    → IsChecked b
    → (spend s e amount b).1 ≡ ok tt
    → IsChecked (spend s e amount b).0
      × (sum_values (spend s e amount b).0.spenders ≡ sum_values b.spenders + amount)
unfolding spend
spend-IsChecked s e amount b c h = elim (Option-cases (credit s amount b.spenders)) [
  | inl full ↦ ground arith
  | inr (paid, p) ↦ elim (Option-cases (credit e amount b.earners)) [
    | inl full ↦ ground arith
    | inr (credited, q) ↦
        let left = credit-facts s amount b.spenders c.ordered.spenders_sorted p in
        let right = credit-facts e amount b.earners c.ordered.earners_sorted q in
        ground (arith, left, right)
  ]
]

-- A `spend` succeeds exactly when neither entry overflows; then it adds the amount to the payer's
-- spending and to the payee's earnings and changes no other entry.
pub spend_entries :
    (s e : Address) (amount : UnifiedNum) (b : Balances)
    → get_or_zero s b.spenders + amount ≤ U64.max_value
    → get_or_zero e b.earners + amount ≤ U64.max_value
    → ((spend s e amount b).1 ≡ ok tt)
      × ((i : Address)
          → (get i (spend s e amount b).0.spenders
              ≡ (if i == s then some (get_or_zero s b.spenders + amount) else get i b.spenders))
            × (get i (spend s e amount b).0.earners
                ≡ (if i == e then some (get_or_zero e b.earners + amount) else get i b.earners)))
unfolding spend credit
spend_entries s e amount b p q = (
  ground arith,
  λ i. (
    ground (arith, get-insert i s (get_or_zero s b.spenders + amount) b.spenders),
    ground (arith, get-insert i e (get_or_zero e b.earners + amount) b.earners),
  ),
)

-- A failed `spend` names the entry that would overflow, the payer's before the payee's.
pub spend_error :
    (s e : Address) (amount : UnifiedNum) (b : Balances)
    → (U64.max_value < get_or_zero s b.spenders + amount
        → (spend s e amount b).1 ≡ err (OverflowError.spender s))
      × (get_or_zero s b.spenders + amount ≤ U64.max_value
          → U64.max_value < get_or_zero e b.earners + amount
          → (spend s e amount b).1 ≡ err (OverflowError.earner e))
unfolding spend credit
spend_error s e amount b = (λ h. ground arith, λ h k. ground arith)

-- Adding an absent address to either side keeps balances checked.
pub add_spender-IsChecked :
    (a : Address) (b : Balances) → IsChecked b → IsChecked (add_spender a (add_earner a b))
unfolding add_spender add_earner
add_spender-IsChecked a b c = ground (
  arith,
  entry_or_zero-IsSorted a b.spenders,
  entry_or_zero-IsSorted a b.earners,
  total-entry_or_zero a b.spenders,
  total-entry_or_zero a b.earners,
)
