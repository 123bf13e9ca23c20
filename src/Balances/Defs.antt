-- ===== src/Balances/Defs.antt =====
-- The record and its operations.
use adex_validator_stack_rus.Prelude.{
  Option, none, some, [], ◌==◌, if◌then◌else◌, Result, ok, err, ◌>>=◌, ok_or, bind_option,
}
use adex_validator_stack_rus.UnifiedNum
use adex_validator_stack_rus.UnifiedNum.{UnifiedNum, sum}
use adex_validator_stack_rus.BalancesMap.{
  Address, UnifiedMap, insert, get_or_zero, values, entry_or_zero,
}

-- `struct Balances<S>`
pub record Balances : Type 0 where
  pub earners : UnifiedMap
  pub spenders : UnifiedMap

-- `OverflowError`
pub data OverflowError : Type 0 where
  spender earner : Address → OverflowError

-- `balances::Error`; the text of an overflow names the side.
pub data Side : Type 0 where
  earners spenders : Side

pub data Error : Type 0 where
  overflow : Side → Error
  payout_mismatch : UnifiedNum → UnifiedNum → Error

unfoldable pub new : Balances
new = record { earners = []; spenders = [] }

unfoldable pub check : Balances → Result Error Balances
check b = do
  earned ← ok_or (overflow Side.earners) (sum (values b.earners))
  spent ← ok_or (overflow Side.spenders) (sum (values b.spenders))
  if earned == spent then ok b else err (payout_mismatch spent earned)

unfoldable pub add_spender : Address → Balances → Balances
add_spender a b = record b { spenders = entry_or_zero a b.spenders }

unfoldable pub add_earner : Address → Balances → Balances
add_earner a b = record b { earners = entry_or_zero a b.earners }

-- `Balances::sum`: the sums of `(earners, spenders)`.
unfoldable pub sum_both : Balances → Option (UnifiedNum × UnifiedNum)
sum_both b =
    bind_option (sum (values b.spenders))
      λ spenders. bind_option (sum (values b.earners)) λ earners. some (earners, spenders)

-- `entry(key).or_default()`, then `checked_add`. On an overflow the entry that `or_default` made
-- stays.
unfoldable pub credit : Address → UnifiedNum → UnifiedMap → Option UnifiedMap
credit a amount m = elim (UnifiedNum.checked_add (get_or_zero a m) amount) [
  | none ↦ none
  | some v ↦ some (insert a v m)
]

-- `Balances::spend`, with what `&mut self` holds afterwards: an error keeps what was written before
-- it.
unfoldable pub spend :
    Address → Address → UnifiedNum → Balances → Balances × Result OverflowError (Unit {0})
unfolding credit
spend payer payee amount b = elim (credit payer amount b.spenders) [
  | none ↦
      (record b { spenders = entry_or_zero payer b.spenders }, err (OverflowError.spender payer))
  | some paid ↦ elim (credit payee amount b.earners) [
    | none ↦ (
      record { earners = entry_or_zero payee b.earners; spenders = paid },
      err (OverflowError.earner payee),
    )
    | some credited ↦ (record { earners = credited; spenders = paid }, ok tt)
  ]
]
