-- ===== src/Sentry/Channels/Accountings.antt =====
-- The accounting that the worker reads, and what a payout can do to its ticks.
use adex_validator_stack_rus.Prelude.{
  ℕ, ◌+◌, ◌≤◌, ◌<◌, ◌≡◌, subst, inl, inr, Option, some, List, [], ◌∷◌, arith, length, ok, err,
  Result-cases,
}
use adex_validator_stack_rus.Prelude.U64
use adex_validator_stack_rus.UnifiedNum.{UnifiedNum}
use adex_validator_stack_rus.Sentry.Accounting.{Side}
use adex_validator_stack_rus.BalancesMap.Total.{sum_values}
use adex_validator_stack_rus.Sentry.Channels.Payout.{channel_payout_sound}
use adex_validator_stack_rus.Prelude.U64
use adex_validator_stack_rus.BalancesMap.{Address, UnifiedMap, get_or_zero}
use adex_validator_stack_rus.BalancesMap.Lookup.{insert-IsSorted}
use adex_validator_stack_rus.Balances.{Balances, new, check}
use adex_validator_stack_rus.Balances.Spend.{IsOrdered, IsChecked, new-IsChecked}
use adex_validator_stack_rus.Balances.Check.{check_iff}
use adex_validator_stack_rus.Channel.{Channel, ValidatorId, Validator, find_validator}
use adex_validator_stack_rus.Sentry.Redis.{Redis, RedisLaws}
use adex_validator_stack_rus.Sentry.Accounting.{earner, spender}
use adex_validator_stack_rus.Sentry.Routes.Tables.{Api, State, campaign_ids}
use adex_validator_stack_rus.Sentry.Channels.Defs.{
  Accounting, insert_on, balances_of, get_accounting_for_channel, channel_payout,
}
use adex_validator_stack_rus.Worker.Messages.{MessageTypes}
use adex_validator_stack_rus.Worker.Sentry.{SentryApi}
use adex_validator_stack_rus.Worker.Follower.{Spender}
use adex_validator_stack_rus.Worker.ChannelTick.{validation, channel_tick}
use adex_validator_stack_rus.Worker.Checks.{channel_tick_refuses}

insert_on-IsOrdered :
    (side : Side) (address : Address) (amount : UnifiedNum) (b : Balances)
    → IsOrdered b
    → IsOrdered (insert_on side address amount b)
insert_on-IsOrdered earner address amount b o = record {
  earners_sorted = insert-IsSorted address amount b.earners o.earners_sorted;
  spenders_sorted = o.spenders_sorted;
}
insert_on-IsOrdered spender address amount b o = record {
  earners_sorted = o.earners_sorted;
  spenders_sorted = insert-IsSorted address amount b.spenders o.spenders_sorted;
}

balances_of-IsOrdered :
    (rows : List Accounting) (b : Balances) → IsOrdered b → IsOrdered (balances_of rows b)
unfolding balances_of
balances_of-IsOrdered [] b o = o
balances_of-IsOrdered (row ∷ rows) b o =
    balances_of-IsOrdered rows (insert_on row.side row.address row.amount b)
      (insert_on-IsOrdered row.side row.address row.amount b o)

-- The accounting that a worker gets is always balanced and holds the rows read: rows that do not
-- balance are refused.
pub get_accounting_for_channel_sound :
    (rows : List Accounting) (b : Balances)
    → get_accounting_for_channel (some rows) ≡ ok b
    → (b ≡ balances_of rows new) × IsChecked b
unfolding get_accounting_for_channel
get_accounting_for_channel_sound rows b h = elim (Result-cases (check (balances_of rows new))) [
  | inr bad ↦ absurd (ground (arith, bad))
  | inl (c, e) ↦
      let ordered = balances_of-IsOrdered rows new new-IsChecked.ordered in
      let (same, checked, fits) = (check_iff (balances_of rows new) c ordered).0 e in
      let found : c ≡ b = ground arith in (ground arith, subst IsChecked (ground arith) checked)
]

module _ (redis : Redis) (laws : RedisLaws redis) (api : Api) (channel : Channel) (uid : Address)
    (payouts : UnifiedMap) where
  -- Over a balanced accounting, a payout is made also where its payer will have spent more than it
  -- deposited, since it may pay from what it earned; after such a payout every tick of the
  -- channel's validators over that accounting fails before anything is sent. The limit of a page is
  -- above zero, and the campaigns and it fit 64 bits.
  pub channel_payout_blocks_tick :
      (s s' : State redis) (worker : SentryApi) (whoami : ValidatorId)
      (role : Validator ValidatorId) (deposit : Spender) (rest : List (Address × Spender))
      (cut : Option ℕ) (log : List MessageTypes)
      → 0 < api.campaigns_find
      → length (campaign_ids channel s.tables.campaigns) + api.campaigns_find ≤ U64.max_value
      → IsChecked s.tables.accounting
      → deposit.total_deposited < get_or_zero uid s.tables.accounting.spenders + sum_values payouts
      → channel_payout redis api channel uid payouts s ≡ (ok tt, s')
      → find_validator worker.channel whoami ≡ some role
      → channel_tick worker whoami
          (some ((uid, deposit) ∷ rest))
          (some s'.tables.accounting)
          cut
          log
        ≡ (err validation, log)
  channel_payout_blocks_tick s s' worker whoami role deposit rest cut log limit few c over h found =
      let (d, paid, some_paid, none_left) =
        channel_payout_sound redis laws api channel uid payouts s s' limit few c h in
      let spent = paid.payer_spent in
      channel_tick_refuses worker whoami role ((uid, deposit) ∷ rest) s'.tables.accounting cut log
        found (λ covers. omega (arith, covers.0, over, spent))
