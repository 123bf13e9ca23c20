-- ===== src/Sentry/Routes/Rebudgeted.antt =====
-- What holds when the budget of a campaign was modified.
use adex_validator_stack_rus.Prelude.{
  ℕ, ◌+◌, ◌-◌, ◌≤◌, ◌<◌, ◌≡◌, some, ltb, if◌then◌else◌, ℤ, plus_nat, minus_nat, clamp, or_zero,
}
use adex_validator_stack_rus.Prelude.U64
use adex_validator_stack_rus.UnifiedNum.{UnifiedNum, BigNum, from_precision}
use adex_validator_stack_rus.Campaign.{Campaign}
use adex_validator_stack_rus.Sentry.Redis.{Redis, RedisLaws}
use adex_validator_stack_rus.Sentry.Routes.Tables.{Api, State}
use adex_validator_stack_rus.Sentry.Routes.Created.{spent}
use adex_validator_stack_rus.Sentry.Routes.Covered.{left_of_channel}

module _ (redis : Redis) (laws : RedisLaws redis) (api : Api) (precision : ℕ)
    (campaign : Campaign) where
  -- With the new budget, `n` is what the campaigns of the channel have left together, and fits the
  -- deposit `d`; the campaign has the difference of the budgets more, or less, than it had.
  pub record HasNewBudget (budget d n : UnifiedNum) (s s' : State redis) : Type 0 where
    pub deposited :
        (raw : BigNum) × (api.get_deposit campaign.channel campaign.creator ≡ some raw)
        × (from_precision raw precision ≡ some d)
    pub above_spent :
        (old : ℤ) × (laws.value campaign.id s.store ≡ some old)
        × (campaign.budget < budget + clamp old)
    pub sum_changed :
        n + campaign.budget ≡ left_of_channel redis laws api precision campaign s + budget
    pub covered : spent redis laws api campaign s + n ≤ d
    pub budget_changed :
        laws.value campaign.id s'.store
        ≡ some (
            if ltb campaign.budget budget
            then plus_nat (or_zero (laws.value campaign.id s.store)) (budget - campaign.budget)
            else minus_nat (or_zero (laws.value campaign.id s.store)) (campaign.budget - budget))
