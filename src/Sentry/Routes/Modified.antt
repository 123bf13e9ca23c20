-- ===== src/Sentry/Routes/Modified.antt =====
-- What a modification does to the budget that a campaign has left.
use adex_validator_stack_rus.Prelude.{
  ◌-◌, ◌≤◌, ◌≡◌, some, arith, ltb, leb, ◌==◌, if◌then◌else◌, ℤ, plus_nat, minus_nat, clamp, or_zero,
  ok, err,
}
use adex_validator_stack_rus.Prelude.U64
use adex_validator_stack_rus.UnifiedNum.{UnifiedNum}
use adex_validator_stack_rus.Campaign.{Campaign}
use adex_validator_stack_rus.Sentry.Redis.{Redis, RedisLaws}
use adex_validator_stack_rus.Sentry.CampaignRemaining.{CampaignId}
use adex_validator_stack_rus.Sentry.CampaignRemaining.Effects.{increase_by_lem, decrease_by_lem}
use adex_validator_stack_rus.Sentry.Routes.Budget.{
  Error, DeltaBudget, increase, decrease, budget_action, delta_of, delta_budget, change_remaining,
}

-- For a campaign whose budget left, negative counted as 0, is at most its budget, a new budget is
-- refused if it is at most what was spent; otherwise the change is exactly the difference of the
-- two budgets, an increase where the new one is larger.
pub delta_budget_lem :
    (budget current : UnifiedNum) (action : DeltaBudget (Unit {0})) (remaining : ℤ)
    → budget ≤ U64.max_value
    → clamp remaining ≤ current
    → budget_action budget current ≡ some action
    → delta_budget action budget current (some remaining) ≡ (
        if leb budget (current - clamp remaining)
        then err Error.new_budget
        else ok (
            if ltb current budget
            then increase (budget - current)
            else decrease (current - budget)))
unfolding delta_budget delta_of budget_action
delta_budget_lem budget current (increase t) remaining h k e = ground arith
delta_budget_lem budget current (decrease t) remaining h k e = ground arith

-- The budget left after a change of the budget.
abbrev pub changed : DeltaBudget UnifiedNum → ℤ → ℤ
changed (increase n) z = plus_nat z n
changed (decrease n) z = minus_nat z n

module _ (redis : Redis) (laws : RedisLaws redis) where
  -- The change in Redis is that of the budgets, also where the budget left was changed by events
  -- since it was read; no other campaign's is changed.
  pub change_remaining_lem :
      (campaign : Campaign) (delta : DeltaBudget UnifiedNum) (s s' : redis.Store) (r : ℤ)
      → change_remaining redis campaign delta s ≡ (ok r, s')
      → (r ≡ changed delta (or_zero (laws.value campaign.id s)))
        × ((j : CampaignId)
            → laws.value j s' ≡ (if j == campaign.id then some r else laws.value j s))
  unfolding change_remaining
  change_remaining_lem campaign (increase n) s s' r h =
      increase_by_lem redis laws campaign.id n s s' r h
  change_remaining_lem campaign (decrease n) s s' r h =
      decrease_by_lem redis laws campaign.id n s s' r h
