-- ===== src/Sentry/Routes/Difference.antt =====
-- The difference that a new budget makes: `get_delta_budget` in sentry/src/routes/campaign.rs.
use adex_validator_stack_rus.Prelude.{
  ℕ, ◌+◌, ◌-◌, ◌<◌, ◌≡◌, refl, ◌≢◌, inl, inr, Option, none, some, arith, ltb, if◌then◌else◌,
  Bool-cases, ℤ, plus_nat, minus_nat, clamp, ok,
}
use adex_validator_stack_rus.UnifiedNum.{UnifiedNum, sum}
use adex_validator_stack_rus.Sentry.Routes.Budget.{
  DeltaBudget, increase, decrease, delta_of, apply_delta, budget_action, delta_budget,
}
use adex_validator_stack_rus.Sentry.Routes.Modified.{changed}
use adex_validator_stack_rus.Sentry.Routes.Budget.{increase, decrease, delta_of}

-- What a modification adds to the budget left, or takes from it.
abbrev pub difference : ℕ → ℕ → DeltaBudget UnifiedNum
difference budget current =
    if ltb current budget then increase (budget - current) else decrease (current - budget)

pub action_of :
    (budget current : ℕ)
    → budget ≢ current
    → (action : DeltaBudget (Unit {0})) × (budget_action budget current ≡ some action)
unfolding budget_action
action_of budget current other = elim (Bool-cases (ltb current budget)) [
  | inl up ↦ (increase tt, ground arith)
  | inr down ↦ (decrease tt, ground arith)
]

pub delta_budget_inv :
    (budget current : ℕ) (action : DeltaBudget (Unit {0})) (remaining : Option ℤ)
    (delta : DeltaBudget UnifiedNum)
    → budget_action budget current ≡ some action
    → delta_budget action budget current remaining ≡ ok delta
    → (old : ℤ) × (remaining ≡ some old)
      × (delta ≡ difference budget current)
      × (current < budget + clamp old)
unfolding delta_budget delta_of budget_action
delta_budget_inv budget current action none delta a h = absurd (ground arith)
delta_budget_inv budget current (increase t) (some old) delta a h =
    (old, refl, ground arith, ground arith)
delta_budget_inv budget current (decrease t) (some old) delta a h =
    (old, refl, ground arith, ground arith)

pub apply_delta_sum :
    (budget current sum n : ℕ)
    → apply_delta (difference budget current) sum ≡ some n
    → n + current ≡ sum + budget
unfolding apply_delta
apply_delta_sum budget current sum n h = elim (Bool-cases (ltb current budget)) [
  | inl up ↦ ground arith
  | inr down ↦ ground arith
]

pub changed-difference :
    (budget current : ℕ) (z : ℤ)
    → changed (difference budget current) z ≡ (
        if ltb current budget
        then plus_nat z (budget - current)
        else minus_nat z (current - budget))
changed-difference budget current z = elim (Bool-cases (ltb current budget)) [
  | inl up ↦ ground arith
  | inr down ↦ ground arith
]
