-- ===== src/Sentry/Routes/Budget.antt =====
-- `update_campaign` of sentry/src/routes/campaign.rs: modifying a campaign, and its budget.
use adex_validator_stack_rus.Prelude.{
  ℕ, compare, Ordering, Option, none, some, ltb, leb, if◌then◌else◌, total, ℤ, clamp, Result, ok,
  err, aborts, ok_or, map_err, bind_option, or_default,
}
use adex_validator_stack_rus.Prelude.Actions.{Action, lift, pure, ◌>>=◌}
use adex_validator_stack_rus.UnifiedNum.{UnifiedNum, checked_add, checked_sub, sum, from_precision}
use adex_validator_stack_rus.BalancesMap.{Address}
use adex_validator_stack_rus.Channel.{Channel}
use adex_validator_stack_rus.Campaign.{Campaign, ModifyCampaign, apply}
use adex_validator_stack_rus.Sentry.Redis.{Redis}
use adex_validator_stack_rus.Sentry.CampaignRemaining.{
  RedisError, get_remaining_opt, get_multiple, increase_by, decrease_by,
}
use adex_validator_stack_rus.Sentry.Accounting.{spender, get_accounting}
use adex_validator_stack_rus.Sentry.Routes.Tables.{
  Api, State, update_spendable, update_campaign, on_redis, on_tables, on_accounting,
}
use adex_validator_stack_rus.Sentry.Routes.Pages.{fetch_campaign_ids_for_channel}

-- `campaign::Error`; the texts are left out.
pub data Error : Type 0 where
  failed_update calculation new_budget latest_spendable redis_failure pool : Error

-- `DeltaBudget<T>`
pub data DeltaBudget (T : Type 0) : Type 0 where
  increase decrease : T → DeltaBudget T

-- The match on `new_budget.cmp(&current_budget)`.
unfoldable pub budget_action : UnifiedNum → UnifiedNum → Option (DeltaBudget (Unit {0}))
budget_action new current = elim (compare new current) [
  | Ordering.eq ↦ none
  | Ordering.gt ↦ some (increase tt)
  | Ordering.lt ↦ some (decrease tt)
]

-- From the old budget left to the difference of the budgets, by way of the new budget left.
unfoldable pub delta_of :
    DeltaBudget (Unit {0}) → UnifiedNum → UnifiedNum → UnifiedNum → Option (DeltaBudget UnifiedNum)
delta_of (increase _) budget current old_remaining =
    bind_option (checked_sub budget current) λ delta.
      bind_option (checked_add old_remaining delta) λ new_remaining.
        bind_option (checked_sub new_remaining old_remaining) λ by. some (increase by)
delta_of (decrease _) budget current old_remaining =
    bind_option (checked_sub current budget) λ delta.
      bind_option (checked_sub old_remaining delta) λ new_remaining.
        bind_option (checked_sub old_remaining new_remaining) λ by. some (decrease by)

-- `get_delta_budget`, once the budget left has been read.
unfoldable pub delta_budget :
    DeltaBudget (Unit {0})
    → UnifiedNum
    → UnifiedNum
    → Option ℤ
    → Result Error (DeltaBudget UnifiedNum)
unfolding delta_of
delta_budget action budget current none = err failed_update
delta_budget action budget current (some remaining) = elim (checked_sub current (clamp remaining)) [
  | none ↦ err calculation
  | some campaign_spent ↦
      if leb budget campaign_spent
      then err Error.new_budget
      else ok_or calculation (delta_of action budget current (clamp remaining))
]

-- `increase_by` or `decrease_by` on the sum of the budgets left.
unfoldable pub apply_delta : DeltaBudget UnifiedNum → UnifiedNum → Option UnifiedNum
apply_delta (increase n) sum = checked_add sum n
apply_delta (decrease n) sum = checked_sub sum n

-- `update_latest_spendable`: the deposit at eight decimals. Every failure is one error here.
unfoldable pub update_latest_spendable :
    (redis : Redis)
    → {E : Type 0} → E
    → Api
    → ℕ
    → Channel
    → Address
    → Action (State redis) E UnifiedNum
update_latest_spendable redis e api precision channel address = do
  latest_deposit ← lift (ok_or e (api.get_deposit channel address))
  total ← lift (ok_or e (from_precision latest_deposit precision))
  on_tables redis e (update_spendable api address total)

module _ (redis : Redis) where
  unfoldable pub get_delta_budget :
      Campaign
      → UnifiedNum
      → Action redis.Store RedisError (Result Error (Option (DeltaBudget UnifiedNum)))
  unfolding budget_action delta_budget
  get_delta_budget campaign budget = elim (budget_action budget campaign.budget) [
    | none ↦ pure (ok none)
    | some action ↦ (do
      remaining ← get_remaining_opt redis campaign.id
      pure (elim (delta_budget action budget campaign.budget remaining) [
        | ok delta ↦ ok (some delta)
        | err e ↦ err e
        | aborts ↦ aborts
      ]))
  ]

  -- The change of the budget left in Redis.
  unfoldable pub change_remaining :
      Campaign → DeltaBudget UnifiedNum → Action redis.Store RedisError ℤ
  change_remaining campaign (increase n) = increase_by redis campaign.id n
  change_remaining campaign (decrease n) = decrease_by redis campaign.id n

  -- The change, if the sum that it leads to is covered.
  unfoldable pub change_if_covered :
      Campaign → DeltaBudget UnifiedNum → UnifiedNum → UnifiedNum → Action (State redis) Error ℤ
  unfolding change_remaining
  change_if_covered campaign delta total_remaining changed =
      if ltb total_remaining changed
      then lift (err new_budget)
      else on_redis redis redis_failure (change_remaining campaign delta)

  -- From the ids of the channel's campaigns to the change.
  unfoldable pub modify_covered :
      Api → Campaign → DeltaBudget UnifiedNum → UnifiedNum → Action (State redis) Error ℤ
  unfolding apply_delta change_if_covered
  modify_covered api campaign delta total_remaining = do
    ids ← (λ s.
        let (r, t) = fetch_campaign_ids_for_channel api campaign.channel s.tables in
        (map_err (λ _. failed_update) r, record { store = s.store; tables = t }))
    amounts ← on_redis redis redis_failure (get_multiple redis ids)
    current ← lift (ok_or calculation (sum amounts))
    changed ← lift (ok_or calculation (apply_delta delta current))
    change_if_covered campaign delta total_remaining changed

  -- The part of `modify_campaign` that a new budget takes; `precision` is the token's.
  unfoldable pub modify_budget :
      Api → ℕ → Campaign → DeltaBudget UnifiedNum → Action (State redis) Error ℤ
  unfolding update_latest_spendable modify_covered
  modify_budget api precision campaign delta = do
    accounting ←
        on_tables redis pool
          (on_accounting (get_accounting api.accounting campaign.creator spender))
    total_deposited ←
        update_latest_spendable redis latest_spendable api precision campaign.channel
          campaign.creator
    total_remaining ←
        lift (ok_or calculation (checked_sub total_deposited (or_default 0 accounting)))
    modify_covered api campaign delta total_remaining

  -- A new budget, where one is passed and differs.
  unfoldable pub budget_step :
      Api → ℕ → Campaign → Option UnifiedNum → Action (State redis) Error (Unit {0})
  unfolding get_delta_budget modify_budget
  budget_step api precision campaign none = pure tt
  budget_step api precision campaign (some budget) = do
    answer ← on_redis redis redis_failure (get_delta_budget campaign budget)
    delta ← lift answer
    elim delta [
      | none ↦ pure tt
      | some d ↦ (do remaining ← modify_budget api precision campaign d; pure tt)
    ]

  unfoldable pub modify_campaign :
      Api → ℕ → Campaign → ModifyCampaign → Action (State redis) Error Campaign
  unfolding budget_step
  modify_campaign api precision campaign modify = do
    done ← budget_step api precision campaign modify.budget
    updated ← on_tables redis pool (update_campaign api (apply modify campaign))
    pure (apply modify campaign)
