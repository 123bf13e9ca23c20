-- ===== src/Sentry/Routes/Create.antt =====
-- `create_campaign` of sentry/src/routes/campaign.rs.
use adex_validator_stack_rus.Prelude.{
  ℕ, not, ◌||◌, List, ltb, ◌==◌, if◌then◌else◌, Result, ok, err, aborts, ok_or, or_default,
}
use adex_validator_stack_rus.Prelude.Actions.{Action, lift, pure, ◌>>=◌}
use adex_validator_stack_rus.UnifiedNum.{UnifiedNum, checked_add, checked_sub, sum}
use adex_validator_stack_rus.BalancesMap.{Address}
use adex_validator_stack_rus.Campaign.{Campaign, validate}
use adex_validator_stack_rus.Sentry.Redis.{Redis}
use adex_validator_stack_rus.Sentry.CampaignRemaining.{CampaignId, set_initial, get_multiple}
use adex_validator_stack_rus.Sentry.Accounting.{spender, get_accounting}
use adex_validator_stack_rus.Sentry.Routes.Tables.{
  Api, State, Inserted, ResponseError, bad_request, failed_validation, forbidden, conflict,
  insert_channel, insert_campaign, on_redis, on_tables, on_accounting,
}
use adex_validator_stack_rus.Sentry.Routes.Pages.{fetch_campaign_ids_for_channel}
use adex_validator_stack_rus.Sentry.Routes.Budget.{update_latest_spendable}

-- The error of an insertion.
unfoldable pub inserted_result : Inserted → Result ResponseError (Unit {0})
inserted_result Inserted.inserted = ok tt
inserted_result Inserted.unique_violation = err conflict
inserted_result Inserted.failed = err bad_request

module _ (redis : Redis) where
  -- All pages of the ids of the channel's campaigns.
  unfoldable pub fetch_ids : Api → Campaign → Action (State redis) ResponseError (List CampaignId)
  fetch_ids api campaign s =
      let (r, t) = fetch_campaign_ids_for_channel api campaign.channel s.tables in
      (r, record { store = s.store; tables = t })

  -- What the creator deposited and has not spent.
  unfoldable pub total_remaining :
      Api → ℕ → Campaign → Action (State redis) ResponseError UnifiedNum
  total_remaining api precision campaign = do
    accounting ←
        on_tables redis bad_request
          (on_accounting (get_accounting api.accounting campaign.creator spender))
    total_deposited ←
        update_latest_spendable redis bad_request api precision campaign.channel campaign.creator
    lift (ok_or failed_validation (checked_sub total_deposited (or_default 0 accounting)))

  -- The budgets left of the channel's campaigns, and the budget of the new one.
  unfoldable pub campaigns_remaining_sum :
      Api → Campaign → Action (State redis) ResponseError UnifiedNum
  unfolding fetch_ids
  campaigns_remaining_sum api campaign = do
    channel_campaigns ← fetch_ids api campaign
    amounts ← on_redis redis bad_request (get_multiple redis channel_campaigns)
    current ← lift (ok_or bad_request (sum amounts))
    lift (ok_or bad_request (checked_add current campaign.budget))

  -- The insertions, the budget left first.
  unfoldable pub insert_created : Api → Campaign → Action (State redis) ResponseError Campaign
  unfolding inserted_result
  insert_created api campaign = do
    remaining_set ← on_redis redis bad_request (set_initial redis campaign.id campaign.budget)
    if not remaining_set then lift (err conflict) else do
      done ← (λ s.
          let (r, t) = insert_campaign api campaign s.tables in
          (inserted_result r, record { store = s.store; tables = t }))
      pure campaign

  -- Once the campaign is admitted and its creator has asked for it.
  unfoldable pub create_admitted : Api → ℕ → Campaign → Action (State redis) ResponseError Campaign
  unfolding total_remaining campaigns_remaining_sum insert_created
  create_admitted api precision campaign = do
    channel ← on_tables redis bad_request (insert_channel api campaign.channel)
    remaining ← total_remaining api precision campaign
    sum ← campaigns_remaining_sum api campaign
    if ltb remaining sum || ltb remaining campaign.budget
        then lift (err bad_request)
        else insert_created api campaign

  -- `uid` is who is authenticated; the campaign is that of the request, with its id.
  unfoldable pub create_campaign :
      Api → Address → Campaign → Action (State redis) ResponseError Campaign
  unfolding create_admitted
  create_campaign api uid campaign = elim (validate campaign api.config api.whoami api.now) [
    | err _ ↦ lift (err failed_validation)
    | aborts ↦ lift aborts
    | ok chain ↦
        if not (uid == campaign.creator)
        then lift (err forbidden)
        else create_admitted api chain.token.precision campaign
  ]
