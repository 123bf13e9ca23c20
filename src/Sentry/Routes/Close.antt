-- ===== src/Sentry/Routes/Close.antt =====
-- `close_campaign` of sentry/src/routes/campaign.rs: the budget becomes what was spent of it.
use adex_validator_stack_rus.Prelude.{
  ℕ, ◌-◌, ◌≤◌, ◌≡◌, inl, inr, not, Option, some, arith, ◌==◌, if◌then◌else◌, ℤ, pos, negsuc, ok,
  err, ok_or, Result-cases,
}
use adex_validator_stack_rus.Prelude.Actions.{Action, lift, ◌>>=◌}
use adex_validator_stack_rus.UnifiedNum.{checked_sub}
use adex_validator_stack_rus.BalancesMap.{Address}
use adex_validator_stack_rus.Campaign.{Campaign}
use adex_validator_stack_rus.Sentry.Redis.{Redis, RedisLaws}
use adex_validator_stack_rus.Sentry.CampaignRemaining.{getset_remaining_to_zero}
use adex_validator_stack_rus.Sentry.CampaignRemaining.Effects.{
  getset_remaining_to_zero_negative, getset_remaining_to_zero_lem,
}
use adex_validator_stack_rus.Sentry.Routes.Tables.{
  Api, State, ResponseError, bad_request, forbidden, update_campaign, on_redis, on_tables,
}

module _ (redis : Redis) where
  unfoldable pub close_campaign :
      Api → Address → Campaign → Action (State redis) ResponseError (Unit {0})
  close_campaign api uid campaign =
      if not (uid == campaign.creator) then lift (err forbidden) else do
        old_remaining ← on_redis redis bad_request (getset_remaining_to_zero redis campaign.id)
        budget ← lift (ok_or bad_request (checked_sub campaign.budget old_remaining))
        on_tables redis bad_request (update_campaign api (record campaign { budget = budget }))

module _ (redis : Redis) (laws : RedisLaws redis) where
  -- Closing a campaign that is overspent, by its creator, fails and leaves its row as it is, but
  -- the budget left in Redis has been set to 0.
  pub close_campaign_overspent :
      (api : Api) (campaign : Campaign) (s : State redis) (n : ℕ) (store : redis.Store)
      (old : Option ℤ)
      → laws.value campaign.id s.store ≡ some (negsuc n)
      → redis.getset campaign.id 0 s.store ≡ some (old, store)
      → (close_campaign redis api campaign.creator campaign s
          ≡ (err bad_request, record { store = store; tables = s.tables }))
        × (laws.value campaign.id store ≡ some (pos 0))
  unfolding close_campaign
  close_campaign_overspent api campaign s n store old h e =
      let (failed, cleared) =
        getset_remaining_to_zero_negative redis laws campaign.id n s.store store old h e in
      (ground arith, cleared)

  -- Closing a campaign succeeds only for its creator and while it is not overspent; then nothing
  -- of its budget is left, and its row is updated with the budget less what was left.
  pub close_campaign_sound :
      (api : Api) (uid : Address) (campaign : Campaign) (s s' : State redis)
      → close_campaign redis api uid campaign s ≡ (ok tt, s')
      → (left : ℕ) × (uid ≡ campaign.creator)
        × (laws.value campaign.id s.store ≡ some (pos left))
        × (left ≤ campaign.budget)
        × (laws.value campaign.id s'.store ≡ some (pos 0))
        × (update_campaign api (record campaign { budget = campaign.budget - left }) s.tables
            ≡ (ok tt, s'.tables))
  unfolding close_campaign
  close_campaign_sound api uid campaign s s' h =
      elim (Result-cases (getset_remaining_to_zero redis campaign.id s.store).0) [
        | inr bad ↦ absurd (ground (arith, bad))
        | inl (left, e) ↦
            let store : redis.Store = (getset_remaining_to_zero redis campaign.id s.store).1 in
            let (was, now, others) =
              getset_remaining_to_zero_lem redis laws campaign.id left s.store store
                (ground arith) in
            (left, ground arith, was, ground arith, ground arith, ground arith)
      ]
