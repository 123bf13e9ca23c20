-- ===== src/Sentry/Events/Spending.antt =====
-- What spending for events does to the budget left and to the accounting.
use adex_validator_stack_rus.Prelude.{
  ℕ, ◌+◌, ◌-◌, ◌≤◌, ◌<◌, ◌≡◌, ap, subst, inl, inr, false, Option, some, List, map, arith, ltb, ◌==◌,
  Bool-cases, Option-cases, total, ℤ, pos, clamp, or_zero, Result, ok, err, Result-cases,
}
use adex_validator_stack_rus.UnifiedNum.{UnifiedNum}
use adex_validator_stack_rus.UnifiedNum.Ratio.{RatioOps}
use adex_validator_stack_rus.BalancesMap.{Address}
use adex_validator_stack_rus.BalancesMap.Total.{sum_values}
use adex_validator_stack_rus.Balances.{Balances, new}
use adex_validator_stack_rus.Balances.Spend.{IsChecked}
use adex_validator_stack_rus.Campaign.{Campaign, ValidatorDesc}
use adex_validator_stack_rus.Sentry.Redis.{Redis, RedisLaws}
use adex_validator_stack_rus.Sentry.CampaignRemaining.{CampaignId, get_remaining_opt, decrease_by}
use adex_validator_stack_rus.Sentry.CampaignRemaining.Effects.{decrease_by_lem}
use adex_validator_stack_rus.Sentry.Accounting.{Database, spend_amount}
use adex_validator_stack_rus.Sentry.Accounting.Rows.{spend_amount-IsChecked}
use adex_validator_stack_rus.Sentry.Events.Defs.{
  event, campaign_remaining_not_enough_for_payout, Cost, State, pay, has_enough_remaining_budget,
  event_payouts, event_balances, spend_events, spend_for_events,
}
use adex_validator_stack_rus.Sentry.Events.Costs.{cost_of_all, spend_events_lem, new-IsSpent}

module _ (redis : Redis) (laws : RedisLaws redis) (db : Database) where
  -- The budget that a campaign has left, as the check of an event sees it.
  abbrev pub budget_left : State redis → CampaignId → ℕ
  budget_left s c = clamp (or_zero (laws.value c s.store))

  -- The budget left was more than `n` and is now less by `n`; no other campaign's has changed.
  abbrev pub TakesBudget : State redis → State redis → CampaignId → ℕ → Type 0
  TakesBudget s s' c n =
      (n < budget_left s c)
      × (laws.value c s'.store ≡ some (pos (budget_left s c - n)))
      × ((j : CampaignId) → (j == c) ≡ false → laws.value j s'.store ≡ laws.value j s.store)

  pay_inv :
      (c : CampaignId) (n : UnifiedNum) (delta : Balances) (s s' : State redis)
      → pay redis db c n delta s ≡ (ok tt, s')
      → (old : Option ℤ) × (r : ℤ) × (results : List UnifiedNum × List UnifiedNum) × (redis.get c
            s.store
          ≡ some old)
        × (n < clamp (or_zero old))
        × (decrease_by redis c n s.store ≡ (ok r, s'.store))
        × (spend_amount db delta s.rows ≡ (ok results, s'.rows))
  unfolding pay has_enough_remaining_budget get_remaining_opt
  pay_inv c n delta s s' h = elim (Option-cases (redis.get c s.store)) [
    | inl e ↦ absurd (ground arith)
    | inr (old, e) ↦ elim (Bool-cases (ltb n (clamp (or_zero old)))) [
      | inr short ↦ absurd (ground arith)
      | inl enough ↦ elim (Result-cases (decrease_by redis c n s.store).0) [
        | inr bad ↦ absurd (ground (arith, bad))
        | inl (r, d) ↦ elim (Result-cases (spend_amount db delta s.rows).0) [
          | inr bad ↦ absurd (ground (arith, bad))
          | inl (results, p) ↦ (old, r, results, e, ground arith, ground arith, ground arith)
        ]
      ]
    ]
  ]

  pay_lem :
      (c : CampaignId) (n : UnifiedNum) (delta : Balances) (s s' : State redis)
      → pay redis db c n delta s ≡ (ok tt, s')
      → TakesBudget s s' c n
        × ((results : List UnifiedNum × List UnifiedNum) × (spend_amount db delta s.rows
              ≡ (ok results, s'.rows)))
  pay_lem c n delta s s' h =
      let (old, r, results, e, enough, d, p) = pay_inv c n delta s s' h in
      let same = laws.get_value c s.store old e in
      let (left, after) = decrease_by_lem redis laws c n s.store s'.store r d in
      let here = after c in
      ((ground arith, ground arith, λ j other. ground (arith, after j)), (results, p))

  -- Where the budget left can be read, events that cost as much as is left, or more, are refused,
  -- and nothing is taken or written.
  pub pay_refuses :
      (c : CampaignId) (n : UnifiedNum) (delta : Balances) (s : State redis) (old : Option ℤ)
      → redis.get c s.store ≡ some old
      → budget_left s c ≤ n
      → pay redis db c n delta s ≡ (err (event campaign_remaining_not_enough_for_payout), s)
  unfolding pay has_enough_remaining_budget get_remaining_opt
  pay_refuses c n delta s old e h = let same = laws.get_value c s.store old e in ground arith

  module _ {Event F : Type 0} (num : RatioOps)
      (get_payout : Event → Result F (Option (Address × UnifiedNum))) where
    -- What holds after events were paid for, with the costs that the payouts and fees make.
    pub record IsPaid (campaign : Campaign) (events : List Event) (leader follower : ValidatorDesc)
        (s s' : State redis) (costs : List (Event × Cost)) : Type 0 where
      pub priced :
          (payouts : List (Event × Address × UnifiedNum)) × (event_payouts num get_payout events
            ≡ ok payouts)
          × (event_balances num get_payout leader follower payouts ≡ ok costs)
      pub budget : TakesBudget s s' campaign.id (cost_of_all (map (λ c. c.1) costs))
      pub balanced : IsChecked s'.rows
      pub spent :
          sum_values s'.rows.spenders
          ≡ sum_values s.rows.spenders + cost_of_all (map (λ c. c.1) costs)

    -- Over a balanced accounting, paying for events takes exactly their cost, payouts and both
    -- fees, from the campaign's budget, which must have held more, and adds exactly that cost to
    -- what was spent and to what was earned in the accounting, which stays balanced.
    pub spend_for_events_sound :
        (campaign : Campaign) (events : List Event) (leader follower : ValidatorDesc)
        (s s' : State redis) (results : List (Event × Address × UnifiedNum))
        → IsChecked s.rows
        → spend_for_events redis num get_payout db campaign events leader follower s
          ≡ (ok results, s')
        → (costs : List (Event × Cost)) × IsPaid campaign events leader follower s s' costs
          × (results ≡ map (λ c. (c.0, c.1.earner, c.1.amount)) costs)
    unfolding spend_for_events
    spend_for_events_sound campaign events leader follower s s' results checked h =
        elim (Result-cases (event_payouts num get_payout events)) [
          | inr bad ↦ absurd (ground (arith, bad))
          | inl (payouts, p) ↦
              elim (Result-cases (event_balances num get_payout leader follower payouts)) [
                | inr bad ↦ absurd (ground (arith, bad))
                | inl (costs, q) ↦
                    elim (Result-cases (
                      spend_events campaign.creator leader.id follower.id (0, new)
                        (map (λ c. c.1) costs))) [
                          | inr bad ↦ absurd (ground (arith, bad))
                          | inl ((spending, delta), r) ↦
                              elim (Result-cases (pay redis db campaign.id spending delta s).0) [
                                | inr bad ↦ absurd (ground (arith, bad))
                                | inl (done, d) ↦
                                    let ((ordered, sum), total) =
                                      spend_events_lem campaign.creator leader.id follower.id
                                        (map (λ c. c.1) costs) (0, new) (spending, delta)
                                        new-IsSpent r in
                                    let (takes, (rows_results, rows)) =
                                      pay_lem campaign.id spending delta s s' (ground arith) in
                                    let (balanced, moved) =
                                      spend_amount-IsChecked db delta s.rows ordered checked
                                        (ap (λ t. t.0) rows) in
                                    let after = ap (λ t. t.1) rows in
                                    (
                                      costs,
                                      record {
                                        priced = (payouts, p, q);
                                        budget =
                                            subst (λ n. TakesBudget s s' campaign.id n)
                                              (omega (arith, total)) takes;
                                        balanced = subst IsChecked after balanced;
                                        spent = ground arith;
                                      },
                                      ground arith,
                                    )
                              ]
                        ]
              ]
        ]
