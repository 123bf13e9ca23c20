-- ===== src/Sentry/Events/Defs.antt =====
-- The handlers. What an event pays (`get_payout`) is a parameter: it evaluates the targeting rules.
use adex_validator_stack_rus.Prelude.{
  Bool, not, ◌&&◌, Option, none, some, List, [], ◌∷◌, map, ltb, if◌then◌else◌, clamp, is_negative,
  or_zero, Result, ok, err, aborts, ok_or, map_err,
}
use adex_validator_stack_rus.Prelude.Actions.{Action, lift, pure, ◌>>=◌}
use adex_validator_stack_rus.UnifiedNum.{UnifiedNum, checked_add, sum}
use adex_validator_stack_rus.UnifiedNum.Ratio.{RatioOps, checked_mul}
use adex_validator_stack_rus.BalancesMap.{Address}
use adex_validator_stack_rus.Balances.{Balances, OverflowError, new, spend}
use adex_validator_stack_rus.Campaign.{Campaign, ValidatorDesc}
use adex_validator_stack_rus.Sentry.Redis.{Redis}
use adex_validator_stack_rus.Sentry.CampaignRemaining.{
  CampaignId, RedisError, get_remaining_opt, decrease_by,
}
use adex_validator_stack_rus.Sentry.Accounting.{Database, PoolError, spend_amount}

-- `EventError`; the payload of `DomainError` is left out.
pub data EventError : Type 0 where
  event_payout_overflow fee_calculation : EventError
  campaign_remaining_not_enough_for_payout campaign_out_of_budget : EventError

-- `insert_events::Error`
pub data Error : Type 0 where
  event : EventError → Error
  redis_failure : RedisError → Error
  postgres : PoolError → Error
  overflow : OverflowError → Error

-- What an event costs: who earns how much, and the fees of the leader and of the follower.
pub record Cost : Type 0 where
  pub earner : Address
  pub amount : UnifiedNum
  pub leader_fee : UnifiedNum
  pub follower_fee : UnifiedNum

-- `calculate_fee`
unfoldable pub calculate_fee : RatioOps → UnifiedNum → ValidatorDesc → Result EventError UnifiedNum
calculate_fee num payout validator = ok_or fee_calculation (checked_mul num payout validator.fee)

-- The first `try_fold`'s step: the cost of one event, added to the spending and to the balances.
unfoldable pub spend_event :
    Address
    → Address
    → Address
    → UnifiedNum × Balances
    → Cost
    → Result Error (UnifiedNum × Balances)
spend_event creator leader follower (spending, balances) c =
    elim (sum (c.amount ∷ c.leader_fee ∷ c.follower_fee ∷ [])) [
      | none ↦ err (event event_payout_overflow)
      | some event_spending ↦ elim (checked_add spending event_spending) [
        | none ↦ err (event event_payout_overflow)
        | some spending' ↦
            let (b1, r1) = spend creator leader c.leader_fee balances in
            let (b2, r2) = spend creator follower c.follower_fee b1 in
            let (b3, r3) = spend creator c.earner c.amount b2 in
            elim r1 [
              | err e ↦ err (overflow e)
              | aborts ↦ aborts
              | ok _ ↦ elim r2 [
                | err e ↦ err (overflow e)
                | aborts ↦ aborts
                | ok _ ↦ elim r3 [
                  | err e ↦ err (overflow e)
                  | aborts ↦ aborts
                  | ok _ ↦ ok (spending', b3)
                ]
              ]
            ]
      ]
    ]

-- `try_fold`
unfoldable pub spend_events :
    Address
    → Address
    → Address
    → UnifiedNum × Balances
    → List Cost
    → Result Error (UnifiedNum × Balances)
unfolding spend_event
spend_events creator leader follower acc [] = ok acc
spend_events creator leader follower acc (c ∷ cs) =
    elim (spend_event creator leader follower acc c) [
      | ok acc' ↦ spend_events creator leader follower acc' cs
      | err e ↦ err e
      | aborts ↦ aborts
    ]

module _ {Event F : Type 0} (num : RatioOps)
    (get_payout : Event → Result F (Option (Address × UnifiedNum))) where
  -- `filter_map` and `collect`: an event that is not shown pays nothing; the first error ends it.
  unfoldable pub event_payouts :
      List Event → Result EventError (List (Event × Address × UnifiedNum))
  event_payouts [] = ok []
  event_payouts (e ∷ es) = elim (get_payout e) [
    | err _ ↦ err fee_calculation
    | aborts ↦ aborts
    | ok none ↦ event_payouts es
    | ok (some paid) ↦ elim (event_payouts es) [
      | ok rest ↦ ok ((e, paid.0, paid.1) ∷ rest)
      | err f ↦ err f
      | aborts ↦ aborts
    ]
  ]

  -- `event_balances`: the fees of both validators for each payout.
  unfoldable pub event_balances :
      ValidatorDesc
      → ValidatorDesc
      → List (Event × Address × UnifiedNum)
      → Result EventError (List (Event × Cost))
  unfolding calculate_fee
  event_balances leader follower [] = ok []
  event_balances leader follower ((e, earner, amount) ∷ es) =
      elim (calculate_fee num amount leader) [
        | err f ↦ err f
        | aborts ↦ aborts
        | ok leader_fee ↦ elim (calculate_fee num amount follower) [
          | err f ↦ err f
          | aborts ↦ aborts
          | ok follower_fee ↦ elim (event_balances leader follower es) [
            | err f ↦ err f
            | aborts ↦ aborts
            | ok rest ↦ ok (
                (
                  e,
                  record {
                    earner = earner;
                    amount = amount;
                    leader_fee = leader_fee;
                    follower_fee = follower_fee;
                  },
                )
                ∷ rest)
          ]
        ]
      ]

-- The budgets left in Redis, and the rows of the campaign's channel in Postgres.
pub record State (redis : Redis) : Type 0 where
  pub store : redis.Store
  pub rows : Balances

module _ (redis : Redis) where
  -- A call of Redis.
  abbrev pub on_redis :
      {A : Type 0} → Action redis.Store RedisError A → Action (State redis) Error A
  on_redis m s =
      let (r, store') = m s.store in
      (map_err redis_failure r, record { store = store'; rows = s.rows })

  -- A call of Postgres.
  abbrev pub on_rows : {A : Type 0} → Action Balances PoolError A → Action (State redis) Error A
  on_rows m s =
      let (r, rows') = m s.rows in (map_err postgres r, record { store = s.store; rows = rows' })

  -- `has_enough_remaining_budget`
  unfoldable pub has_enough_remaining_budget :
      CampaignId → UnifiedNum → Action redis.Store RedisError Bool
  has_enough_remaining_budget campaign amount = do
    remaining ← get_remaining_opt redis campaign
    pure (ltb 0 (clamp (or_zero remaining)) && ltb amount (clamp (or_zero remaining)))

  -- From the check of the budget to the end.
  unfoldable pub pay :
      Database → CampaignId → UnifiedNum → Balances → Action (State redis) Error (Unit {0})
  unfolding has_enough_remaining_budget
  pay db campaign spending delta_balances = do
    enough ← on_redis (has_enough_remaining_budget campaign spending)
    if not enough then lift (err (event campaign_remaining_not_enough_for_payout)) else do
      remaining ← on_redis (decrease_by redis campaign spending)
      updated ← on_rows (spend_amount db delta_balances)
      if is_negative remaining then lift (err (event campaign_out_of_budget)) else pure tt

module _ (redis : Redis) {Event F : Type 0} (num : RatioOps)
    (get_payout : Event → Result F (Option (Address × UnifiedNum))) where
  unfoldable pub spend_for_events :
      Database
      → Campaign
      → List Event
      → ValidatorDesc
      → ValidatorDesc
      → Action (State redis) Error (List (Event × Address × UnifiedNum))
  unfolding event_payouts event_balances spend_events pay
  spend_for_events db campaign events leader follower = do
    payouts ← lift (map_err event (event_payouts num get_payout events))
    costs ← lift (map_err event (event_balances num get_payout leader follower payouts))
    spent ←
        lift (spend_events campaign.creator leader.id follower.id (0, new) (map (λ c. c.1) costs))
    paid ← pay redis db campaign.id spent.0 spent.1
    pure (map (λ c. (c.0, c.1.earner, c.1.amount)) costs)
