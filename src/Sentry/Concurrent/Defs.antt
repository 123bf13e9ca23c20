-- ===== src/Sentry/Concurrent/Defs.antt =====
-- The steps of `spend_for_events` from the check of the budget on, for several requests.
use adex_validator_stack_rus.Prelude.{
  ℕ, zero, suc, Bool, true, false, List, [], ◌∷◌, if◌then◌else◌, ℤ, is_negative, Result, ok, err,
  aborts,
}
use adex_validator_stack_rus.UnifiedNum.{UnifiedNum}
use adex_validator_stack_rus.Balances.{Balances}
use adex_validator_stack_rus.Sentry.Redis.{Redis}
use adex_validator_stack_rus.Sentry.CampaignRemaining.{CampaignId, decrease_by}
use adex_validator_stack_rus.Sentry.Accounting.{Database, spend_amount}
use adex_validator_stack_rus.Sentry.Events.{
  Error, event, campaign_remaining_not_enough_for_payout, campaign_out_of_budget, State, on_redis,
  on_rows, has_enough_remaining_budget,
}

-- What the events of a request cost, and what they add to the accounting.
pub record Request : Type 0 where
  pub spending : UnifiedNum
  pub delta : Balances

-- How far a request has come; an answer says whether the budget was taken.
pub data Phase : Type 0 where
  arrived admitted : Phase
  taken : ℤ → Phase
  answered : Bool → Result Error (Unit {0}) → Phase

module _ (redis : Redis) where
  -- What follows the check of the budget.
  abbrev pub after_check : Result Error Bool × State redis → Phase × State redis
  after_check (ok true, s) = (admitted, s)
  after_check (ok false, s) =
      (answered false (err (event campaign_remaining_not_enough_for_payout)), s)
  after_check (err e, s) = (answered false (err e), s)
  after_check (aborts, s) = (answered false aborts, s)

  -- What follows the decrease.
  abbrev pub after_take : Result Error ℤ × State redis → Phase × State redis
  after_take (ok remaining, s) = (taken remaining, s)
  after_take (err e, s) = (answered false (err e), s)
  after_take (aborts, s) = (answered false aborts, s)

  -- What follows the accounting.
  abbrev pub after_write : {A : Type 0} → ℤ → Result Error A × State redis → Phase × State redis
  after_write remaining (ok rows, s) = (
    answered true (if is_negative remaining then err (event campaign_out_of_budget) else ok tt),
    s,
  )
  after_write remaining (err e, s) = (answered true (err e), s)
  after_write remaining (aborts, s) = (answered true aborts, s)

  module _ (db : Database) (campaign : CampaignId) where
    -- The next step of a request.
    unfoldable pub advance : Request → Phase → State redis → Phase × State redis
    unfolding has_enough_remaining_budget decrease_by spend_amount
    advance r arrived s =
        after_check (on_redis redis (has_enough_remaining_budget redis campaign r.spending) s)
    advance r admitted s = after_take (on_redis redis (decrease_by redis campaign r.spending) s)
    advance r (taken remaining) s =
        after_write remaining (on_rows redis (spend_amount db r.delta) s)
    advance r (answered took reply) s = (answered took reply, s)

    abbrev pub Requests : Type 0
    Requests = List (Request × Phase)

    abbrev pub put_first : Request → Requests → Phase × State redis → Requests × State redis
    put_first r ps (p, s) = ((r, p) ∷ ps, s)

    abbrev pub put_behind : Request × Phase → Requests × State redis → Requests × State redis
    put_behind q (ps, s) = (q ∷ ps, s)

    -- The next step of the request at a position.
    unfoldable pub step_at : ℕ → Requests → State redis → Requests × State redis
    unfolding advance
    step_at n [] s = ([], s)
    step_at zero ((r, p) ∷ ps) s = put_first r ps (advance r p s)
    step_at (suc n) (q ∷ ps) s = put_behind q (step_at n ps s)

    -- The steps of a schedule.
    unfoldable pub run : List ℕ → Requests → State redis → Requests × State redis
    unfolding step_at
    run [] ps s = (ps, s)
    run (n ∷ ns) ps s = let (ps', s') = step_at n ps s in run ns ps' s'
