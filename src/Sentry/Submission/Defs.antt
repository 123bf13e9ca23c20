-- ===== src/Sentry/Submission/Defs.antt =====
-- `process_events`: access first, then the payment. The record of the paid events in the analytics
-- is left out: the paid events are what the model returns.
use adex_validator_stack_rus.Prelude.{ℕ, Option, none, some, List, Result, ok, err, aborts}
use Prim.Native.String.{String}
use adex_validator_stack_rus.UnifiedNum.{UnifiedNum}
use adex_validator_stack_rus.BalancesMap.{Address}
use adex_validator_stack_rus.Campaign.{Campaign, ValidatorDesc, campaign_leader, campaign_follower}
use adex_validator_stack_rus.Targeting.Values.{Numbers}
use adex_validator_stack_rus.Targeting.Operators.{Arithmetic}
use adex_validator_stack_rus.Targeting.Input.{Texts}
use adex_validator_stack_rus.Sentry.Redis.{Redis}
use adex_validator_stack_rus.Sentry.Accounting.{Database}
use adex_validator_stack_rus.Sentry.Payout.{Event, Session, Decoder, get_payout}
use adex_validator_stack_rus.Sentry.Events.{State, spend_for_events}
use adex_validator_stack_rus.Sentry.Events.{Error as EventsError}
use adex_validator_stack_rus.Sentry.Access.{
  LimitStore, RateLimit, SubmissionRule, AccessError, campaign_is_expired, forbidden_referrer,
  rules_error, check_access,
}

-- The responses that the route gives.
pub data Response : Type 0 where
  bad_request forbidden too_many_requests : Response

-- `map_err` of the access check.
unfoldable pub response_of : AccessError → Response
response_of forbidden_referrer = forbidden
response_of (rules_error e) = too_many_requests
response_of campaign_is_expired = bad_request

abbrev pub Paid : Type 0
Paid = List (Event × Address × UnifiedNum)

-- What a request comes with, and what the server knows.
pub record Context (num : Numbers) : Type 0 where
  pub arithmetic : Arithmetic
  pub texts : Texts
  pub decoder : Decoder num.Number
  pub hex : ℕ → String
  pub now : ℕ
  pub database : Database
  pub session : Session
  pub auth : Option String
  pub allow : Option (List SubmissionRule)
  pub creator : String
  pub ip_rate_limit : RateLimit

-- The rate limits, and the budgets and accounting.
pub record World (limits : LimitStore) (redis : Redis) : Type 0 where
  pub keys : limits.Store
  pub paying : State redis

module _ (num : Numbers) (limits : LimitStore) (redis : Redis) (x : Context num) where
  -- The payment: an error of another type becomes a `BadRequest`.
  abbrev pub answer : Result EventsError Paid → Option (Result Response Paid)
  answer (ok paid) = some (ok paid)
  answer (err e) = some (err bad_request)
  answer aborts = some aborts

  -- The match on the validators, and what follows it.
  unfoldable pub spend_with :
      Option ValidatorDesc
      → Option ValidatorDesc
      → Campaign
      → List Event
      → World limits redis
      → Option (Result Response Paid) × World limits redis
  unfolding spend_for_events get_payout
  spend_with (some leader) (some follower) c events w =
      let (r, s) =
        spend_for_events redis x.arithmetic.ratio
          (get_payout num x.arithmetic x.texts x.decoder x.now c x.session) x.database c events
          leader follower w.paying in
      (answer r, record { keys = w.keys; paying = s })
  spend_with _ _ c events w = (some (err bad_request), w)

  -- What follows the access check.
  unfoldable pub after_access :
      Campaign
      → List Event
      → State redis
      → Option (Result AccessError (Unit {0})) × limits.Store
      → Option (Result Response Paid) × World limits redis
  unfolding spend_with response_of campaign_leader campaign_follower
  after_access c events s (none, keys) = (none, record { keys = keys; paying = s })
  after_access c events s (some (err e), keys) =
      (some (err (response_of e)), record { keys = keys; paying = s })
  after_access c events s (some aborts, keys) = (some aborts, record { keys = keys; paying = s })
  after_access c events s (some (ok done), keys) =
      spend_with (campaign_leader c) (campaign_follower c) c events
        (record { keys = keys; paying = s })

  -- `process_events`; `none` if the schedule of the access check ends before its rules do.
  unfoldable pub process_events :
      List ℕ
      → Campaign
      → List Event
      → World limits redis
      → Option (Result Response Paid) × World limits redis
  unfolding check_access after_access
  process_events schedule c events w = after_access c events w.paying (
      check_access limits x.hex x.now schedule x.session x.auth x.allow x.creator x.ip_rate_limit c
        events w.keys)
