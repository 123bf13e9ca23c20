-- ===== src/Sentry/Access/Defs.antt =====
-- `check_access`. The rules of a campaign are applied concurrently; the order in which their
-- commands reach Redis is a schedule, a list of positions in the list of rules.
use adex_validator_stack_rus.Prelude.{
  ℕ, zero, suc, Bool, true, false, ◌||◌, Option, none, some, List, [], ◌∷◌, map, ltb, ◌==◌,
  if◌then◌else◌, length, any, all, Result, ok, err, aborts, bind_option, or_default,
}
use Prim.Native.String.{String, ◌++◌ as ◌++ˢ◌}
use text.Mathlib.Text.{◌==◌ as ◌=ˢ◌, starts_with}
use adex_validator_stack_rus.Targeting.Texts.{split}
use adex_validator_stack_rus.Campaign.{Campaign}
use adex_validator_stack_rus.Sentry.Payout.{Session, Event}

pub record RateLimit : Type 0 where
  pub limit_type : String
  pub time_frame : ℕ

-- `event_submission::Rule`
pub record SubmissionRule : Type 0 where
  pub uids : Option (List String)
  pub rate_limit : Option RateLimit

-- The texts of a failed rule.
pub data RuleError : Type 0 where
  only_one_event too_many_requests redis_error : RuleError

-- `access::Error`
pub data AccessError : Type 0 where
  campaign_is_expired forbidden_referrer : AccessError
  rules_error : RuleError → AccessError

-- `EXISTS` and `SETEX` of Redis, `none` if a command fails; and the seconds of a time frame,
-- `as_secs_f32().ceil() as i32`.
pub record LimitStore : Type 1 where
  pub Store : Type 0
  pub exists : String → Store → Option Bool
  pub set_ex : String → ℕ → Store → Option Store
  pub seconds : ℕ → ℕ

-- `Iterator::nth`
abbrev pub nth {ℓ} : {A : Type ℓ} → List A → ℕ → Option A
nth [] n = none
nth (x ∷ xs) zero = some x
nth (x ∷ xs) (suc n) = nth xs n

abbrev pub is_local : String → Bool
is_local host =
    (host =ˢ "localhost")
    || (host =ˢ "127.0.0.1")
    || starts_with host "localhost:"
    || starts_with host "127.0.0.1:"

-- `forbidden_referrer`
unfoldable pub forbidden_referrer_of : Session → Bool
unfolding split
forbidden_referrer_of session =
    elim (bind_option session.referrer_header λ rf. nth (split rf "/") 2) [
      | none ↦ false
      | some hostname ↦ is_local hostname
    ]

-- `forbidden_country`
unfoldable pub forbidden_country : Session → Bool
forbidden_country session = elim session.country [ none ↦ false | some country ↦ country =ˢ "XX" ]

abbrev pub names : String → SubmissionRule → Bool
names uid r = elim r.uids [ none ↦ true | some uids ↦ any (λ u. u =ˢ uid) uids ]

-- `iter().filter(..)`: the rules that apply to a user.
unfoldable pub applicable : String → List SubmissionRule → List SubmissionRule
applicable uid [] = []
applicable uid (r ∷ rs) = if names uid r then r ∷ applicable uid rs else applicable uid rs

-- The rules of a campaign that has none: its creator is free, and everyone is limited.
abbrev pub default_rules : String → RateLimit → List SubmissionRule
default_rules creator limit =
    record { uids = some (creator ∷ []); rate_limit = none }
    ∷ record { uids = none; rate_limit = some limit }
    ∷ []

abbrev pub is_unlimited : SubmissionRule → Bool
is_unlimited r = elim r.rate_limit [ none ↦ true | some _ ↦ false ]

-- How far `apply_rule` has come: before `EXISTS`, before `SETEX`, or at its end.
pub data Task : Type 0 where
  checking writing : String → ℕ → Task
  finished : Task
  refused : RuleError → Task

-- `apply_rule` up to its first command.
unfoldable pub task_of :
    (hex : ℕ → String) → Campaign → List Event → String → Session → SubmissionRule → Task
task_of hex c events uid session r = elim r.rate_limit [
  | none ↦ finished
  | some limit ↦
      if limit.limit_type =ˢ "sid"
      then checking ("adexRateLimit:" ++ˢ hex c.id ++ˢ ":" ++ˢ uid) limit.time_frame
      else if limit.limit_type =ˢ "ip"
      then (if length events == 1
          then checking ("adexRateLimit:" ++ˢ hex c.id ++ˢ ":" ++ˢ or_default "" session.ip)
              limit.time_frame
          else refused only_one_event)
      else finished
]

module _ (redis : LimitStore) where
  -- What follows the answers of `EXISTS` and of `SETEX`.
  abbrev pub after_exists :
      String → ℕ → redis.Store → Option Bool → Result RuleError Task × redis.Store
  after_exists key time s none = (err redis_error, s)
  after_exists key time s (some true) = (err too_many_requests, s)
  after_exists key time s (some false) = (ok (writing key time), s)

  abbrev pub after_set : redis.Store → Option redis.Store → Result RuleError Task × redis.Store
  after_set s none = (err redis_error, s)
  after_set s (some s') = (ok finished, s')

  -- The next command of `apply_rule`.
  unfoldable pub advance : Task → redis.Store → Result RuleError Task × redis.Store
  advance (checking key time) s = after_exists key time s (redis.exists key s)
  advance (writing key time) s = after_set s (redis.set_ex key (redis.seconds time) s)
  advance finished s = (ok finished, s)
  advance (refused e) s = (err e, s)

  abbrev pub Joint : Type 0
  Joint = Result RuleError (List Task) × redis.Store

  -- A step among the rules: the first error is that of all.
  abbrev pub put_first : List Task → Result RuleError Task × redis.Store → Joint
  put_first ts (ok t, s) = (ok (t ∷ ts), s)
  put_first ts (err e, s) = (err e, s)
  put_first ts (aborts, s) = (aborts, s)

  abbrev pub put_behind : Task → Joint → Joint
  put_behind t (ok ts, s) = (ok (t ∷ ts), s)
  put_behind t (err e, s) = (err e, s)
  put_behind t (aborts, s) = (aborts, s)

  abbrev pub proceed : (List Task → redis.Store → Joint) → Joint → Joint
  proceed k (ok ts, s) = k ts s
  proceed k (err e, s) = (err e, s)
  proceed k (aborts, s) = (aborts, s)

  -- One step of the rule at a position.
  unfoldable pub step_at : ℕ → List Task → redis.Store → Joint
  unfolding advance
  step_at n [] s = (ok [], s)
  step_at zero (t ∷ ts) s = put_first ts (advance t s)
  step_at (suc n) (t ∷ ts) s = put_behind t (step_at n ts s)

  -- `try_join_all`: the first error ends it.
  unfoldable pub run_tasks : List ℕ → List Task → redis.Store → Joint
  unfolding step_at
  run_tasks [] ts s = (ok ts, s)
  run_tasks (n ∷ ns) ts s = proceed (run_tasks ns) (step_at n ts s)

  -- Every rule has ended.
  abbrev pub all_finished : List Task → Bool
  all_finished ts = all (λ t. elim t [ finished ↦ true | _ ↦ false ]) ts

  abbrev pub joined : Result RuleError (List Task) → Option (Result AccessError (Unit {0}))
  joined (ok ts) = if all_finished ts then some (ok tt) else none
  joined (err e) = some (err (rules_error e))
  joined aborts = none

  -- `check_access` under a schedule; `none` if the schedule ends before the rules do.
  unfoldable pub check_access :
      (hex : ℕ → String) (now : ℕ)
      → List ℕ
      → Session
      → Option String
      → (allow : Option (List SubmissionRule)) → (creator : String) → RateLimit
      → Campaign
      → List Event
      → redis.Store
      → Option (Result AccessError (Unit {0})) × redis.Store
  unfolding forbidden_country forbidden_referrer_of applicable task_of run_tasks
  check_access hex now schedule session auth allow creator limit c events s =
      let uid = or_default "" auth in
      let rules = applicable uid (or_default (default_rules creator limit) allow) in
      if ltb c.active.to now
      then (some (err campaign_is_expired), s)
      else if forbidden_country session || forbidden_referrer_of session
      then (some (err forbidden_referrer), s)
      else if any is_unlimited rules
      then (some (ok tt), s)
      else let (r, s') = run_tasks schedule (map (task_of hex c events uid session) rules) s in
        (joined r, s')
