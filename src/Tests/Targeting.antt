-- ===== src/Tests/Targeting.antt =====
-- The theorems on the targeting rules and on payouts at concrete data.
use adex_validator_stack_rus.Prelude.{
  ℕ, ◌≡◌, refl, true, false, Option, none, some, List, [], ◌∷◌, map, arith, ◌==◌, all, All, release,
  pos, clamp, returns, Result, ok, err, aborts,
}
use Prim.Native.String.{String}
use adex_validator_stack_rus.UnifiedNum.{sum, sum_from}
use adex_validator_stack_rus.UnifiedNum.Ratio.{checked_mul}
use adex_validator_stack_rus.BalancesMap.{get as get_entry, insert as insert_entry}
use adex_validator_stack_rus.Balances.{new, spend, credit}
use adex_validator_stack_rus.Campaign.{impression, Campaign}
use adex_validator_stack_rus.Targeting.Values.{
  Error, type_error, Numbers, Value, number, string, unified, bool, array,
}
use adex_validator_stack_rus.Targeting.Operators.{Arithmetic}
use adex_validator_stack_rus.Targeting.Rules.{Rule, Output, function, value, add, set}
use adex_validator_stack_rus.Targeting.Eval.{eval}
use adex_validator_stack_rus.Targeting.Frame.{IsReading, eval_reading}
use adex_validator_stack_rus.Targeting.Input.{Texts, input_try_get}
use adex_validator_stack_rus.Targeting.Conditions.{
  Env, Condition, text_is, negation, IsDefined, holds, show_rules,
}
use adex_validator_stack_rus.Sentry.CampaignRemaining.{get_remaining_opt, decrease_by}
use adex_validator_stack_rus.Sentry.Accounting.{upsert, upsert_all, spend_amount}
use adex_validator_stack_rus.Sentry.Payout.{
  Event, impression_event, Session, Decoder, get_payout, payout_under, input_of,
}
use adex_validator_stack_rus.Sentry.Payout.Bounds.{IsPriced, get_payout-bounds}
use adex_validator_stack_rus.Sentry.Payout.Shown.{payout_if, get_payout-show}
use adex_validator_stack_rus.Sentry.Events.{
  State, calculate_fee, spend_event, spend_events, event_payouts, event_balances,
  has_enough_remaining_budget, pay, spend_for_events,
}
use adex_validator_stack_rus.Tests.Numbers.{numbers, product_ratio}
use adex_validator_stack_rus.Tests.Memory.{memory, put}
use adex_validator_stack_rus.Tests.Campaign.{campaign, leader_desc, follower_desc}
use adex_validator_stack_rus.Tests.Budget.{store}
use adex_validator_stack_rus.Tests.Events.{db, state}

-- Numbers that are all `u64`.
abbrev pub whole : Numbers
whole = record {
  Number = ℕ;
  F64 = ℕ;
  as_u64 = λ n. some n;
  as_i64 = λ n. some (pos n);
  as_f64 = λ n. some n;
  is_u64 = λ n. true;
  is_f64 = λ n. false;
  from_u64 = λ n. n;
  from_i64 = λ z. clamp z;
  from_f64 = λ n. some n;
  equal = λ a b. a == b;
  f64_math = λ op a b. a;
  f64_compare = λ op a b. a == b;
  f64_one = 1;
  f64_whole = λ n. some n;
  f64_fraction = λ n. some 0;
  parse_unified = λ s. none;
  as_u64_from_u64 = λ n h. refl;
}

abbrev pub arithmetic : Arithmetic
arithmetic = record {
  build = release;
  ratio = numbers;
  ratio_mul = λ x y. returns (product_ratio x y);
}

abbrev nothing : String → Result Error (Value ℕ)
nothing key = err type_error

abbrev output : Output whole
output = record { show = true; boost = 1; price = [] }

abbrev sum_rule : Rule ℕ
sum_rule = function (add (value (number 2)) (value (number 3)))

eval_reading_example : (eval whole arithmetic nothing sum_rule output).1 ≡ output
unfolding IsReading
eval_reading_example = eval_reading whole arithmetic nothing sum_rule output (tt, tt)

abbrev pub texts : Texts
texts = record { address = λ a. "address"; ipfs = λ i. "ipfs"; campaign_id = λ c. "campaign" }

-- Every rule sets the price of an impression to 900.
abbrev pub greedy : Decoder ℕ
greedy = record {
  rules = λ rules. map (λ r. function (set "price.IMPRESSION" (value (unified 900)))) rules;
  ad_unit = λ s. record { ipfs = 1; ad_type = s };
}

abbrev pub priced_campaign : Campaign
priced_campaign = record campaign {
  pricing_bounds = (impression, record { min = 10; max = 20 }) ∷ [];
  targeting_rules = "rule" ∷ [];
}

abbrev pub seen : Event
seen = impression_event (record { publisher = 8; ad_unit = 1; ad_slot = 2; referrer = none })

abbrev pub session : Session
session = record { ip = none; country = some "BG"; referrer_header = none; os = none }

pays_the_bound :
    get_payout whole arithmetic texts greedy 1000 priced_campaign session seen ≡ ok (some (8, 20))
unfolding get_payout payout_under
pays_the_bound = refl

get_payout-bounds_example : IsPriced priced_campaign seen 8 20
get_payout-bounds_example =
    get_payout-bounds whole arithmetic texts greedy 1000 priced_campaign session seen 8 20
      pays_the_bound

abbrev pub spent : State memory
spent = record {
  store = put 5 (some (pos 20)) store;
  rows = record { earners = (1, 4) ∷ (2, 6) ∷ (8, 23) ∷ (9, 2) ∷ []; spenders = (7, 35) ∷ [] };
}

pub pays_for_one :
    spend_for_events memory numbers
      (get_payout whole arithmetic texts greedy 1000 priced_campaign session)
      db
      priced_campaign
      (seen ∷ [])
      leader_desc
      follower_desc
      state
    ≡ (ok ((seen, 8, 20) ∷ []), spent)
unfolding get_payout payout_under spend_for_events event_payouts event_balances calculate_fee
    checked_mul spend_events spend_event pay has_enough_remaining_budget get_remaining_opt
    decrease_by spend_amount upsert_all upsert get_entry insert_entry sum sum_from new spend credit
pays_for_one = refl

-- Not shown in the country "XX".
abbrev conditions : List Condition
conditions = negation (text_is "country" "XX") ∷ []

abbrev local : Decoder ℕ
local = record {
  rules = λ rules. show_rules conditions;
  ad_unit = λ s. record { ipfs = 1; ad_type = s };
}

-- The variables that are texts.
abbrev text_of : Result Error (Value ℕ) → Option String
text_of (ok (string s)) = some s
text_of _ = none

text_of_inv : (r : Result Error (Value ℕ)) (s : String) → text_of r ≡ some s → r ≡ ok (string s)
text_of_inv (ok (string t)) s h = ground arith
text_of_inv (ok (number n)) s h = absurd (ground arith)
text_of_inv (ok (bool b)) s h = absurd (ground arith)
text_of_inv (ok (array a)) s h = absurd (ground arith)
text_of_inv (ok (unified u)) s h = absurd (ground arith)
text_of_inv (err e) s h = absurd (ground arith)
text_of_inv aborts s h = absurd (ground arith)

abbrev env : Env
unfolding input_of input_try_get
env key = text_of (
    input_try_get whole texts 1000
      (input_of whole arithmetic texts local 1000 priced_campaign seen session) key)

env-IsDefined : All (IsDefined env) conditions
unfolding IsDefined input_of input_try_get
env-IsDefined = (("BG", refl), tt)

env_knows :
    (key s : String)
    → env key ≡ some s
    → input_try_get whole texts 1000
        (input_of whole arithmetic texts local 1000 priced_campaign seen session)
        key
      ≡ ok (string s)
unfolding env
env_knows key s h =
    text_of_inv
      (input_try_get whole texts 1000
        (input_of whole arithmetic texts local 1000 priced_campaign seen session) key)
      s h

get_payout-show_example :
    get_payout whole arithmetic texts local 1000 priced_campaign session seen
    ≡ payout_if priced_campaign seen (all (holds env) conditions)
get_payout-show_example =
    get_payout-show whole arithmetic texts local 1000 priced_campaign session seen env conditions
      refl env_knows env-IsDefined
