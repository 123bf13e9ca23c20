-- ===== src/Sentry/Payout/Shown.antt =====
-- Which events pay under rules that only decide whether the ad is shown.
use adex_validator_stack_rus.Prelude.{
  ℕ, ◌≡◌, refl, ap, ◌∙◌, Bool, true, false, Option, none, some, List, [], ◌∷◌, arith, all, All,
  returns, Result, ok,
}
use Prim.Native.String.{String}
use adex_validator_stack_rus.UnifiedNum.{UnifiedNum}
use adex_validator_stack_rus.BalancesMap.{Address}
use adex_validator_stack_rus.Campaign.{EventType, impression, click, Campaign, Pricing}
use adex_validator_stack_rus.Targeting.Values.{Error, Numbers, string}
use adex_validator_stack_rus.Targeting.Operators.{Arithmetic}
use adex_validator_stack_rus.Targeting.Rules.{get_pricing_bounds, get_of, set_show}
use adex_validator_stack_rus.Targeting.Input.{Texts, input_try_get}
use adex_validator_stack_rus.Targeting.Multiple.{with_callback, reported}
use adex_validator_stack_rus.Targeting.Conditions.{
  Env, Condition, IsDefined, holds, show_rules, eval_multiple-show,
}
use adex_validator_stack_rus.Sentry.Payout.Defs.{
  payout_under, Event, event_type, fields_of, Session, Decoder, clamp_price, settle, get_payout,
  input_of,
}

-- What the rules are an implementation of: the publisher earns the lower bound for the event's
-- type if all the conditions hold, and nothing otherwise.
unfoldable pub payout_if : Campaign → Event → Bool → Result Error (Option (Address × UnifiedNum))
unfolding get_pricing_bounds event_type
payout_if c e true = ok (some ((fields_of e).publisher, (get_pricing_bounds c (event_type e)).min))
payout_if c e false = ok none

starting_price :
    (bounds : Pricing) (t : EventType)
    → clamp_price bounds (get_of t ((t, bounds.min) ∷ [])) ≡ bounds.min
unfolding clamp_price get_of
starting_price bounds impression = omega arith
starting_price bounds click = omega arith

settle_show :
    (num : Numbers) {Log : Type 0} (c : Campaign) (e : Event) (log : Log) (b : Bool)
    → settle (get_pricing_bounds c (event_type e)) (fields_of e).publisher (event_type e) (
        returns (
          log,
          set_show num b (record {
            show = true;
            boost = num.f64_one;
            price = (event_type e, (get_pricing_bounds c (event_type e)).min) ∷ [];
          }),
        ))
      ≡ payout_if c e b
unfolding settle payout_if
settle_show num c e log true =
    ap (λ p. ok (some ((fields_of e).publisher, p)))
      (starting_price (get_pricing_bounds c (event_type e)) (event_type e))
settle_show num c e log false = refl

-- For a campaign each of whose rules is `OnlyShowIf` of a Boolean combination (`And`, `Or`, `Not`) of
-- tests whether the text of a variable equals a given text or is one of given texts, and where each
-- variable tested is known at the event and has a text as its value: the event pays the campaign's
-- lower bound for its type to its publisher if all the conditions hold, and nothing otherwise.
pub get_payout-show :
    (num : Numbers) (ar : Arithmetic) (texts : Texts) (decoder : Decoder num.Number) (now : ℕ)
    (c : Campaign) (session : Session) (e : Event) (env : Env) (cs : List Condition)
    → decoder.rules c.targeting_rules ≡ show_rules cs
    → ((key s : String)
        → env key ≡ some s
        → input_try_get num texts now (input_of num ar texts decoder now c e session) key
          ≡ ok (string s))
    → All (IsDefined env) cs
    → get_payout num ar texts decoder now c session e ≡ payout_if c e (all (holds env) cs)
unfolding get_payout payout_under payout_if show_rules
get_payout-show num ar texts decoder now c session e env [] rules knows defined =
    ap (λ rs. payout_under num ar texts decoder now rs c session e) rules
get_payout-show num ar texts decoder now c session e env (k ∷ cs) rules knows defined =
    let input = input_try_get num texts now (input_of num ar texts decoder now c e session) in
    let bounds = get_pricing_bounds c (event_type e) in
    let (es, r) =
      eval_multiple-show ar env input knows (k ∷ cs)
        (record { show = true; boost = num.f64_one; price = (event_type e, bounds.min) ∷ [] }) refl
        defined in
    ap (λ rs. payout_under num ar texts decoder now rs c session e) rules
    ∙ ap (λ o. settle bounds (fields_of e).publisher (event_type e) (with_callback num o)) r
    ∙ settle_show num c e (reported num (all (holds env) (k ∷ cs)) es) (all (holds env) (k ∷ cs))
