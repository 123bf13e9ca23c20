-- ===== src/Sentry/Payout/Defs.antt =====
-- `get_payout`. The rules and the ad units of a campaign are kept as their serialized text, which
-- `serde` decodes.
use adex_validator_stack_rus.Prelude.{
  ℕ, min, max, Bool, true, false, Option, none, some, List, [], ◌∷◌, map, ◌==◌, if◌then◌else◌,
  Outcome, returns, panics, Result, ok, aborts,
}
use Prim.Native.String.{String}
use adex_validator_stack_rus.UnifiedNum.{UnifiedNum}
use adex_validator_stack_rus.BalancesMap.{Address}
use adex_validator_stack_rus.Campaign.{EventType, impression, click, Campaign, Pricing}
use adex_validator_stack_rus.Targeting.Values.{Error, Numbers}
use adex_validator_stack_rus.Targeting.Operators.{Arithmetic}
use adex_validator_stack_rus.Targeting.Rules.{Output, Rule, get_pricing_bounds, get_of}
use adex_validator_stack_rus.Targeting.Input.{Ipfs, Texts, Input, with_campaign, input_try_get}
use adex_validator_stack_rus.Targeting.Multiple.{eval_with_callback}

-- The fields that an `Event` has in either variant.
pub record EventFields : Type 0 where
  pub publisher : Address
  pub ad_unit : Ipfs
  pub ad_slot : Ipfs
  pub referrer : Option String

pub data Event : Type 0 where
  impression_event click_event : EventFields → Event

-- `Event::event_type`
unfoldable pub event_type : Event → EventType
event_type (impression_event f) = impression
event_type (click_event f) = click

-- The pattern of `get_payout` that both variants match.
abbrev pub fields_of : Event → EventFields
fields_of (impression_event f) = f
fields_of (click_event f) = f

pub record Session : Type 0 where
  pub ip : Option String
  pub country : Option String
  pub referrer_header : Option String
  pub os : Option String

-- Of `AdUnit`, what the evaluation reads.
pub record AdUnit : Type 0 where
  pub ipfs : Ipfs
  pub ad_type : String

-- `serde`'s decoding of the rules and of the ad units.
pub record Decoder (N : Type 0) : Type 0 where
  pub rules : List String → List (Rule N)
  pub ad_unit : String → AdUnit

-- `iter().find(|u| &u.ipfs == ad_unit)`
unfoldable pub find_unit : Ipfs → List AdUnit → Option AdUnit
find_unit ipfs [] = none
find_unit ipfs (u ∷ us) = if u.ipfs == ipfs then some u else find_unit ipfs us

-- `is_empty`
abbrev pub is_empty {ℓ} : {A : Type ℓ} → List A → Bool
is_empty [] = true
is_empty (_ ∷ _) = false

-- The price that the rules set, within the bounds.
unfoldable pub clamp_price : Pricing → Option UnifiedNum → UnifiedNum
clamp_price bounds none = max bounds.min bounds.max
clamp_price bounds (some price) = max bounds.min (min bounds.max price)

-- What follows the evaluation of the rules: the price they set, if the ad is still shown.
unfoldable pub settle :
    {num : Numbers} {Log : Type 0}
    → Pricing
    → Address
    → EventType
    → Outcome (Log × Output num)
    → Result Error (Option (Address × UnifiedNum))
unfolding clamp_price get_of
settle bounds publisher t panics = aborts
settle bounds publisher t (returns (errors, out)) =
    if out.show then ok (some (publisher, clamp_price bounds (get_of t out.price))) else ok none

module _ (num : Numbers) (ar : Arithmetic) (texts : Texts) (decoder : Decoder num.Number)
    (now : ℕ) where
  -- What the rules can read.
  unfoldable pub input_of : Campaign → Event → Session → Input
  unfolding find_unit with_campaign event_type
  input_of c e session =
      let f = fields_of e in
      let unit = find_unit f.ad_unit (map (λ u. decoder.ad_unit u) c.ad_units) in
      with_campaign c (record {
        ad_view = none;
        global = record {
          ad_slot_id = f.ad_slot;
          ad_slot_type = elim unit [ none ↦ "" | some u ↦ u.ad_type ];
          publisher_id = f.publisher;
          country = session.country;
          event_type = event_type e;
          seconds_since_epoch = now;
          user_agent_os = session.os;
          user_agent_browser_family = none;
        };
        campaign = none;
        balances = none;
        ad_unit_id = elim unit [ none ↦ none | some u ↦ some u.ipfs ];
        ad_slot = none;
      })

  -- `get_payout` under the campaign's rules, decoded, less the log of type errors.
  unfoldable pub payout_under :
      List (Rule num.Number)
      → Campaign
      → Session
      → Event
      → Result Error (Option (Address × UnifiedNum))
  unfolding input_of settle get_pricing_bounds eval_with_callback input_try_get event_type
  payout_under rules c session e =
      let bounds = get_pricing_bounds c (event_type e) in
      if is_empty rules
      then ok (some ((fields_of e).publisher, bounds.min))
      else settle bounds (fields_of e).publisher (event_type e) (
          eval_with_callback num ar (input_try_get num texts now (input_of c e session)) rules
            (record { show = true; boost = num.f64_one; price = (event_type e, bounds.min) ∷ [] }))

  -- `get_payout`
  unfoldable pub get_payout :
      Campaign → Session → Event → Result Error (Option (Address × UnifiedNum))
  unfolding payout_under
  get_payout c session e = payout_under (decoder.rules c.targeting_rules) c session e
