-- ===== src/Sentry/Slot/Defs.antt =====
-- units_for_slot.rs: the ad units that an ad slot is offered, with their prices.
use adex_validator_stack_rus.Prelude.{
  ℕ, min, max, true, not, Option, none, some, List, [], ◌∷◌, map, ltb, if◌then◌else◌, Outcome,
  returns, panics,
}
use Prim.Native.String.{String}
use text.Mathlib.Text.{◌==◌ as ◌=ˢ◌}
use adex_validator_stack_rus.UnifiedNum.{UnifiedNum}
use adex_validator_stack_rus.Campaign.{Campaign, Pricing, impression}
use adex_validator_stack_rus.Targeting.Values.{Numbers}
use adex_validator_stack_rus.Targeting.Operators.{Arithmetic}
use adex_validator_stack_rus.Targeting.Rules.{Rule, Output, get_pricing_bounds, get_of}
use adex_validator_stack_rus.Targeting.Input.{Ipfs, Texts, Input, with_campaign, input_try_get}
use adex_validator_stack_rus.Targeting.Multiple.{eval_with_callback}

-- `response::AdUnit`
pub record UnitResponse : Type 0 where
  pub ipfs : Ipfs
  pub media_url : String
  pub media_mime : String
  pub target_url : String

-- Of the `AdUnit` of a campaign, what is read here.
pub record SlotUnit : Type 0 where
  pub ad_type : String
  pub unit : UnitResponse

-- `response::UnitsWithPrice`
pub record UnitsWithPrice : Type 0 where
  pub unit : UnitResponse
  pub price : UnifiedNum

-- `response::Campaign`
pub record CampaignResponse : Type 0 where
  pub campaign : Campaign
  pub units_with_price : List UnitsWithPrice

-- Of the `AdSlot`, what is read here.
pub record Slot (N : Type 0) : Type 0 where
  pub ipfs : Ipfs
  pub ad_type : String
  pub rules : List (Rule N)

-- `serde`'s decoding of the rules and of the ad units.
pub record SlotDecoder (N : Type 0) : Type 0 where
  pub rules : List String → List (Rule N)
  pub unit : String → SlotUnit

-- `price`: what the rules set, under the upper bound, but not under the lower one.
unfoldable pub offered_price : Pricing → Option UnifiedNum → UnifiedNum
offered_price bounds none = max bounds.min bounds.max
offered_price bounds (some price) = max bounds.min (min price bounds.max)

-- `filter_map`, where the closure may panic.
unfoldable pub filter_map : {A B : Type 0} → (A → Outcome (Option B)) → List A → Outcome (List B)
filter_map f [] = returns []
filter_map f (x ∷ xs) = elim (f x) [
  | panics ↦ panics
  | returns none ↦ filter_map f xs
  | returns (some y) ↦ elim (filter_map f xs) [ panics ↦ panics | returns ys ↦ returns (y ∷ ys) ]
]

-- `unit_input.ad_unit_id = Some(ad_unit.ipfs)`
abbrev pub with_unit : Ipfs → Input → Input
with_unit ipfs i = record i { ad_unit_id = some ipfs }

-- The units of the type of the slot.
unfoldable pub units_of_type : String → List SlotUnit → List SlotUnit
units_of_type ad_type [] = []
units_of_type ad_type (u ∷ us) =
    let rest = units_of_type ad_type us in if u.ad_type =ˢ ad_type then u ∷ rest else rest

module _ (num : Numbers) (ar : Arithmetic) (texts : Texts) (now : ℕ) where
  -- The rules of the ad slot, evaluated once the price is taken.
  unfoldable pub after_slot :
      {Log : Type 0}
      → UnitResponse
      → UnifiedNum
      → Outcome (Log × Output num)
      → Outcome (Option UnitsWithPrice)
  after_slot unit price panics = panics
  after_slot unit price (returns (errors, out)) =
      returns (if out.show then some (record { unit = unit; price = price }) else none)

  -- What follows the evaluation of the campaign's rules.
  unfoldable pub after_rules :
      {Log : Type 0}
      → (global_min : UnifiedNum) → Pricing
      → List (Rule num.Number)
      → Input
      → UnitResponse
      → Outcome (Log × Output num)
      → Outcome (Option UnitsWithPrice)
  unfolding after_slot eval_with_callback input_try_get offered_price get_of
  after_rules global_min bounds slot_rules input unit panics = panics
  after_rules global_min bounds slot_rules input unit (returns (errors, out)) =
      let price = offered_price bounds (get_of impression out.price) in
      if not out.show
      then returns none
      else if ltb price global_min
      then returns none
      else after_slot unit price
          (eval_with_callback num ar (input_try_get num texts now input) slot_rules out)

  -- One unit of a campaign, under the rules of the campaign.
  unfoldable pub offer_unit :
      (global_min : UnifiedNum)
      → Slot num.Number
      → List (Rule num.Number)
      → Campaign
      → Input
      → UnitResponse
      → Outcome (Option UnitsWithPrice)
  unfolding after_rules eval_with_callback input_try_get get_pricing_bounds
  offer_unit global_min slot rules c campaign_input unit =
      let input = with_unit unit.ipfs campaign_input in
      let bounds = get_pricing_bounds c impression in
      after_rules global_min bounds slot.rules input unit (
        eval_with_callback num ar (input_try_get num texts now input) rules
          (record { show = true; boost = num.f64_one; price = (impression, bounds.min) ∷ [] }))

  module _ (decoder : SlotDecoder num.Number) (global_min : UnifiedNum) where
    abbrev pub listed : Campaign → Outcome (List UnitsWithPrice) → Outcome (Option CampaignResponse)
    listed c panics = panics
    listed c (returns []) = returns none
    listed c (returns (u ∷ us)) =
        returns (some (record { campaign = c; units_with_price = u ∷ us }))

    -- One campaign: its units of the slot's type that are offered, if there is one.
    unfoldable pub offer_campaign :
        Input → Slot num.Number → Campaign → Outcome (Option CampaignResponse)
    unfolding units_of_type filter_map offer_unit with_campaign
    offer_campaign input_base slot c = listed c (
        filter_map
          (λ u.
            offer_unit global_min slot (decoder.rules c.targeting_rules) c
              (with_campaign c input_base) u.unit)
          (units_of_type slot.ad_type (map (λ u. decoder.unit u) c.ad_units)))

    -- `apply_targeting`
    unfoldable pub apply_targeting :
        List Campaign → Input → Slot num.Number → Outcome (List CampaignResponse)
    unfolding offer_campaign filter_map
    apply_targeting campaigns input_base slot =
        filter_map (offer_campaign input_base slot) campaigns
