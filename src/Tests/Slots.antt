-- ===== src/Tests/Slots.antt =====
-- The theorems on the units for an ad slot at concrete data.
use adex_validator_stack_rus.Prelude.{ℕ, ◌≡◌, refl, true, none, some, [], ◌∷◌, returns, ok}
use adex_validator_stack_rus.BalancesMap.{get as get_entry}
use adex_validator_stack_rus.Balances.{new}
use adex_validator_stack_rus.Campaign.{Campaign}
use adex_validator_stack_rus.Targeting.Input.{Input, with_campaign, input_try_get}
use adex_validator_stack_rus.Sentry.Payout.{EventFields, impression_event, get_payout, input_of}
use adex_validator_stack_rus.Sentry.Slot.{
  UnitResponse, UnitsWithPrice, SlotDecoder, offered_price, after_slot, after_rules, offer_unit,
}
use adex_validator_stack_rus.Sentry.Slot.Offered.{offer-get_payout}
use adex_validator_stack_rus.Sentry.Slot.Campaigns.{
  Server, SlotResponse, Visitor, SlotAnswer, input_base,
}
use adex_validator_stack_rus.Tests.Events.{db}
use adex_validator_stack_rus.Tests.Targeting.{
  whole, arithmetic, texts, greedy, priced_campaign, session,
}

abbrev banner : UnitResponse
banner = record { ipfs = 1; media_url = "url"; media_mime = "mime"; target_url = "target" }

abbrev decoder : SlotDecoder ℕ
decoder = record { rules = greedy.rules; unit = λ s. record { ad_type = s; unit = banner } }

-- A campaign with one banner, and a slot of publisher 8 for banners.
abbrev shop : Campaign
shop = record priced_campaign { ad_units = "banner" ∷ [] }

abbrev answered_slot : SlotResponse ℕ
answered_slot = record {
  slot = record { ipfs = 2; ad_type = "banner"; rules = [] };
  owner = 8;
  accepted_referrers = [];
  categories = [];
  fallback = none;
}

abbrev visitor : Visitor
visitor = record { country = some "BG"; os = none; browser_family = none; hostname = "" }

abbrev server : Server
server = record {
  now = 1000;
  reaches_campaigns = true;
  campaigns = shop ∷ [];
  db = λ k. db;
  rows = λ k. new;
  max_campaigns_earning_from = 2;
  global_min_impression_price = 5;
}

abbrev base : Input
base = input_base 1000 visitor answered_slot

abbrev offer : UnitsWithPrice
offer = record { unit = banner; price = 20 }

offers :
    offer_unit whole arithmetic texts 1000 5 answered_slot.slot
      (greedy.rules shop.targeting_rules)
      shop
      (with_campaign shop base)
      banner
    ≡ returns (some offer)
unfolding offer_unit after_rules after_slot offered_price
offers = refl

abbrev visit : EventFields
visit = record { publisher = 8; ad_unit = 1; ad_slot = 2; referrer = none }

offer-get_payout_example :
    get_payout whole arithmetic texts greedy 1000 shop session (impression_event visit)
    ≡ ok (some (8, 20))
unfolding input_of input_try_get
offer-get_payout_example =
    offer-get_payout whole arithmetic texts 1000 greedy 1000 5 answered_slot.slot shop
      (with_campaign shop base) banner offer session visit offers λ key. refl

abbrev answer : SlotAnswer
answer = record {
  targeting_input_base = record base { ad_slot = some (record { categories = []; hostname = "" }) };
  accepted_referrers = [];
  fallback_unit = none;
  campaigns = record { campaign = shop; units_with_price = offer ∷ [] } ∷ [];
}
