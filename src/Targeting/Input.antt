-- ===== src/Targeting/Input.antt =====
-- `Input` of primitives/src/targeting/input.rs: what a rule can read. The times are in
-- milliseconds; the clock and the texts of addresses and ids are parameters.
use adex_validator_stack_rus.Prelude.{
  ℕ, ◌-◌, ◌/◌, Bool, Option, none, some, List, [], ◌∷◌, map, pos, Result, err, ok_or, bind_option,
  or_default,
}
use adex_validator_stack_rus.Prelude.U64
use Prim.Native.String.{String}
use adex_validator_stack_rus.UnifiedNum.{UnifiedNum, sum}
use adex_validator_stack_rus.BalancesMap.{Address, UnifiedMap, values, get_or_zero}
use adex_validator_stack_rus.Campaign.{EventType, Campaign}
use adex_validator_stack_rus.Targeting.Values.{
  Error, unknown_variable, Numbers, Value, bool, number, string, array, unified, of_list,
}
use adex_validator_stack_rus.Targeting.Rules.{as_str, get_pricing_bounds}
use adex_validator_stack_rus.Targeting.Fields.{
  Field, AdViewField, GlobalField, CampaignField, BalancesField, AdSlotField, AdUnitField, parse,
  fields, to_string,
}
use adex_validator_stack_rus.Targeting.Fields

-- The content hash of an ad unit or an ad slot.
abbrev pub Ipfs : Type 0
Ipfs = ℕ

-- `to_string` of an address and of an `IPFS`, and `to_hex_prefixed` of a campaign's id.
pub record Texts : Type 0 where
  pub address : Address → String
  pub ipfs : Ipfs → String
  pub campaign_id : ℕ → String

pub record AdView : Type 0 where
  pub seconds_since_campaign_impression : Option ℕ
  pub has_custom_preferences : Bool
  pub navigator_language : String

pub record Global : Type 0 where
  pub ad_slot_id : Ipfs
  pub ad_slot_type : String
  pub publisher_id : Address
  pub country : Option String
  pub event_type : EventType
  pub seconds_since_epoch : ℕ
  pub user_agent_os : Option String
  pub user_agent_browser_family : Option String

pub record AdSlot : Type 0 where
  pub categories : List String
  pub hostname : String

-- `campaign::Values`
pub record CampaignValues : Type 0 where
  pub advertiser_id : Address
  pub campaign_id : ℕ
  pub campaign_seconds_active : ℕ
  pub campaign_seconds_duration : ℕ
  pub campaign_budget : UnifiedNum
  pub event_min_price : Option UnifiedNum
  pub event_max_price : Option UnifiedNum

-- `campaign::FullCampaign`
pub record FullCampaign : Type 0 where
  pub campaign : Campaign
  pub event_type : EventType

-- `balances::Values`
pub record BalancesValues : Type 0 where
  pub campaign_total_spent : UnifiedNum
  pub publisher_earned_from_campaign : UnifiedNum

-- `balances::Getter`
pub record BalancesGetter : Type 0 where
  pub balances : UnifiedMap
  pub publisher_id : Address

-- `Get`
pub data Get (G V : Type 0) : Type 0 where
  getter : G → Get G V
  given : V → Get G V

pub record Input : Type 0 where
  pub ad_view : Option AdView
  pub global : Global
  pub campaign : Option (Get FullCampaign CampaignValues)
  pub balances : Option (Get BalancesGetter BalancesValues)
  pub ad_unit_id : Option Ipfs
  pub ad_slot : Option AdSlot

-- `Input::with_campaign`
unfoldable pub with_campaign : Campaign → Input → Input
with_campaign c i = record {
  ad_view = i.ad_view;
  global = i.global;
  campaign = some (getter (record { campaign = c; event_type = i.global.event_type }));
  balances = i.balances;
  ad_unit_id = i.ad_unit_id;
  ad_slot = i.ad_slot;
}

-- `Input::with_balances`
unfoldable pub with_balances : UnifiedMap → Input → Input
with_balances b i = record {
  ad_view = i.ad_view;
  global = i.global;
  campaign = i.campaign;
  balances = some (getter (record { balances = b; publisher_id = i.global.publisher_id }));
  ad_unit_id = i.ad_unit_id;
  ad_slot = i.ad_slot;
}

-- `to_std().map(|duration| duration.as_secs()).unwrap_or(0)` of a difference of times: whole
-- seconds, 0 if the difference is negative.
abbrev pub seconds_between : ℕ → ℕ → ℕ
seconds_between earlier later = (later - earlier) / 1000

-- `campaign.active.from.unwrap_or(campaign.created)`
abbrev pub start_of : Campaign → ℕ
start_of c = or_default c.created c.active.from

module _ (num : Numbers) (texts : Texts) (now : ℕ) where
  abbrev Answer : Type 0
  Answer = Option (Value num.Number)

  abbrev of_u64 : ℕ → Answer
  of_u64 n = some (number (num.from_u64 n))

  abbrev of_text : Option String → Answer
  of_text none = none
  of_text (some s) = some (string s)

  abbrev of_amount : Option UnifiedNum → Answer
  of_amount none = none
  of_amount (some n) = some (unified n)

  -- `GetField for AdView`
  unfoldable pub get_ad_view : AdView → AdViewField → Value num.Number
  get_ad_view v Fields.seconds_since_campaign_impression =
      number (num.from_u64 (or_default U64.max_value v.seconds_since_campaign_impression))
  get_ad_view v Fields.has_custom_preferences = bool v.has_custom_preferences
  get_ad_view v Fields.navigator_language = string v.navigator_language

  -- `GetField for Global`
  unfoldable pub get_global : Global → GlobalField → Answer
  unfolding as_str
  get_global g Fields.ad_slot_id = some (string (texts.ipfs g.ad_slot_id))
  get_global g Fields.ad_slot_type = some (string g.ad_slot_type)
  get_global g Fields.publisher_id = some (string (texts.address g.publisher_id))
  get_global g Fields.country = of_text g.country
  get_global g Fields.event_type = some (string (as_str g.event_type))
  get_global g Fields.seconds_since_epoch =
      some (number (num.from_i64 (pos (g.seconds_since_epoch / 1000))))
  get_global g Fields.user_agent_os = of_text g.user_agent_os
  get_global g Fields.user_agent_browser_family = of_text g.user_agent_browser_family

  -- `GetField for AdSlot`
  unfoldable pub get_ad_slot : AdSlot → AdSlotField → Answer
  unfolding of_list
  get_ad_slot s Fields.categories = some (array (of_list (map (λ c. string c) s.categories)))
  get_ad_slot s Fields.hostname = some (string s.hostname)

  -- `GetField for Get<FullCampaign, Values>`
  unfoldable pub get_campaign : Get FullCampaign CampaignValues → CampaignField → Answer
  unfolding get_pricing_bounds
  get_campaign (getter f) Fields.advertiser_id = some (string (texts.address f.campaign.creator))
  get_campaign (getter f) Fields.campaign_id = some (string (texts.campaign_id f.campaign.id))
  get_campaign (getter f) Fields.campaign_seconds_active =
      of_u64 (seconds_between (start_of f.campaign) now)
  get_campaign (getter f) Fields.campaign_seconds_duration =
      of_u64 (seconds_between (start_of f.campaign) f.campaign.active.to)
  get_campaign (getter f) Fields.campaign_budget = some (unified f.campaign.budget)
  get_campaign (getter f) Fields.event_min_price =
      some (unified (get_pricing_bounds f.campaign f.event_type).min)
  get_campaign (getter f) Fields.event_max_price =
      some (unified (get_pricing_bounds f.campaign f.event_type).max)
  get_campaign (given v) Fields.advertiser_id = some (string (texts.address v.advertiser_id))
  get_campaign (given v) Fields.campaign_id = some (string (texts.campaign_id v.campaign_id))
  get_campaign (given v) Fields.campaign_seconds_active = of_u64 v.campaign_seconds_active
  get_campaign (given v) Fields.campaign_seconds_duration = of_u64 v.campaign_seconds_duration
  get_campaign (given v) Fields.campaign_budget = some (unified v.campaign_budget)
  get_campaign (given v) Fields.event_min_price = of_amount v.event_min_price
  get_campaign (given v) Fields.event_max_price = of_amount v.event_max_price

  -- `GetField for Get<Getter, Values>`
  unfoldable pub get_balances : Get BalancesGetter BalancesValues → BalancesField → Answer
  unfolding sum
  get_balances (getter b) Fields.campaign_total_spent = of_amount (sum (values b.balances))
  get_balances (getter b) Fields.publisher_earned_from_campaign =
      some (unified (get_or_zero b.publisher_id b.balances))
  get_balances (given v) Fields.campaign_total_spent = some (unified v.campaign_total_spent)
  get_balances (given v) Fields.publisher_earned_from_campaign =
      some (unified v.publisher_earned_from_campaign)

  -- `GetField for Input`
  unfoldable pub get_field : Input → Field → Answer
  unfolding get_ad_view get_global get_ad_slot get_campaign get_balances
  get_field i (Fields.ad_view f) = bind_option i.ad_view λ v. some (get_ad_view v f)
  get_field i (Fields.global f) = get_global i.global f
  get_field i (Fields.campaign f) = bind_option i.campaign λ c. get_campaign c f
  get_field i (Fields.balances f) = bind_option i.balances λ b. get_balances b f
  get_field i (Fields.ad_slot f) = bind_option i.ad_slot λ s. get_ad_slot s f
  get_field i (Fields.ad_unit Fields.ad_unit_id) =
      bind_option i.ad_unit_id λ u. some (string (texts.ipfs u))

  -- `Input::try_get`
  unfoldable pub input_try_get : Input → String → Result Error (Value num.Number)
  unfolding get_field parse
  input_try_get i key = elim (parse key) [
    | none ↦ err unknown_variable
    | some f ↦ ok_or unknown_variable (get_field i f)
  ]

  -- `filter_map` and `collect` over some of the fields.
  unfoldable pub entries :
      {J : Type 0} → (Value num.Number → J) → Input → List Field → List (String × J)
  unfolding get_field to_string
  entries into i [] = []
  entries into i (f ∷ fs) = elim (get_field i f) [
    | none ↦ entries into i fs
    | some v ↦ (to_string f, into v) ∷ entries into i fs
  ]

  -- `Input::to_map`, with the conversion of a value to JSON.
  unfoldable pub to_map : {J : Type 0} → (Value num.Number → J) → Input → List (String × J)
  unfolding entries
  to_map into i = entries into i fields
