-- ===== src/Campaign/Defs.antt =====
-- `Campaign` of primitives/src/campaign.rs, `ValidatorDesc` of primitives/src/validator.rs, and
-- `ModifyCampaign` of primitives/src/sentry.rs. The ad units, the targeting rules and the event
-- submission are kept as their serialized text: nothing here inspects them.
use adex_validator_stack_rus.Prelude.{ℕ, Option, none, some, List, [], ◌∷◌, ◌==◌, if◌then◌else◌}
use Prim.Native.String.{String}
use adex_validator_stack_rus.BalancesMap.{Address}
use adex_validator_stack_rus.UnifiedNum.{UnifiedNum}
use adex_validator_stack_rus.Channel.{Channel, ValidatorId, Validator, leader, follower}

-- `EventType`
pub data EventType : Type 0 where
  impression click : EventType

-- `Pricing`: the bounds of the payout for one event.
pub record Pricing : Type 0 where
  pub min : UnifiedNum
  pub max : UnifiedNum

pub record ValidatorDesc : Type 0 where
  pub id : ValidatorId
  pub fee : UnifiedNum
  pub fee_addr : Option Address
  pub url : String

-- `Validators`: the two of a campaign, in no order.
pub record Validators : Type 0 where
  pub first : ValidatorDesc
  pub second : ValidatorDesc

-- `Active`, in milliseconds.
pub record Active : Type 0 where
  pub from : Option ℕ
  pub to : ℕ

pub record Campaign : Type 0 where
  pub id : ℕ
  pub channel : Channel
  pub creator : Address
  pub budget : UnifiedNum
  pub validators : Validators
  pub title : Option String
  pub pricing_bounds : List (EventType × Pricing)
  pub event_submission : Option String
  pub ad_units : List String
  pub targeting_rules : List String
  pub created : ℕ
  pub active : Active

-- `Validators::find`
unfoldable pub find : Validators → ValidatorId → Option ValidatorDesc
find vs v =
    if vs.first.id == v then some vs.first else if vs.second.id == v then some vs.second else none

-- `Validators::iter`
unfoldable pub iter : Validators → List ValidatorDesc
iter vs = vs.first ∷ vs.second ∷ []

-- `Campaign::leader`
unfoldable pub campaign_leader : Campaign → Option ValidatorDesc
campaign_leader c = find c.validators c.channel.leader

-- `Campaign::follower`
unfoldable pub campaign_follower : Campaign → Option ValidatorDesc
campaign_follower c = find c.validators c.channel.follower

-- The second arm of `Campaign::find_validator`, and the last.
abbrev pub as_follower : Option ValidatorDesc → ValidatorId → Option (Validator ValidatorDesc)
as_follower none v = none
as_follower (some d) v = if d.id == v then some (follower d) else none

-- The match of `Campaign::find_validator`.
abbrev pub as_validator :
    Option ValidatorDesc → Option ValidatorDesc → ValidatorId → Option (Validator ValidatorDesc)
as_validator none f v = as_follower f v
as_validator (some d) f v = if d.id == v then some (leader d) else as_follower f v

-- `Campaign::find_validator`
unfoldable pub campaign_find_validator : Campaign → ValidatorId → Option (Validator ValidatorDesc)
campaign_find_validator c v = as_validator (campaign_leader c) (campaign_follower c) v

-- `ModifyCampaign`
pub record ModifyCampaign : Type 0 where
  pub budget : Option UnifiedNum
  pub validators : Option Validators
  pub title : Option String
  pub pricing_bounds : Option (List (EventType × Pricing))
  pub event_submission : Option String
  pub ad_units : Option (List String)
  pub targeting_rules : Option (List String)

-- `ModifyCampaign::from_campaign`
unfoldable pub from_campaign : Campaign → ModifyCampaign
from_campaign c = record {
  budget = some c.budget;
  validators = some c.validators;
  title = c.title;
  pricing_bounds = some c.pricing_bounds;
  event_submission = c.event_submission;
  ad_units = some c.ad_units;
  targeting_rules = some c.targeting_rules;
}

-- A field that is set if a new value was passed.
abbrev pub set_or {ℓ} : {A : Type ℓ} → A → Option A → A
set_or old none = old
set_or old (some new) = new

-- An optional field: not passing it does not clear it.
abbrev pub set_some {ℓ} : {A : Type ℓ} → Option A → Option A → Option A
set_some old none = old
set_some old (some new) = some new

-- `ModifyCampaign::apply`
unfoldable pub apply : ModifyCampaign → Campaign → Campaign
apply m c = record {
  id = c.id;
  channel = c.channel;
  creator = c.creator;
  budget = set_or c.budget m.budget;
  validators = set_or c.validators m.validators;
  title = set_some c.title m.title;
  pricing_bounds = set_or c.pricing_bounds m.pricing_bounds;
  event_submission = set_some c.event_submission m.event_submission;
  ad_units = set_or c.ad_units m.ad_units;
  targeting_rules = set_or c.targeting_rules m.targeting_rules;
  created = c.created;
  active = c.active;
}
