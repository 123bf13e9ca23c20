-- ===== src/Sentry/Slot/Campaigns.antt =====
-- `get_campaigns` and the handler `get_units_for_slot`. The campaigns are the rows of the database in
-- the order of their creation, `rows` the accounting of each channel. The platform, the parsers of
-- the headers and the clock are arguments.
use adex_validator_stack_rus.Prelude.{
  ℕ, max, Bool, true, not, ◌&&◌, Option, none, some, List, [], ◌∷◌, ◌++◌, map, ltb, leb, ◌==◌,
  if◌then◌else◌, length, any, Outcome, returns, panics, Result, ok, err, aborts,
}
use Prim.Native.String.{String}
use adex_validator_stack_rus.Prelude.Actions.{Action, lift, pure, ◌>>=◌, relabel}
use adex_validator_stack_rus.UnifiedNum.{UnifiedNum}
use adex_validator_stack_rus.BalancesMap.{Address}
use adex_validator_stack_rus.Balances.{Balances}
use adex_validator_stack_rus.Channel.{Channel}
use adex_validator_stack_rus.Campaign.{Campaign, impression}
use adex_validator_stack_rus.Targeting.Values.{Numbers}
use adex_validator_stack_rus.Targeting.Operators.{Arithmetic}
use adex_validator_stack_rus.Targeting.Input.{Texts, Input}
use adex_validator_stack_rus.Sentry.Redis.{Redis}
use adex_validator_stack_rus.Sentry.CampaignRemaining.{CampaignId, get_multiple_with_ids}
use adex_validator_stack_rus.Sentry.Accounting.{Database, spender, get_accounting}
use adex_validator_stack_rus.Sentry.Routes.Tables.{same_channel}
use adex_validator_stack_rus.Sentry.Slot.Defs.{
  UnitResponse, CampaignResponse, Slot, SlotDecoder, apply_targeting,
}

-- `CampaignsError`, and what the handler answers otherwise.
pub data SlotError : Type 0 where
  redis_error postgres_error platform_error slot_not_found : SlotError

-- What the server knows for the request.
pub record Server : Type 0 where
  pub now : ℕ
  pub reaches_campaigns : Bool
  pub campaigns : List Campaign
  pub db : Channel → Database
  pub rows : Channel → Balances
  pub max_campaigns_earning_from : ℕ
  pub global_min_impression_price : UnifiedNum

-- `channels.token IN (..)`, where assets are given.
abbrev pub is_asset : List Address → Address → Bool
is_asset [] token = true
is_asset (a ∷ assets) token = any (λ b. b == token) (a ∷ assets)

-- The clauses of the query of `units_for_slot_get_campaigns`.
abbrev pub is_active : ℕ → Address → List Address → Campaign → Bool
is_active now publisher assets c =
    leb now c.active.to && not (c.creator == publisher) && is_asset assets c.channel.token

unfoldable pub filter : {A : Type 0} → (A → Bool) → List A → List A
filter p [] = []
filter p (x ∷ xs) = let rest = filter p xs in if p x then x ∷ rest else rest

-- `units_for_slot_get_campaigns`
unfoldable pub units_for_slot_get_campaigns :
    Server → List Address → Address → Result SlotError (List Campaign)
unfolding filter
units_for_slot_get_campaigns x assets publisher =
    if x.reaches_campaigns
    then ok (filter (is_active x.now publisher assets) x.campaigns)
    else err postgres_error

-- `iter().find(|campaign| campaign.id == campaign_id)`
unfoldable pub find_campaign : CampaignId → List Campaign → Option Campaign
find_campaign id [] = none
find_campaign id (c ∷ cs) = if c.id == id then some c else find_campaign id cs

-- The active campaigns that have something left.
unfoldable pub with_remaining : List (CampaignId × UnifiedNum) → List Campaign → List Campaign
unfolding find_campaign
with_remaining [] active = []
with_remaining ((id, remaining) ∷ ps) active =
    let rest = with_remaining ps active in
    if ltb 0 remaining
    then elim (find_campaign id active) [ none ↦ rest | some c ↦ c ∷ rest ]
    else rest

-- The channels of the campaigns, each once.
unfoldable pub channels_of : List Campaign → List Channel
channels_of [] = []
channels_of (c ∷ cs) =
    let rest = channels_of cs in
    if any (λ k. same_channel k c.channel) rest then rest else c.channel ∷ rest

-- The channels in which the publisher has a row: the query is for its row as a spender.
unfoldable pub publisher_accountings :
    Server → Address → List Channel → Result SlotError (List Channel)
unfolding get_accounting
publisher_accountings x publisher [] = ok []
publisher_accountings x publisher (k ∷ ks) =
    let rest = publisher_accountings x publisher ks in
    elim (get_accounting (x.db k) publisher spender (x.rows k)).0 [
      | err e ↦ err postgres_error
      | aborts ↦ aborts
      | ok none ↦ rest
      | ok (some n) ↦ elim rest [ err e ↦ err e | aborts ↦ aborts | ok found ↦ ok (k ∷ found) ]
    ]

-- `partition`, and the limit of the configuration.
unfoldable pub limited : ℕ → (Campaign → Bool) → List Campaign → List Campaign
unfolding filter
limited max p cs =
    let by_earner = filter p cs in
    if leb max (length by_earner) then by_earner else by_earner ++ filter (λ c. not (p c)) cs

module _ (redis : Redis) where
  -- `get_campaigns`
  unfoldable pub get_campaigns :
      Server → List Address → Address → Action redis.Store SlotError (List Campaign)
  unfolding units_for_slot_get_campaigns get_multiple_with_ids with_remaining channels_of
      publisher_accountings limited
  get_campaigns x assets publisher = do
    active ← lift (units_for_slot_get_campaigns x assets publisher)
    remaining ← relabel (λ _. redis_error) (get_multiple_with_ids redis (map (λ c. c.id) active))
    let left = with_remaining remaining active
    found ← lift (publisher_accountings x publisher (channels_of left))
    pure
        (limited x.max_campaigns_earning_from (λ c. any (λ k. same_channel k c.channel) found) left)

-- What the platform answers for an ad slot.
pub record SlotResponse (N : Type 0) : Type 0 where
  pub slot : Slot N
  pub owner : Address
  pub accepted_referrers : List String
  pub categories : List String
  pub fallback : Option UnitResponse

-- What is read off the headers and the website of the slot.
pub record Visitor : Type 0 where
  pub country : Option String
  pub os : Option String
  pub browser_family : Option String
  pub hostname : String

-- `Response`
pub record SlotAnswer : Type 0 where
  pub targeting_input_base : Input
  pub accepted_referrers : List String
  pub fallback_unit : Option UnitResponse
  pub campaigns : List CampaignResponse

-- `targeting_input_base`, as it stands when the campaigns are chosen.
abbrev pub input_base : {N : Type 0} → ℕ → Visitor → SlotResponse N → Input
input_base now v r = record {
  ad_view = none;
  global = record {
    ad_slot_id = r.slot.ipfs;
    ad_slot_type = r.slot.ad_type;
    publisher_id = r.owner;
    country = v.country;
    event_type = impression;
    seconds_since_epoch = now;
    user_agent_os = v.os;
    user_agent_browser_family = v.browser_family;
  };
  campaign = none;
  balances = none;
  ad_unit_id = none;
  ad_slot = none;
}

module _ (redis : Redis) (num : Numbers) (ar : Arithmetic) (texts : Texts)
    (decoder : SlotDecoder num.Number) where
  abbrev pub answer_with :
      Visitor
      → SlotResponse num.Number
      → Input
      → Outcome (List CampaignResponse)
      → Result SlotError SlotAnswer
  answer_with v r input panics = aborts
  answer_with v r input (returns campaigns) = ok (record {
    targeting_input_base = record input {
      ad_slot = some (record { categories = r.categories; hostname = v.hostname });
    };
    accepted_referrers = r.accepted_referrers;
    fallback_unit = r.fallback;
    campaigns = campaigns;
  })

  -- `get_units_for_slot`; `fetched` is the platform's answer, `none` where it fails.
  unfoldable pub get_units_for_slot :
      Server
      → (fetched : Option (Option (SlotResponse num.Number))) → (deposit_assets : List Address)
      → Visitor
      → Action redis.Store SlotError SlotAnswer
  unfolding get_campaigns apply_targeting
  get_units_for_slot x none assets v s = (err platform_error, s)
  get_units_for_slot x (some none) assets v s = (err slot_not_found, s)
  get_units_for_slot x (some (some r)) assets v s =
      let input = input_base x.now v r in
      let (campaigns, s') = get_campaigns redis x assets r.owner s in
      elim campaigns [
        | err e ↦ (err e, s')
        | aborts ↦ (aborts, s')
        | ok cs ↦ (
          answer_with v r input (
              apply_targeting num ar texts x.now decoder x.global_min_impression_price cs input
                r.slot),
          s',
        )
      ]
