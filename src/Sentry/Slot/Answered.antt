-- ===== src/Sentry/Slot/Answered.antt =====
-- What is known of the campaigns that `get_units_for_slot` answers.
use adex_validator_stack_rus.Prelude.{◌≤◌, ◌<◌, ◌≡◌, true, false, List, ◌==◌, All, IsIn}
use adex_validator_stack_rus.UnifiedNum.{UnifiedNum}
use adex_validator_stack_rus.BalancesMap.{Address}
use adex_validator_stack_rus.Channel.{Channel}
use adex_validator_stack_rus.Campaign.{Campaign}
use adex_validator_stack_rus.Sentry.Redis.{Redis, RedisLaws}
use adex_validator_stack_rus.Sentry.CampaignRemaining.Effects.{left}
use adex_validator_stack_rus.Sentry.Slot.Campaigns.{
  Server, is_asset, SlotResponse, Visitor, input_base,
}
use adex_validator_stack_rus.Targeting.Values.{Numbers}
use adex_validator_stack_rus.Targeting.Operators.{Arithmetic}
use adex_validator_stack_rus.Targeting.Input.{Texts}
use adex_validator_stack_rus.Sentry.Slot.Defs.{CampaignResponse, SlotDecoder}
use adex_validator_stack_rus.Sentry.Slot.Listed.{IsListed}

-- A campaign of the database that the publisher did not create, is active, has an asset that was
-- asked for, if any was, and has some of its budget left.
pub record IsEligible (redis : Redis) (laws : RedisLaws redis) (x : Server) (assets : List Address)
    (publisher : Address) (s : redis.Store) (c : Campaign) : Type 0 where
  pub stored : IsIn c x.campaigns
  pub active : x.now ≤ c.active.to
  pub of_another : (c.creator == publisher) ≡ false
  pub asset : is_asset assets c.channel.token ≡ true
  pub remaining : 0 < left redis laws s c.id

module _ (redis : Redis) (laws : RedisLaws redis) (num : Numbers) (ar : Arithmetic) (texts : Texts)
    (decoder : SlotDecoder num.Number) where
  -- A campaign of the answer, with its units.
  abbrev pub IsAnswered :
      (x : Server)
      → SlotResponse num.Number
      → List Address
      → Visitor
      → redis.Store
      → CampaignResponse
      → Type 0
  IsAnswered x r assets v s c =
      IsEligible redis laws x assets r.owner s c.campaign
      × All
          (IsListed num ar texts x.now decoder x.global_min_impression_price r.slot
            (input_base x.now v r) c.campaign)
          c.units_with_price
