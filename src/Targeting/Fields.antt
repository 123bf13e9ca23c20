-- ===== src/Targeting/Fields.antt =====
-- The names of the input's variables: primitives/src/targeting/input/field.rs. `Display` and `FromStr`
-- are what the attributes of `parse_display` say.
use adex_validator_stack_rus.Prelude.{
  ◌≡◌, refl, Option, none, some, List, [], ◌∷◌, if◌then◌else◌, bind_option,
}
use Prim.Native.String.{String, len, slice}
use text.Mathlib.Text.{◌==◌ as ◌=ˢ◌, starts_with}

-- `field::AdView`
pub data AdViewField : Type 0 where
  seconds_since_campaign_impression has_custom_preferences navigator_language : AdViewField

-- `field::Global`
pub data GlobalField : Type 0 where
  ad_slot_id ad_slot_type publisher_id country event_type : GlobalField
  seconds_since_epoch user_agent_os user_agent_browser_family : GlobalField

-- `field::AdUnit`
pub data AdUnitField : Type 0 where
  ad_unit_id : AdUnitField

-- `field::Campaign`
pub data CampaignField : Type 0 where
  advertiser_id campaign_id campaign_seconds_active campaign_seconds_duration : CampaignField
  campaign_budget event_min_price event_max_price : CampaignField

-- `field::Balances`
pub data BalancesField : Type 0 where
  campaign_total_spent publisher_earned_from_campaign : BalancesField

-- `field::AdSlot`
pub data AdSlotField : Type 0 where
  categories hostname : AdSlotField

pub data Field : Type 0 where
  ad_view : AdViewField → Field
  global : GlobalField → Field
  ad_unit : AdUnitField → Field
  campaign : CampaignField → Field
  balances : BalancesField → Field
  ad_slot : AdSlotField → Field

-- `FIELDS`
abbrev pub fields : List Field
fields =
    ad_view seconds_since_campaign_impression
    ∷ ad_view has_custom_preferences
    ∷ ad_view navigator_language
    ∷ global ad_slot_id
    ∷ global ad_slot_type
    ∷ global publisher_id
    ∷ global country
    ∷ global event_type
    ∷ global seconds_since_epoch
    ∷ global user_agent_os
    ∷ global user_agent_browser_family
    ∷ ad_unit ad_unit_id
    ∷ campaign advertiser_id
    ∷ campaign campaign_id
    ∷ campaign campaign_seconds_active
    ∷ campaign campaign_seconds_duration
    ∷ campaign campaign_budget
    ∷ campaign event_min_price
    ∷ campaign event_max_price
    ∷ balances campaign_total_spent
    ∷ balances publisher_earned_from_campaign
    ∷ ad_slot categories
    ∷ ad_slot hostname
    ∷ []

-- `Display for Field`
unfoldable pub to_string : Field → String
to_string (ad_view seconds_since_campaign_impression) = "adView.secondsSinceCampaignImpression"
to_string (ad_view has_custom_preferences) = "adView.hasCustomPreferences"
to_string (ad_view navigator_language) = "adView.navigatorLanguage"
to_string (global ad_slot_id) = "adSlotId"
to_string (global ad_slot_type) = "adSlotType"
to_string (global publisher_id) = "publisherId"
to_string (global country) = "country"
to_string (global event_type) = "eventType"
to_string (global seconds_since_epoch) = "secondsSinceEpoch"
to_string (global user_agent_os) = "userAgentOS"
to_string (global user_agent_browser_family) = "userAgentBrowserFamily"
to_string (ad_unit ad_unit_id) = "adUnitId"
to_string (campaign advertiser_id) = "advertiserId"
to_string (campaign campaign_id) = "campaignId"
to_string (campaign campaign_seconds_active) = "campaignSecondsActive"
to_string (campaign campaign_seconds_duration) = "campaignSecondsDuration"
to_string (campaign campaign_budget) = "campaignBudget"
to_string (campaign event_min_price) = "eventMinPrice"
to_string (campaign event_max_price) = "eventMaxPrice"
to_string (balances campaign_total_spent) = "campaignTotalSpent"
to_string (balances publisher_earned_from_campaign) = "publisherEarnedFromCampaign"
to_string (ad_slot categories) = "adSlot.categories"
to_string (ad_slot hostname) = "adSlot.hostname"

-- The derived parsers try the variants in order.
abbrev first_of {ℓ} : {A : Type ℓ} → Option A → Option A → Option A
first_of none y = y
first_of (some x) y = some x

-- The one of the texts that is given.
abbrev named {ℓ} : {A : Type ℓ} → List (String × A) → String → Option A
named [] s = none
named ((name, f) ∷ fs) s = if s =ˢ name then some f else named fs s

abbrev map_option {ℓ κ} : {A : Type ℓ} {B : Type κ} → (A → B) → Option A → Option B
map_option f none = none
map_option f (some x) = some (f x)

-- What is behind the literal of a `display` attribute.
abbrev behind : String → String → Option String
behind literal s = if starts_with s literal then some (slice s (len literal) (len s)) else none

-- `FromStr for field::AdView`
abbrev pub ad_view_of : String → Option AdViewField
ad_view_of s =
    named
      (("secondsSinceCampaignImpression", seconds_since_campaign_impression)
        ∷ ("hasCustomPreferences", has_custom_preferences)
        ∷ ("navigatorLanguage", navigator_language)
        ∷ [])
      s

-- `FromStr for field::Global`
abbrev pub global_of : String → Option GlobalField
global_of s =
    named
      (("adSlotId", ad_slot_id)
        ∷ ("adSlotType", ad_slot_type)
        ∷ ("publisherId", publisher_id)
        ∷ ("country", country)
        ∷ ("eventType", event_type)
        ∷ ("secondsSinceEpoch", seconds_since_epoch)
        ∷ ("userAgentOS", user_agent_os)
        ∷ ("userAgentBrowserFamily", user_agent_browser_family)
        ∷ [])
      s

-- `FromStr for field::AdUnit`
abbrev pub ad_unit_of : String → Option AdUnitField
ad_unit_of s = named (("adUnitId", ad_unit_id) ∷ []) s

-- `FromStr for field::Campaign`
abbrev pub campaign_of : String → Option CampaignField
campaign_of s =
    named
      (("advertiserId", advertiser_id)
        ∷ ("campaignId", campaign_id)
        ∷ ("campaignSecondsActive", campaign_seconds_active)
        ∷ ("campaignSecondsDuration", campaign_seconds_duration)
        ∷ ("campaignBudget", campaign_budget)
        ∷ ("eventMinPrice", event_min_price)
        ∷ ("eventMaxPrice", event_max_price)
        ∷ [])
      s

-- `FromStr for field::Balances`
abbrev pub balances_of : String → Option BalancesField
balances_of s =
    named
      (("campaignTotalSpent", campaign_total_spent)
        ∷ ("publisherEarnedFromCampaign", publisher_earned_from_campaign)
        ∷ [])
      s

-- `FromStr for field::AdSlot`
abbrev pub ad_slot_of : String → Option AdSlotField
ad_slot_of s = named (("categories", categories) ∷ ("hostname", hostname) ∷ []) s

-- `FromStr for Field`: the variants with a literal are read behind it, the others from the whole text.
unfoldable pub parse : String → Option Field
parse s = first_of (bind_option (behind "adView." s) λ t. map_option ad_view (ad_view_of t)) (
    first_of (map_option global (global_of s)) (
      first_of (map_option ad_unit (ad_unit_of s)) (
        first_of (map_option campaign (campaign_of s)) (
          first_of (map_option balances (balances_of s))
            (bind_option (behind "adSlot." s) λ t. map_option ad_slot (ad_slot_of t))))))

-- A variable's name is read back as that variable.
pub parse-to_string : (f : Field) → parse (to_string f) ≡ some f
unfolding parse to_string
parse-to_string (ad_view seconds_since_campaign_impression) = refl
parse-to_string (ad_view has_custom_preferences) = refl
parse-to_string (ad_view navigator_language) = refl
parse-to_string (global ad_slot_id) = refl
parse-to_string (global ad_slot_type) = refl
parse-to_string (global publisher_id) = refl
parse-to_string (global country) = refl
parse-to_string (global event_type) = refl
parse-to_string (global seconds_since_epoch) = refl
parse-to_string (global user_agent_os) = refl
parse-to_string (global user_agent_browser_family) = refl
parse-to_string (ad_unit ad_unit_id) = refl
parse-to_string (campaign advertiser_id) = refl
parse-to_string (campaign campaign_id) = refl
parse-to_string (campaign campaign_seconds_active) = refl
parse-to_string (campaign campaign_seconds_duration) = refl
parse-to_string (campaign campaign_budget) = refl
parse-to_string (campaign event_min_price) = refl
parse-to_string (campaign event_max_price) = refl
parse-to_string (balances campaign_total_spent) = refl
parse-to_string (balances publisher_earned_from_campaign) = refl
parse-to_string (ad_slot categories) = refl
parse-to_string (ad_slot hostname) = refl
