-- ===== src/Sentry/Routes/Pages.antt =====
-- `fetch_campaign_ids_for_channel` of sentry/src/routes/campaign.rs: all pages of the campaigns of
-- a channel.
use adex_validator_stack_rus.Prelude.{
  ℕ, zero, suc, ◌+◌, ◌-◌, ◌/◌, Option, none, some, List, [], ◌∷◌, ◌++◌, ltb, ◌==◌, if◌then◌else◌,
  length, take, Outcome, returns, panics, Result, ok, err, aborts,
}
use adex_validator_stack_rus.Prelude.U64
use adex_validator_stack_rus.Prelude.Actions.{Action}
use adex_validator_stack_rus.Channel.{Channel}
use adex_validator_stack_rus.Sentry.CampaignRemaining.{CampaignId}
use adex_validator_stack_rus.Sentry.Routes.Tables.{
  Api, Tables, ResponseError, bad_request, failed_validation, campaign_ids,
}

abbrev pub drop {ℓ} : {A : Type ℓ} → ℕ → List A → List A
drop zero xs = xs
drop (suc n) [] = []
drop (suc n) (x ∷ xs) = drop n xs

-- `LIMIT .. OFFSET ..`
abbrev pub page : List CampaignId → ℕ → ℕ → List CampaignId
page ids limit skip = take limit (drop skip ids)

-- `1 + ((total_count - 1) / limit)`: a limit of 0 panics where there is a campaign.
unfoldable pub total_pages : ℕ → ℕ → Outcome ℕ
total_pages total_count limit =
    if total_count == 0
    then returns 1
    else if limit == 0
    then panics
    else returns (1 + (total_count - 1) / limit)

-- The pages `i`, `i + 1`, .., `n` of them, joined; the skip of each is a checked product.
unfoldable pub other_pages : List CampaignId → ℕ → ℕ → ℕ → Option (List CampaignId)
other_pages ids limit i zero = some []
other_pages ids limit i (suc n) = elim (U64.checked_mul i limit) [
  | none ↦ none
  | some skip ↦ elim (other_pages ids limit (suc i) n) [
    | none ↦ none
    | some rest ↦ some (page ids limit skip ++ rest)
  ]
]

-- The pages of a list of ids.
unfoldable pub all_pages : List CampaignId → ℕ → Result ResponseError (List CampaignId)
unfolding total_pages other_pages
all_pages ids limit = elim (total_pages (length ids) limit) [
  | panics ↦ aborts
  | returns pages ↦
      if ltb pages 2 then ok (page ids limit 0) else elim (other_pages ids limit 1 (pages - 1)) [
        | none ↦ err failed_validation
        | some rest ↦ ok (page ids limit 0 ++ rest)
      ]
]

unfoldable pub fetch_campaign_ids_for_channel :
    Api → Channel → Action Tables ResponseError (List CampaignId)
unfolding all_pages
fetch_campaign_ids_for_channel api channel t =
    if api.reaches_campaigns
    then (all_pages (campaign_ids channel t.campaigns) api.campaigns_find, t)
    else (err bad_request, t)
