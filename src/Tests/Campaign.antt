-- ===== src/Tests/Campaign.antt =====
-- The theorems on campaigns at concrete data.
use adex_validator_stack_rus.Prelude.{ℕ, ◌≤◌, ◌≡◌, refl, none, some, [], ◌∷◌, arith, ok}
use adex_validator_stack_rus.UnifiedNum.{sum, sum_from, to_precision}
use adex_validator_stack_rus.Channel.{into_inner, leader}
use adex_validator_stack_rus.Campaign.{
  iter, Campaign, ValidatorDesc, find, campaign_find_validator, campaign_leader, campaign_follower,
  Config, ChainInfo, ChainOf, TokenInfo, find_chain_of, find_token, found, all_validators_listed,
  creator_listed, validate, validate_amounts,
}
use adex_validator_stack_rus.Campaign.Whitelist.{count}
use adex_validator_stack_rus.Campaign.Validate.{IsAdmitted, Admissible, validate_sound}
use adex_validator_stack_rus.Tests.Data.{channel}

abbrev pub leader_desc : ValidatorDesc
leader_desc = record { id = 1; fee = 20000000; fee_addr = none; url = "leader" }

abbrev pub follower_desc : ValidatorDesc
follower_desc = record { id = 2; fee = 30000000; fee_addr = none; url = "follower" }

abbrev pub campaign : Campaign
campaign = record {
  id = 5;
  channel = channel;
  creator = 7;
  budget = 1000000000;
  validators = record { first = leader_desc; second = follower_desc };
  title = some "a campaign";
  pricing_bounds = [];
  event_submission = none;
  ad_units = [];
  targeting_rules = [];
  created = 900;
  active = record { from = none; to = 2000 };
}

abbrev pub token : TokenInfo
token = record { min_campaign_budget = 1; min_validator_fee = 1; precision = 18; address = 4 }

abbrev pub chain : ChainOf
chain = record { chain = 1; token = token }

abbrev pub config : Config
config = record {
  creators_whitelist = [];
  validators_whitelist = 2 ∷ 1 ∷ [];
  chains = record { chain = 1; tokens = token ∷ [] } ∷ [];
}

once : (v : ℕ) → count v (2 ∷ 1 ∷ []) ≤ 1
unfolding count
once v = ground arith

pub admits : validate campaign config 1 1000 ≡ ok chain
unfolding validate validate_amounts campaign_find_validator campaign_leader campaign_follower find
    find_chain_of find_token all_validators_listed found creator_listed sum sum_from to_precision
    into_inner iter
admits = refl

validate_sound_example :
    (d : ValidatorDesc) × (info : ChainInfo) × (1 ≡ info.chain)
    × Admissible campaign config 1 1000 d info token
validate_sound_example =
    validate_sound campaign config 1 1000 chain (λ e. omega (arith, e)) once admits

admitted : IsAdmitted campaign config 1 1000 (leader leader_desc) chain 50000000
unfolding campaign_find_validator campaign_leader campaign_follower find find_chain_of find_token
    all_validators_listed found creator_listed sum sum_from to_precision into_inner iter
admitted = record {
  included = refl;
  active = omega arith;
  validators = refl;
  creator = refl;
  asset = refl;
  amounts = record {
    budget = omega arith;
    fee_met = omega arith;
    fee_sum = refl;
    fees_covered = omega arith;
  };
}
