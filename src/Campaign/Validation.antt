-- ===== src/Campaign/Validation.antt =====
-- `Validator::validate` of primitives/src/campaign_validator.rs, and `Config::find_chain_of` of
-- primitives/src/config.rs.
use adex_validator_stack_rus.Prelude.{
  ℕ, Bool, true, not, Option, none, some, List, [], ◌∷◌, map, ltb, leb, ◌==◌, if◌then◌else◌, length,
  any, take, Result, ok, err,
}
use adex_validator_stack_rus.BalancesMap.{Address}
use adex_validator_stack_rus.UnifiedNum.{BigNum, to_precision, sum}
use adex_validator_stack_rus.Channel.{ValidatorId, into_inner}
use adex_validator_stack_rus.Campaign.Defs.{
  Campaign, Validators, ValidatorDesc, find, iter, campaign_find_validator,
}

-- `TokenInfo`; the precision is not zero.
pub record TokenInfo : Type 0 where
  pub min_campaign_budget : BigNum
  pub min_validator_fee : BigNum
  pub precision : ℕ
  pub address : Address

-- `ChainInfo`; `chain` is the id of the chain.
pub record ChainInfo : Type 0 where
  pub chain : ℕ
  pub tokens : List TokenInfo

-- `ChainOf<()>`
pub record ChainOf : Type 0 where
  pub chain : ℕ
  pub token : TokenInfo

-- The fields of `Config` that a campaign is checked with.
pub record Config : Type 0 where
  pub creators_whitelist : List Address
  pub validators_whitelist : List ValidatorId
  pub chains : List ChainInfo

-- `enum Validation`
pub data Validation : Type 0 where
  adapter_not_included invalid_active_to unlisted_validator unlisted_creator : Validation
  unlisted_asset minimum_deposit_not_met minimum_validator_fee_not_met : Validation
  fee_constraint_violated : Validation

pub data Error : Type 0 where
  fee_sum_overflow : Error
  validation : Validation → Error

-- The first token of a chain at the address.
unfoldable pub find_token : Address → List TokenInfo → Option TokenInfo
find_token a [] = none
find_token a (t ∷ ts) = if t.address == a then some t else find_token a ts

-- `Config::find_chain_of`
unfoldable pub find_chain_of : Address → List ChainInfo → Option ChainOf
unfolding find_token
find_chain_of a [] = none
find_chain_of a (c ∷ cs) = elim (find_token a c.tokens) [
  | some t ↦ some (record { chain = c.chain; token = t })
  | none ↦ find_chain_of a cs
]

-- `.filter(|&allowed| validators.find(allowed).is_some())`
unfoldable pub found : Validators → List ValidatorId → List ValidatorId
unfolding find
found vs [] = []
found vs (allowed ∷ rest) = elim (find vs allowed) [
  | some _ ↦ allowed ∷ found vs rest
  | none ↦ found vs rest
]

unfoldable pub all_validators_listed : Validators → List ValidatorId → Bool
unfolding found
all_validators_listed vs [] = true
all_validators_listed vs (v ∷ whitelist) = length (take 2 (found vs (v ∷ whitelist))) == 2

unfoldable pub creator_listed : Campaign → List Address → Bool
creator_listed c [] = true
creator_listed c (a ∷ whitelist) = any (λ allowed. allowed == c.creator) (a ∷ whitelist)

-- The token's minimums and the fees of both validators.
unfoldable pub validate_amounts : Campaign → ValidatorDesc → ChainOf → Result Error ChainOf
validate_amounts c whoami chain =
    if ltb (to_precision c.budget chain.token.precision) chain.token.min_campaign_budget
    then err (validation minimum_deposit_not_met)
    else if ltb (to_precision whoami.fee chain.token.precision) chain.token.min_validator_fee
    then err (validation minimum_validator_fee_not_met)
    else elim (sum (map (λ v. v.fee) (iter c.validators))) [
      | none ↦ err fee_sum_overflow
      | some total_validator_fee ↦
          if leb c.budget total_validator_fee
          then err (validation fee_constraint_violated)
          else ok chain
    ]

-- `now` is `Utc::now()`. The chain is what `with_campaign` joins to the campaign.
unfoldable pub validate : Campaign → Config → ValidatorId → ℕ → Result Error ChainOf
unfolding validate_amounts
validate c config validator_identity now = elim (campaign_find_validator c validator_identity) [
  | none ↦ err (validation adapter_not_included)
  | some role ↦
      if ltb c.active.to now
      then err (validation invalid_active_to)
      else if not (all_validators_listed c.validators config.validators_whitelist)
      then err (validation unlisted_validator)
      else if not (creator_listed c config.creators_whitelist)
      then err (validation unlisted_creator)
      else elim (find_chain_of c.channel.token config.chains) [
        | none ↦ err (validation unlisted_asset)
        | some chain ↦ validate_amounts c (into_inner role) chain
      ]
]
