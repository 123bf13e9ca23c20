-- ===== src/Campaign/Validate.antt =====
-- Which campaigns are admitted.
use adex_validator_stack_rus.Prelude.{
  ℕ, ◌+◌, ◌≢◌, ◌⊎◌, refl, List, [], ◌∷◌, IsIn, ◌≤◌, ◌<◌, ◌≡◌, sym, ap, ◌∙◌, subst, inl, inr, true,
  some, map, arith, Option-cases, ok,
}
use adex_validator_stack_rus.UnifiedNum.{to_precision, sum}
use adex_validator_stack_rus.Channel.{ValidatorId, Validator, into_inner}
use adex_validator_stack_rus.BalancesMap.{Address}
use adex_validator_stack_rus.UnifiedNum.Sum.{sum_exact}
use adex_validator_stack_rus.Campaign.Lookup.{
  find_validator_inv, find_chain_of_inv, count-IsIn, any-IsIn,
}
use adex_validator_stack_rus.Campaign.Whitelist.{count, all_validators_listed_iff}
use adex_validator_stack_rus.Campaign.Defs.{
  Campaign, Validators, ValidatorDesc, iter, campaign_find_validator,
}
use adex_validator_stack_rus.Campaign.Validation.{
  Config, ChainInfo, TokenInfo, ChainOf, find_chain_of, all_validators_listed, creator_listed,
  validate, validate_amounts,
}

-- The amounts of an admitted campaign.
pub record HasAmounts (c : Campaign) (fee : ℕ) (chain : ChainOf) (total_fee : ℕ) : Type 0 where
  pub budget : chain.token.min_campaign_budget ≤ to_precision c.budget chain.token.precision
  pub fee_met : chain.token.min_validator_fee ≤ to_precision fee chain.token.precision
  pub fee_sum : sum (map (λ v. v.fee) (iter c.validators)) ≡ some total_fee
  pub fees_covered : total_fee < c.budget

pub record IsAdmitted (c : Campaign) (config : Config) (me : ValidatorId) (now : ℕ)
    (role : Validator ValidatorDesc) (chain : ChainOf) (total_fee : ℕ) : Type 0 where
  pub included : campaign_find_validator c me ≡ some role
  pub active : now ≤ c.active.to
  pub validators : all_validators_listed c.validators config.validators_whitelist ≡ true
  pub creator : creator_listed c config.creators_whitelist ≡ true
  pub asset : find_chain_of c.channel.token config.chains ≡ some chain
  pub amounts : HasAmounts c (into_inner role).fee chain total_fee

validate_amounts_inv :
    (c : Campaign) (whoami : ValidatorDesc) (chain found : ChainOf)
    → validate_amounts c whoami chain ≡ ok found
    → (found ≡ chain) × (n : ℕ) × HasAmounts c whoami.fee chain n
unfolding validate_amounts
validate_amounts_inv c whoami chain found h =
    elim (Option-cases (sum (map (λ v. v.fee) (iter c.validators)))) [
      | inl e ↦ absurd (ground arith)
      | inr (n, e) ↦ (
        ground arith,
        n,
        record {
          budget = ground arith;
          fee_met = ground arith;
          fee_sum = e;
          fees_covered = ground arith;
        },
      )
    ]

-- What an admitted campaign is known to have, in terms of its own data and the configuration. A
-- whitelist that is empty admits everyone.
pub record Admissible (c : Campaign) (config : Config) (me : ValidatorId) (now : ℕ)
    (d : ValidatorDesc) (info : ChainInfo) (token : TokenInfo) : Type 0 where
  pub ours : (d ≡ c.validators.first) ⊎ (d ≡ c.validators.second)
  pub id : d.id ≡ me
  pub role : (me ≡ c.channel.leader) ⊎ (me ≡ c.channel.follower)
  pub active : now ≤ c.active.to
  pub validators :
      (config.validators_whitelist ≡ [])
      ⊎ (IsIn c.validators.first.id config.validators_whitelist
          × IsIn c.validators.second.id config.validators_whitelist)
  pub creator : (config.creators_whitelist ≡ []) ⊎ IsIn c.creator config.creators_whitelist
  pub chain : IsIn info config.chains
  pub token_of : IsIn token info.tokens
  pub asset : token.address ≡ c.channel.token
  pub budget : token.min_campaign_budget ≤ to_precision c.budget token.precision
  pub fee : token.min_validator_fee ≤ to_precision d.fee token.precision
  pub fees : c.validators.first.fee + c.validators.second.fee < c.budget

validators_in :
    (vs : Validators) (ws : List ValidatorId)
    → vs.first.id ≢ vs.second.id
    → ((v : ValidatorId) → count v ws ≤ 1)
    → all_validators_listed vs ws ≡ true
    → (ws ≡ []) ⊎ (IsIn vs.first.id ws × IsIn vs.second.id ws)
validators_in vs [] differ once h = inl refl
validators_in vs (w ∷ ws) differ once h =
    let (a, b) = (all_validators_listed_iff vs w ws differ once).0 h in
    inr (count-IsIn vs.first.id (w ∷ ws) a, count-IsIn vs.second.id (w ∷ ws) b)

creator_in :
    (c : Campaign) (xs : List Address) → creator_listed c xs ≡ true → (xs ≡ []) ⊎ IsIn c.creator xs
unfolding creator_listed
creator_in c [] h = inl refl
creator_in c (x ∷ xs) h = inr (any-IsIn c.creator (x ∷ xs) h)

validate_inv :
    (c : Campaign) (config : Config) (me : ValidatorId) (now : ℕ) (chain : ChainOf)
    → validate c config me now ≡ ok chain
    → (role : Validator ValidatorDesc) × (n : ℕ) × IsAdmitted c config me now role chain n
unfolding validate
validate_inv c config me now chain h = elim (Option-cases (campaign_find_validator c me)) [
  | inl e ↦ absurd (ground arith)
  | inr (role, e) ↦ elim (Option-cases (find_chain_of c.channel.token config.chains)) [
    | inl d ↦ absurd (ground arith)
    | inr (found, d) ↦
        let (same, n, amounts) =
          validate_amounts_inv c (into_inner role) found chain (ground arith) in
        (
          role,
          n,
          record {
            included = e;
            active = ground arith;
            validators = ground arith;
            creator = ground arith;
            asset = d ∙ ap some (sym same);
            amounts = subst (λ x. HasAmounts c (into_inner role).fee x n) (sym same) amounts;
          },
        )
  ]
]

-- For a campaign with two different validators, and a whitelist of validators without an entry
-- twice, that is admitted: this validator is one of its two and the leader or follower of its channel;
-- it has not ended; both validators, and its creator, are on their whitelists, where these are not
-- empty; its token is one of a configured chain; its budget and the validator's fee are at least
-- that token's minimums; and the fees of the two together are less than the budget.
pub validate_sound :
    (c : Campaign) (config : Config) (me : ValidatorId) (now : ℕ) (chain : ChainOf)
    → c.validators.first.id ≢ c.validators.second.id
    → ((v : ValidatorId) → count v config.validators_whitelist ≤ 1)
    → validate c config me now ≡ ok chain
    → (d : ValidatorDesc) × (info : ChainInfo) × (chain.chain ≡ info.chain)
      × Admissible c config me now d info chain.token
unfolding iter
validate_sound c config me now chain differ once h =
    let (role, n, a) = validate_inv c config me now chain h in
    let (ours, same, seat) = find_validator_inv c me role a.included in
    let (info, i, number, t, asset) =
      find_chain_of_inv c.channel.token config.chains chain a.asset in
    let exact = sum_exact (map (λ v. v.fee) (iter c.validators)) a.amounts.fee_sum in
    (
      into_inner role,
      info,
      number,
      record {
        ours = ours;
        id = same;
        role = seat;
        active = a.active;
        validators =
            validators_in c.validators config.validators_whitelist differ once a.validators;
        creator = creator_in c config.creators_whitelist a.creator;
        chain = i;
        token_of = t;
        asset = asset;
        budget = a.amounts.budget;
        fee = a.amounts.fee_met;
        fees = omega (arith, exact.0, a.amounts.fees_covered);
      },
    )

-- Every campaign that meets these conditions is admitted.
pub validate_complete :
    (c : Campaign) (config : Config) (me : ValidatorId) (now : ℕ) (role : Validator ValidatorDesc)
    (chain : ChainOf) (n : ℕ)
    → IsAdmitted c config me now role chain n
    → validate c config me now ≡ ok chain
unfolding validate validate_amounts
validate_complete c config me now role chain n a =
    let i = a.included in
    let t = a.active in
    let v = a.validators in
    let k = a.creator in
    let s = a.asset in
    let b = a.amounts.budget in
    let f = a.amounts.fee_met in
    let m = a.amounts.fee_sum in let l = a.amounts.fees_covered in ground arith
