-- ===== src/Campaign/Lookup.antt =====
-- What the lookups of validators, tokens, chains and whitelists of primitives/src/campaign.rs,
-- config.rs and campaign_validator.rs find.
use adex_validator_stack_rus.Prelude.{
  ◌≤◌, ◌≡◌, refl, sym, ap, ◌∙◌, subst, ◌⊎◌, inl, inr, true, Option, none, some, List, [], ◌∷◌,
  arith, ◌==◌, Bool-cases, Option-cases, any, IsIn,
}
use adex_validator_stack_rus.BalancesMap.{Address}
use adex_validator_stack_rus.Channel.{ValidatorId, Validator, into_inner}
use adex_validator_stack_rus.Campaign.Defs.{
  Campaign, Validators, ValidatorDesc, find, as_follower, as_validator, campaign_find_validator,
  campaign_leader, campaign_follower,
}
use adex_validator_stack_rus.Campaign.Validation.{
  ChainInfo, TokenInfo, ChainOf, find_token, find_chain_of,
}
use adex_validator_stack_rus.Campaign.Whitelist.{count}

find_token_inv :
    (a : Address) (ts : List TokenInfo) (t : TokenInfo)
    → find_token a ts ≡ some t
    → IsIn t ts × (t.address ≡ a)
unfolding find_token
find_token_inv a [] t h = absurd (ground arith)
find_token_inv a (u ∷ ts) t h = elim (Bool-cases (u.address == a)) [
  | inl here ↦ (inl (ground arith), ground arith)
  | inr other ↦ let (i, e) = find_token_inv a ts t (ground arith) in (inr i, e)
]

pub find_chain_of_inv :
    (a : Address) (cs : List ChainInfo) (chain : ChainOf)
    → find_chain_of a cs ≡ some chain
    → (info : ChainInfo) × IsIn info cs
      × (chain.chain ≡ info.chain)
      × IsIn chain.token info.tokens
      × (chain.token.address ≡ a)
unfolding find_chain_of
find_chain_of_inv a [] chain h = absurd (ground arith)
find_chain_of_inv a (c ∷ cs) chain h = elim (Option-cases (find_token a c.tokens)) [
  | inl none_here ↦
      let (info, i, number, t, e) = find_chain_of_inv a cs chain (ground arith) in
      (info, inr i, number, t, e)
  | inr (t, e) ↦
      let (i, same) = find_token_inv a c.tokens t e in
      let token : chain.token ≡ t = ground arith in
      (c, inl refl, ground arith, subst (λ u. IsIn u c.tokens) (sym token) i, ground arith)
]

find_inv :
    (vs : Validators) (v : ValidatorId) (d : ValidatorDesc)
    → find vs v ≡ some d
    → ((d ≡ vs.first) ⊎ (d ≡ vs.second)) × (d.id ≡ v)
unfolding find
find_inv vs v d h = elim (Bool-cases (vs.first.id == v)) [
  | inl first ↦
      let same : vs.first ≡ d = ground arith in
      (inl (sym same), sym (ap (λ (x : ValidatorDesc). x.id) same) ∙ ground arith)
  | inr other ↦ elim (Bool-cases (vs.second.id == v)) [
    | inl second ↦
        let same : vs.second ≡ d = ground arith in
        (inr (sym same), sym (ap (λ (x : ValidatorDesc). x.id) same) ∙ ground arith)
    | inr neither ↦ absurd (ground arith)
  ]
]

as_follower_inv :
    (f : Option ValidatorDesc) (me : ValidatorId) (role : Validator ValidatorDesc)
    → as_follower f me ≡ some role
    → (d : ValidatorDesc) × (f ≡ some d) × (into_inner role ≡ d) × (d.id ≡ me)
unfolding into_inner
as_follower_inv none me role h = absurd (ground arith)
as_follower_inv (some d) me role h = elim (Bool-cases (d.id == me)) [
  | inl here ↦
      let same : Validator.follower d ≡ role = ground arith in
      (d, refl, sym (ap into_inner same), ground arith)
  | inr other ↦ absurd (ground arith)
]

as_validator_inv :
    (l f : Option ValidatorDesc) (me : ValidatorId) (role : Validator ValidatorDesc)
    → as_validator l f me ≡ some role
    → (d : ValidatorDesc) × ((l ≡ some d) ⊎ (f ≡ some d)) × (into_inner role ≡ d) × (d.id ≡ me)
unfolding into_inner
as_validator_inv none f me role h =
    let (d, e, same, id) = as_follower_inv f me role h in (d, inr e, same, id)
as_validator_inv (some d) f me role h = elim (Bool-cases (d.id == me)) [
  | inl here ↦
      let same : Validator.leader d ≡ role = ground arith in
      (d, inl refl, sym (ap into_inner same), ground arith)
  | inr other ↦
      let (g, e, same, id) = as_follower_inv f me role (ground arith) in (g, inr e, same, id)
]

-- The description of a validator that is found is one of the two, and has a seat in the channel.
pub find_validator_inv :
    (c : Campaign) (me : ValidatorId) (role : Validator ValidatorDesc)
    → campaign_find_validator c me ≡ some role
    → ((into_inner role ≡ c.validators.first) ⊎ (into_inner role ≡ c.validators.second))
      × ((into_inner role).id ≡ me)
      × ((me ≡ c.channel.leader) ⊎ (me ≡ c.channel.follower))
unfolding campaign_find_validator campaign_leader campaign_follower
find_validator_inv c me role h =
    let (d, e, same, id) = as_validator_inv (campaign_leader c) (campaign_follower c) me role h in
    let moved : ((d ≡ c.validators.first) ⊎ (d ≡ c.validators.second))
        → (into_inner role ≡ c.validators.first) ⊎ (into_inner role ≡ c.validators.second) =
      subst
        (λ x.
          ((d ≡ c.validators.first) ⊎ (d ≡ c.validators.second))
          → (x ≡ c.validators.first) ⊎ (x ≡ c.validators.second))
        (sym same) (λ x. x) in
    elim e [
      | inl led ↦
          let (which, seat) = find_inv c.validators c.channel.leader d led in
          (moved which, ap (λ (x : ValidatorDesc). x.id) same ∙ id, inl (sym id ∙ seat))
      | inr followed ↦
          let (which, seat) = find_inv c.validators c.channel.follower d followed in
          (moved which, ap (λ (x : ValidatorDesc). x.id) same ∙ id, inr (sym id ∙ seat))
    ]

pub count-IsIn : (v : ValidatorId) (ws : List ValidatorId) → 1 ≤ count v ws → IsIn v ws
unfolding count
count-IsIn v [] h = absurd (omega (arith, h))
count-IsIn v (w ∷ ws) h = elim (Bool-cases (w == v)) [
  | inl here ↦ inl (ground arith)
  | inr other ↦ inr (count-IsIn v ws (ground arith))
]

pub any-IsIn : (a : Address) (xs : List Address) → any (λ x. x == a) xs ≡ true → IsIn a xs
any-IsIn a [] h = absurd (ground arith)
any-IsIn a (x ∷ xs) h = elim (Bool-cases (x == a)) [
  | inl here ↦ inl (ground arith)
  | inr other ↦ inr (any-IsIn a xs (ground arith))
]
