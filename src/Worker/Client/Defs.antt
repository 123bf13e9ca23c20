-- ===== src/Worker/Client/Defs.antt =====
-- The client: to whom messages of a channel are propagated. Parsing URLs, the adapter's tokens and
-- sending a message are parameters. A hash map is a map in the order of its keys.
use adex_validator_stack_rus.Prelude.{
  ℕ, Option, none, some, List, [], ◌∷◌, map, ◌==◌, if◌then◌else◌, length, any, Result, ok, err,
  aborts, or_default,
}
use Prim.Native.String.{String}
use adex_validator_stack_rus.BalancesMap.{Map, get, contains_key, insert, from_iter}
use adex_validator_stack_rus.Channel.{Channel, ValidatorId}
use adex_validator_stack_rus.Campaign.{
  Campaign, ValidatorDesc, ChainInfo, ChainOf, iter, find_chain_of,
}
use adex_validator_stack_rus.Sentry.Routes.Tables.{same_channel}
use adex_validator_stack_rus.Worker.Messages.{PropagationResult}

abbrev pub ChainId : Type 0
ChainId = ℕ

-- `Validator`: the URL of a Sentry, and the token for it.
pub record PropagationValidator : Type 0 where
  pub url : String
  pub token : String

-- `Validators`, by their ids, and `ChainsValidators`, by chains.
abbrev pub ChainValidators : Type 0
ChainValidators = Map PropagationValidator

abbrev pub ChainsValidators : Type 0
ChainsValidators = Map ChainValidators

-- `Error`, of the operations here.
pub data ApiError : Type 0 where
  chain_not_whitelisted authentication_token : ChainId → ApiError
  propagation_validators_not_found : List ValidatorId → ChainValidators → ApiError

-- A channel with its chain.
pub record Context : Type 0 where
  pub chain : ChainOf
  pub channel : Channel

-- `entry(id).or_insert_with(..)`
abbrev pub or_insert : {V : Type 0} → ℕ → V → Map V → Map V
or_insert k v m = if contains_key k m then m else insert k v m

-- What the client is given: `url.parse()`, `adapter.get_auth()` and `adapter.whoami()`.
pub record Setup : Type 0 where
  pub parse : String → Option String
  pub get_auth : ChainId → ValidatorId → Option String
  pub me : ValidatorId
  pub sentry_url : String
  pub chains : List ChainInfo

module _ (x : Setup) where
  -- The `whoami` of `SentryApi::new`: this validator, on every chain of the configuration.
  unfoldable pub whoami_of : List ChainInfo → ChainValidators → Result ApiError ChainValidators
  whoami_of [] m = ok m
  whoami_of (info ∷ infos) m = elim (x.get_auth info.chain x.me) [
    | none ↦ err (authentication_token info.chain)
    | some token ↦
        whoami_of infos (insert info.chain (record { url = x.sentry_url; token = token }) m)
  ]

  -- `with_propagate`: every chain has to be one of `whoami`, and gets this validator.
  unfoldable pub with_propagate :
      ChainValidators → ChainsValidators → Result ApiError ChainsValidators
  with_propagate whoami [] = ok []
  with_propagate whoami ((chain, validators) ∷ rest) = elim (get chain whoami) [
    | none ↦ err (chain_not_whitelisted chain)
    | some validator ↦ elim (with_propagate whoami rest) [
      | ok done ↦ ok ((chain, or_insert x.me validator validators) ∷ done)
      | err e ↦ err e
      | aborts ↦ aborts
    ]
  ]

  -- One validator of a campaign; one whose URL or token is not there is skipped.
  unfoldable pub add_validator : ChainId → ValidatorDesc → ChainValidators → ChainValidators
  add_validator chain desc m = if contains_key desc.id m then m else elim (x.parse desc.url) [
    | none ↦ m
    | some url ↦ elim (x.get_auth chain desc.id) [
      | none ↦ m
      | some token ↦ insert desc.id (record { url = url; token = token }) m
    ]
  ]

  unfoldable pub add_validators : ChainId → List ValidatorDesc → ChainValidators → ChainValidators
  unfolding add_validator
  add_validators chain [] m = m
  add_validators chain (desc ∷ descs) m = add_validators chain descs (add_validator chain desc m)

  -- `channels.insert(..)`: the set keeps what it has.
  unfoldable pub insert_context : Context → List Context → List Context
  insert_context c cs = if any (λ d. same_channel d.channel c.channel) cs then cs else c ∷ cs

  -- One campaign; that of a token that is not configured is skipped.
  unfoldable pub collect_campaign :
      Campaign → ChainsValidators × List Context → ChainsValidators × List Context
  unfolding find_chain_of add_validators insert_context
  collect_campaign c (validators, channels) = elim (find_chain_of c.channel.token x.chains) [
    | none ↦ (validators, channels)
    | some chain ↦ (
      insert chain.chain
          (add_validators chain.chain (iter c.validators)
            (or_default [] (get chain.chain validators)))
          validators,
      insert_context (record { chain = chain; channel = c.channel }) channels,
    )
  ]

  -- The fold of `collect_channels` over all campaigns.
  unfoldable pub collect_channels :
      List Campaign → ChainsValidators × List Context → ChainsValidators × List Context
  unfolding collect_campaign
  collect_channels [] q = q
  collect_channels (c ∷ cs) q = collect_channels cs (collect_campaign c q)

-- The validators of the channel that are in the list for propagation.
unfoldable pub targets_of :
    List ValidatorId → ChainValidators → List (ValidatorId × PropagationValidator)
targets_of [] m = []
targets_of (id ∷ ids) m = elim (get id m) [
  | none ↦ targets_of ids m
  | some validator ↦ (id, validator) ∷ targets_of ids m
]

-- `propagate`, with `send` for `propagate_to`: to both validators of the channel, or to none.
unfoldable pub propagate :
    (send : ValidatorId → PropagationValidator → PropagationResult)
    → ChainsValidators
    → Context
    → Result ApiError (List PropagationResult)
unfolding targets_of
propagate send propagate_to c = elim (get c.chain.chain propagate_to) [
  | none ↦ err (chain_not_whitelisted c.chain.chain)
  | some validators ↦
      let ids = c.channel.leader ∷ c.channel.follower ∷ [] in
      let found = from_iter (targets_of ids validators) [] in
      if length found == 2
      then ok (map (λ e. send e.0 e.1) found)
      else err (propagation_validators_not_found ids found)
]
