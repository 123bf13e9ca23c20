-- ===== src/Tests/Client.antt =====
-- The theorems on the worker's client at concrete data.
use adex_validator_stack_rus.Prelude.{
  ◌≡◌, refl, true, Option, none, some, List, [], ◌∷◌, arith, All, ok,
}
use Prim.Native.String.{String}
use adex_validator_stack_rus.BalancesMap.{get, contains_key, insert}
use adex_validator_stack_rus.Channel.{ValidatorId}
use adex_validator_stack_rus.Campaign.{iter, find_token, find_chain_of}
use adex_validator_stack_rus.Sentry.Routes.Tables.{same_channel}
use adex_validator_stack_rus.Worker.Client.{
  ChainId, ChainValidators, ChainsValidators, Context, Setup, whoami_of, with_propagate,
  add_validator, add_validators, insert_context, collect_campaign, collect_channels,
}
use adex_validator_stack_rus.Worker.Client.Propagation.{collect_channels-with_propagate}
use adex_validator_stack_rus.UnifiedNum.{UnifiedNum}
use adex_validator_stack_rus.BalancesMap.{Address}
use adex_validator_stack_rus.Sentry.Channels.Spenders.{limits_of}
use adex_validator_stack_rus.Worker.Client.Pages.{get_all_spenders}
use adex_validator_stack_rus.Worker.Client.Spenders.{answered, get_all_spenders-limits}
use adex_validator_stack_rus.Tests.Data.{channel}
use adex_validator_stack_rus.Tests.Campaign.{campaign, chain, config}

-- Validator 1 has a token for itself and for validator 2.
abbrev token_for : ChainId → ValidatorId → Option String
token_for _ _ = some "token"

abbrev setup : Setup
setup = record {
  parse = λ s. some s;
  get_auth = token_for;
  me = 1;
  sentry_url = "own";
  chains = config.chains;
}

abbrev own : ChainValidators
own = (1, record { url = "own"; token = "token" }) ∷ []

abbrev both : ChainValidators
both =
    (1, record { url = "leader"; token = "token" })
    ∷ (2, record { url = "follower"; token = "token" })
    ∷ []

abbrev context : Context
context = record { chain = chain; channel = channel }

-- Two campaigns of one channel.
collects :
    collect_channels setup (campaign ∷ campaign ∷ []) ([], []) ≡ ((1, both) ∷ [], context ∷ [])
unfolding collect_channels collect_campaign find_chain_of find_token add_validators add_validator
    iter insert_context same_channel get insert
collects = refl

collect_channels-with_propagate_example :
    (chains : ChainsValidators) × (with_propagate setup own ((1, both) ∷ []) ≡ ok chains)
    × All
        (λ (c : Context).
          (m : ChainValidators) × (get c.chain.chain chains ≡ some m)
          × (contains_key setup.me m ≡ true))
        (context ∷ [])
unfolding whoami_of insert collect_channels collect_campaign find_chain_of find_token add_validators
    add_validator iter insert_context same_channel get
collect_channels-with_propagate_example =
    collect_channels-with_propagate setup own (campaign ∷ campaign ∷ []) refl

-- Three spendables, two to a page.
abbrev rows : List (Address × UnifiedNum)
rows = (7, 20) ∷ (8, 1) ∷ (9, 4) ∷ []

get_all_spenders-limits_example :
    get_all_spenders (answered none rows 2) ≡ some (limits_of none rows [])
get_all_spenders-limits_example = get_all_spenders-limits none rows 2 (omega arith) (omega arith)
