-- ===== src/Tests/Routes.antt =====
-- The theorems on the routes of a campaign at concrete data.
use adex_validator_stack_rus.Prelude.{◌≡◌, refl, true, some, [], ◌∷◌, arith, pos, negsuc, ok, err}
use adex_validator_stack_rus.UnifiedNum.{UnifiedNum, sum, sum_from, to_precision, from_precision}
use adex_validator_stack_rus.BalancesMap.{get, insert}
use adex_validator_stack_rus.Channel.{into_inner}
use adex_validator_stack_rus.Campaign.{
  Campaign, ChainOf, iter, find, campaign_find_validator, campaign_leader, campaign_follower,
  find_chain_of, find_token, found, all_validators_listed, creator_listed, validate,
  validate_amounts,
}
use adex_validator_stack_rus.Sentry.CampaignRemaining.{get_multiple, set_initial}
use adex_validator_stack_rus.Sentry.Accounting.{get_accounting}
use adex_validator_stack_rus.Sentry.Routes.Tables.{
  Api, State, Tables, bad_request, same_channel, campaign_ids, insert_channel, insert_campaign,
  update_spendable,
}
use adex_validator_stack_rus.Sentry.Routes.Pages.{
  all_pages, total_pages, other_pages, fetch_campaign_ids_for_channel,
}
use adex_validator_stack_rus.Sentry.Routes.Budget.{update_latest_spendable}
use adex_validator_stack_rus.Sentry.Routes.Create.{
  create_campaign, create_admitted, total_remaining, campaigns_remaining_sum, fetch_ids,
  insert_created, inserted_result,
}
use adex_validator_stack_rus.Sentry.Routes.Created.{IsCreated, create_campaign_sound}
use adex_validator_stack_rus.Sentry.Routes.Close.{close_campaign, close_campaign_overspent}
use adex_validator_stack_rus.Tests.Data.{two, channel}
use adex_validator_stack_rus.Tests.Memory.{memory, memory_laws, put}
use adex_validator_stack_rus.Tests.Campaign.{campaign, config}
use adex_validator_stack_rus.Tests.Budget.{store}

-- A deposit of 20 whole tokens, at 18 decimals.
abbrev pub api : Api
api = record {
  accounting = record { connected = true; reaches = λ side address. true };
  reaches_channels = true;
  reaches_spendables = true;
  reaches_campaigns = true;
  reaches_insert = true;
  reaches_update = true;
  config = config;
  campaigns_find = 2;
  whoami = 1;
  get_deposit = λ c address. some 20000000000000000000;
  now = 1000;
}

abbrev pub tables : Tables
tables = record { channels = []; accounting = two; spendables = []; campaigns = campaign ∷ [] }

abbrev new_campaign : Campaign
new_campaign = record campaign { id = 9 }

abbrev pub before : State memory
before = record { store = store; tables = tables }

abbrev after : State memory
after = record {
  store = put 9 (some (pos 1000000000)) store;
  tables = record {
    channels = channel ∷ [];
    accounting = two;
    spendables = (7, 2000000000) ∷ [];
    campaigns = campaign ∷ new_campaign ∷ [];
  };
}

creates : create_campaign memory api 7 new_campaign before ≡ (ok new_campaign, after)
unfolding create_campaign create_admitted total_remaining campaigns_remaining_sum fetch_ids
    insert_created inserted_result validate validate_amounts campaign_find_validator campaign_leader
    campaign_follower find find_chain_of find_token all_validators_listed found creator_listed iter
    into_inner sum sum_from to_precision from_precision insert_channel insert_campaign
    update_spendable update_latest_spendable get_accounting get insert
    fetch_campaign_ids_for_channel all_pages total_pages other_pages same_channel campaign_ids
    get_multiple set_initial
creates = refl

create_campaign_sound_example :
    (found_chain : ChainOf) × (d : UnifiedNum) × (new_campaign ≡ new_campaign)
    × IsCreated memory memory_laws api new_campaign 7 found_chain d before after
unfolding campaign_ids same_channel
create_campaign_sound_example =
    create_campaign_sound memory memory_laws api new_campaign 7 before after new_campaign
      (omega arith) (omega arith) creates

abbrev overspent : Campaign
overspent = record campaign { id = 6 }

close_campaign_overspent_example :
    (close_campaign memory api 7 overspent before
      ≡ (err bad_request, record { store = put 6 (some (pos 0)) store; tables = tables }))
    × (put 6 (some (pos 0)) store 6 ≡ some (pos 0))
close_campaign_overspent_example =
    close_campaign_overspent memory memory_laws api overspent before 2 (put 6 (some (pos 0)) store)
      (some (negsuc 2)) refl refl
