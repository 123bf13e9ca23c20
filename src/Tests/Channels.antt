-- ===== src/Tests/Channels.antt =====
-- The theorems on the routes of a channel and on a new budget at concrete data.
use adex_validator_stack_rus.Prelude.{
  ◌≡◌, refl, false, none, some, List, [], ◌∷◌, map, arith, total, pos, ok, err,
}
use adex_validator_stack_rus.UnifiedNum.{UnifiedNum, sum, sum_from}
use adex_validator_stack_rus.BalancesMap.{UnifiedMap, get, insert, is_empty}
use adex_validator_stack_rus.Balances.{new, spend, credit}
use adex_validator_stack_rus.Channel.{Validator, find_validator}
use adex_validator_stack_rus.Sentry.CampaignRemaining.{get_multiple}
use adex_validator_stack_rus.Sentry.CampaignRemaining.Effects.{left}
use adex_validator_stack_rus.Sentry.Accounting.{
  earner, spender, get_accounting, upsert, upsert_all, spend_amount,
}
use adex_validator_stack_rus.Sentry.Routes.Tables.{State, same_channel, campaign_ids}
use adex_validator_stack_rus.Sentry.Routes.Pages.{
  all_pages, total_pages, other_pages, fetch_campaign_ids_for_channel,
}
use adex_validator_stack_rus.Sentry.Channels.{
  Accounting, spend_payouts, available_for_payout, channel_remaining_sum, fetch_spendable,
  pay_from_accounting, channel_payout,
}
use adex_validator_stack_rus.Sentry.Channels.Payout.{IsPayout, channel_payout_sound}
use adex_validator_stack_rus.Sentry.Channels.Accountings.{channel_payout_blocks_tick}
use adex_validator_stack_rus.Worker.Follower.{Spender}
use adex_validator_stack_rus.Worker.ChannelTick.{channel_tick, validation}
use adex_validator_stack_rus.Tests.Data as Data
use adex_validator_stack_rus.Tests.Data.{two, two_IsChecked, channel}
use adex_validator_stack_rus.Tests.Memory.{memory, memory_laws, put}
use adex_validator_stack_rus.Tests.Campaign.{campaign}
use adex_validator_stack_rus.Tests.Budget.{store}
use adex_validator_stack_rus.Tests.Routes.{api, before}

-- Payer 8 has deposited 1 and earned 3, and its campaign is closed.
abbrev empty : State memory
empty = record {
  store = put 5 (some (pos 0)) store;
  tables = record {
    channels = channel ∷ [];
    accounting = two;
    spendables = (8, 1) ∷ [];
    campaigns = campaign ∷ [];
  };
}

abbrev payouts : UnifiedMap
payouts = (9, 2) ∷ []

abbrev paid_out : State memory
paid_out = record {
  store = put 5 (some (pos 0)) store;
  tables = record {
    channels = channel ∷ [];
    accounting = record { earners = (8, 3) ∷ (9, 4) ∷ []; spenders = (7, 5) ∷ (8, 2) ∷ [] };
    spendables = (8, 1) ∷ [];
    campaigns = campaign ∷ [];
  };
}

pays_out : channel_payout memory api channel 8 payouts empty ≡ (ok tt, paid_out)
unfolding channel_payout channel_remaining_sum pay_from_accounting available_for_payout
    spend_payouts fetch_spendable get_accounting spend_amount upsert_all upsert get insert sum
    sum_from new spend credit fetch_campaign_ids_for_channel all_pages total_pages other_pages
    same_channel campaign_ids get_multiple
pays_out = refl

channel_payout_sound_example :
    (d : UnifiedNum) × IsPayout memory memory_laws api channel 8 payouts empty paid_out d
    × (is_empty payouts ≡ false)
    × (total
          (map (left memory memory_laws empty.store) (campaign_ids channel empty.tables.campaigns))
        ≡ 0)
unfolding campaign_ids same_channel
channel_payout_sound_example =
    channel_payout_sound memory memory_laws api channel 8 payouts empty paid_out (omega arith)
      (omega arith) two_IsChecked pays_out

abbrev deposit : Spender
deposit = record { total_deposited = 1; total_spent = none }

channel_payout_blocks_tick_example :
    channel_tick Data.api 1 (some ((8, deposit) ∷ [])) (some paid_out.tables.accounting) none []
    ≡ (err validation, [])
unfolding campaign_ids same_channel find_validator get
channel_payout_blocks_tick_example =
    channel_payout_blocks_tick memory memory_laws api channel 8 payouts empty paid_out Data.api 1
      (Validator.leader 1) deposit [] none [] (omega arith) (omega arith) two_IsChecked
      (omega arith) pays_out refl

abbrev rows : List Accounting
rows =
    record { side = spender; address = 7; amount = 5 }
    ∷ record { side = earner; address = 9; amount = 2 }
    ∷ record { side = earner; address = 8; amount = 3 }
    ∷ []

-- The budget of campaign 5 grows by 100.
abbrev grown : State memory
grown = record {
  store = put 5 (some (pos 150)) store;
  tables = record before.tables { spendables = (7, 2000000000) ∷ [] };
}
