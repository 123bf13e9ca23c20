-- ===== src/Tests/Events.antt =====
-- The theorems on events and accounting at concrete data.
use adex_validator_stack_rus.Prelude.{
  ℕ, zero, suc, ◌+◌, ◌≡◌, refl, true, false, Option, none, some, List, [], ◌∷◌, map, arith, pos,
  Result, ok, err,
}
use adex_validator_stack_rus.UnifiedNum.{sum, sum_from}
use adex_validator_stack_rus.UnifiedNum.Ratio.{checked_mul}
use adex_validator_stack_rus.BalancesMap.{Address, get, get_or_zero, insert}
use adex_validator_stack_rus.BalancesMap.Total.{sum_values}
use adex_validator_stack_rus.Balances.{Balances, new, spend, credit}
use adex_validator_stack_rus.Balances.Spend.{IsChecked}
use adex_validator_stack_rus.Sentry.Accounting.{
  Database, earner, spender, upsert, upsert_all, spend_amount,
}
use adex_validator_stack_rus.Sentry.Accounting.Rows.{
  added, spend_amount-IsChecked, spend_amount_entries,
}
use adex_validator_stack_rus.Sentry.CampaignRemaining.{get_remaining_opt, decrease_by}
use adex_validator_stack_rus.Sentry.Events.{
  Cost, State, event, campaign_remaining_not_enough_for_payout, calculate_fee, spend_event,
  spend_events, event_payouts, event_balances, has_enough_remaining_budget, pay, spend_for_events,
}
use adex_validator_stack_rus.Sentry.Events.Spending.{IsPaid, pay_refuses, spend_for_events_sound}
use adex_validator_stack_rus.Tests.Numbers.{numbers}
use adex_validator_stack_rus.Tests.Data.{two, two_IsChecked}
use adex_validator_stack_rus.Tests.Memory.{memory, memory_laws, put}
use adex_validator_stack_rus.Tests.Campaign.{campaign, leader_desc, follower_desc}
use adex_validator_stack_rus.Tests.Budget.{store}

abbrev pub db : Database
db = record { connected = true; reaches = λ side address. true }

-- Spender 7 spends 4 more, which 9 earns.
abbrev pub delta : Balances
delta = record { earners = (9, 4) ∷ []; spenders = (7, 4) ∷ [] }

delta_IsChecked : IsChecked delta
delta_IsChecked = record {
  ordered = record { earners_sorted = (tt, tt); spenders_sorted = (tt, tt) };
  balanced = refl;
}

spend_amount-IsChecked_example :
    IsChecked (spend_amount db delta two).1
    × (sum_values (spend_amount db delta two).1.spenders
        ≡ sum_values two.spenders + sum_values delta.spenders)
unfolding spend_amount upsert_all upsert get insert
spend_amount-IsChecked_example =
    spend_amount-IsChecked db delta two {results = (6 ∷ [], 9 ∷ [])} delta_IsChecked two_IsChecked
      refl

-- A database that does not reach the earners' rows.
abbrev half : Database
half = record {
  connected = true;
  reaches = λ side address. elim side [ earner ↦ false | spender ↦ true ];
}

spend_amount_entries_example :
    (get_or_zero 9 (spend_amount half delta two).1.earners
      ≡ get_or_zero 9 two.earners
        + added false (get_or_zero 9 two.earners) (get_or_zero 9 delta.earners))
    × (get_or_zero 9 (spend_amount half delta two).1.spenders
        ≡ get_or_zero 9 two.spenders
          + added true (get_or_zero 9 two.spenders) (get_or_zero 9 delta.spenders))
spend_amount_entries_example = spend_amount_entries half delta two 9 delta_IsChecked.ordered refl

abbrev pub state : State memory
state = record { store = store; rows = two }

pay_refuses_example :
    pay memory db 5 50 delta state ≡ (err (event campaign_remaining_not_enough_for_payout), state)
pay_refuses_example =
    pay_refuses memory memory_laws db 5 50 delta state (some (pos 50)) refl (omega arith)

-- An event is what it pays to publisher 8: 10, or nothing.
abbrev payout : ℕ → Result (Unit {0}) (Option (Address × ℕ))
payout zero = ok none
payout (suc n) = ok (some (8, 10))

abbrev results_of : List (ℕ × Address × ℕ)
results_of = (1, 8, 10) ∷ []

abbrev cost : Cost
cost = record { earner = 8; amount = 10; leader_fee = 2; follower_fee = 3 }

abbrev paid : State memory
paid = record {
  store = put 5 (some (pos 35)) store;
  rows = record { earners = (1, 2) ∷ (2, 3) ∷ (8, 13) ∷ (9, 2) ∷ []; spenders = (7, 20) ∷ [] };
}

pays :
    spend_for_events memory numbers payout db campaign (1 ∷ 0 ∷ []) leader_desc follower_desc state
    ≡ (ok ((1, 8, 10) ∷ []), paid)
unfolding spend_for_events event_payouts event_balances calculate_fee checked_mul spend_events
    spend_event pay has_enough_remaining_budget get_remaining_opt decrease_by spend_amount
    upsert_all upsert get insert sum sum_from new spend credit
pays = refl

spend_for_events_sound_example :
    (costs : List (ℕ × Cost)) × IsPaid memory memory_laws db numbers payout campaign
      (1 ∷ 0 ∷ [])
      leader_desc
      follower_desc
      state
      paid
      costs
    × (results_of ≡ map (λ c. (c.0, c.1.earner, c.1.amount)) costs)
spend_for_events_sound_example =
    spend_for_events_sound memory memory_laws db numbers payout campaign (1 ∷ 0 ∷ []) leader_desc
      follower_desc state paid results_of two_IsChecked pays
