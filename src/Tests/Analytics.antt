-- ===== src/Tests/Analytics.antt =====
-- The theorems on the analytics at concrete data.
use adex_validator_stack_rus.Prelude.{
  ℕ, ◌+◌, ◌≤◌, ◌≡◌, refl, true, none, some, List, [], ◌∷◌, arith, length, release, returns,
}
use adex_validator_stack_rus.Campaign.{impression}
use adex_validator_stack_rus.Targeting.Rules.{event_type_eq}
use adex_validator_stack_rus.Sentry.Payout.{
  Event, EventFields, impression_event, click_event, event_type,
}
use adex_validator_stack_rus.Sentry.Analytics.{
  AnalyticsKey, AnalyticsRow, record_events, record_with_retries, batch_of, add_to_batch,
  update_all, update_analytics, upsert_analytics, same_key, same_event,
}
use adex_validator_stack_rus.Sentry.Analytics.Recorded.{
  Paid, amounts, counts, payouts, record_events_sums, record_with_retries_twice,
}
use adex_validator_stack_rus.Sentry.Analytics.Query.{
  AnalyticsQuery, as_publisher, day, paid_metric, fetched, get_analytics, all_keys, publisher,
}
use adex_validator_stack_rus.Sentry.Analytics.Own.{only, is_own, get_analytics-is_own}

abbrev visit : EventFields
visit = record { publisher = 8; ad_unit = 1; ad_slot = 2; referrer = none }

abbrev recorded_as : Event → AnalyticsKey
unfolding event_type
recorded_as e = record {
  campaign_id = 1;
  time = 0;
  ad_unit = 1;
  ad_slot = 2;
  ad_slot_type = "banner";
  advertiser = 7;
  publisher = 8;
  hostname = "";
  country = "";
  os_name = "Other";
  chain_id = 1;
  event_type = event_type e;
}

-- Two impressions and a click.
abbrev earned : Paid
earned =
    (impression_event visit, 8, 5) ∷ (click_event visit, 8, 7) ∷ (impression_event visit, 8, 5) ∷ []

abbrev row_of : Event → ℕ → ℕ → AnalyticsRow
row_of e amount count = record { key = recorded_as e; amount = amount; count = count }

abbrev both : List AnalyticsRow
both = row_of (impression_event visit) 10 2 ∷ row_of (click_event visit) 7 1 ∷ []

record_events_sums_example :
    (amounts both ≡ amounts [] + payouts earned) × (counts both ≡ counts [] + length earned)
unfolding record_events batch_of add_to_batch update_all update_analytics upsert_analytics same_key
    same_event event_type event_type_eq
record_events_sums_example =
    record_events_sums release recorded_as (λ k. true) earned [] both (omega arith) refl

-- Only the impressions get through at first.
abbrev impressions : List AnalyticsRow
impressions = row_of (impression_event visit) 10 2 ∷ []

abbrev twice : List AnalyticsRow
twice = row_of (impression_event visit) 20 4 ∷ row_of (click_event visit) 7 1 ∷ []

record_with_retries_twice_example :
    (record_with_retries release recorded_as
        ((λ k. event_type_eq k.event_type impression) ∷ (λ k. true) ∷ [])
        earned
        []
      ≡ returns twice)
    × (amounts [] ≤ amounts impressions)
    × (amounts twice ≡ amounts impressions + payouts earned)
unfolding record_events batch_of add_to_batch update_all update_analytics upsert_analytics same_key
    same_event event_type event_type_eq
record_with_retries_twice_example =
    record_with_retries_twice release recorded_as (λ k. event_type_eq k.event_type impression)
      (λ k. true) [] earned [] impressions twice (omega arith) refl refl

-- A row of the publisher 9 among those of the publisher 8.
abbrev mixed : List AnalyticsRow
mixed =
    record {
      key = record (recorded_as (impression_event visit)) { publisher = 9 };
      amount = 4;
      count = 1;
    }
    ∷ both

-- By day and publisher.
abbrev asked : AnalyticsQuery
asked = record {
  limit = 10;
  event_type = impression;
  metric = paid_metric;
  segment_by = some publisher;
  timeframe = day;
  start = 0;
  end = none;
  values = λ k. none;
  chains = [];
}

get_analytics-is_own_example :
    get_analytics
      (λ frame time. time)
      500
      fetched
      (some 1)
      all_keys
      (some (as_publisher 9))
      asked
      mixed
    ≡ get_analytics
        (λ frame time. time)
        500
        fetched
        (some 1)
        all_keys
        (some (as_publisher 9))
        asked
        (only (is_own (as_publisher 9)) mixed)
get_analytics-is_own_example =
    get_analytics-is_own (λ frame time. time) 500 fetched (some 1) (as_publisher 9) asked mixed
