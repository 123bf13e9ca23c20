-- ===== src/Sentry/Analytics/Query.antt =====
-- `fetch_analytics` and the handler `get_analytics`. `date_trunc` of the database is an argument; the
-- rows are grouped by the truncated time and the segment, in ascending order of the time, and the
-- query fails where a sum is past the type it is cast to.
use adex_validator_stack_rus.Prelude.{
  ℕ, ◌+◌, min, Bool, true, false, not, ◌&&◌, Option, none, some, List, [], ◌∷◌, ltb, leb, ◌==◌,
  if◌then◌else◌, any, all, take, Result, ok, err,
}
use Prim.Native.String.{String}
use text.Mathlib.Text.{◌==◌ as ◌=ˢ◌}
use adex_validator_stack_rus.BalancesMap.{Address}
use adex_validator_stack_rus.Campaign.{EventType}
use adex_validator_stack_rus.Targeting.Rules.{event_type_eq}
use adex_validator_stack_rus.Sentry.Analytics.Defs.{AnalyticsKey, AnalyticsRow, integer_max}
use adex_validator_stack_rus.Sentry.Accounting.{bigint_max}

-- `AllowedKey`
pub data AllowedKey : Type 0 where
  campaign_id ad_unit ad_slot ad_slot_type advertiser publisher hostname country os_name :
      AllowedKey

abbrev pub all_keys : List AllowedKey
all_keys =
    campaign_id ∷ ad_unit ∷ ad_slot ∷ ad_slot_type ∷ advertiser ∷ publisher ∷ hostname ∷ country
    ∷ os_name ∷ []

abbrev pub index_of : AllowedKey → ℕ
index_of campaign_id = 0
index_of ad_unit = 1
index_of ad_slot = 2
index_of ad_slot_type = 3
index_of advertiser = 4
index_of publisher = 5
index_of hostname = 6
index_of country = 7
index_of os_name = 8

-- `HashSet::contains`
abbrev pub contains_allowed : List AllowedKey → AllowedKey → Bool
contains_allowed keys k = any (λ j. index_of j == index_of k) keys

pub data Timeframe : Type 0 where
  year month week day : Timeframe

-- The first argument of `date_trunc`.
pub data DateField : Type 0 where
  by_month by_day by_hour : DateField

abbrev pub time_group : Timeframe → DateField
time_group year = by_month
time_group month = by_day
time_group _ = by_hour

pub data Metric : Type 0 where
  paid_metric count_metric : Metric

-- `AuthenticateAs`
pub data AuthenticateAs : Type 0 where
  as_advertiser as_publisher : Address → AuthenticateAs

-- A value of a column.
pub data KeyValue : Type 0 where
  id_value : ℕ → KeyValue
  text_value : String → KeyValue

abbrev pub same_value : KeyValue → KeyValue → Bool
same_value (id_value a) (id_value b) = a == b
same_value (text_value a) (text_value b) = a =ˢ b
same_value _ _ = false

-- `AnalyticsQuery`; `values` holds the keys that have one.
pub record AnalyticsQuery : Type 0 where
  pub limit : ℕ
  pub event_type : EventType
  pub metric : Metric
  pub segment_by : Option AllowedKey
  pub timeframe : Timeframe
  pub start : ℕ
  pub end : Option ℕ
  pub values : AllowedKey → Option KeyValue
  pub chains : List ℕ

-- The column of a key.
unfoldable pub column : AllowedKey → AnalyticsKey → KeyValue
column campaign_id k = id_value k.campaign_id
column ad_unit k = id_value k.ad_unit
column ad_slot k = id_value k.ad_slot
column ad_slot_type k = text_value k.ad_slot_type
column advertiser k = id_value k.advertiser
column publisher k = id_value k.publisher
column hostname k = text_value k.hostname
column country k = text_value k.country
column os_name k = text_value k.os_name

-- The value that a key is compared with: who the request is made as overrides the query.
unfoldable pub key_value : AnalyticsQuery → Option AuthenticateAs → AllowedKey → Option KeyValue
key_value q (some (as_advertiser a)) advertiser = some (id_value a)
key_value q (some (as_publisher p)) publisher = some (id_value p)
key_value q auth key = q.values key

abbrev pub is_value : Option KeyValue → KeyValue → Bool
is_value none v = true
is_value (some w) v = same_value w v

abbrev pub is_chain : List ℕ → ℕ → Bool
is_chain [] c = true
is_chain (d ∷ ds) c = any (λ e. e == c) (d ∷ ds)

abbrev pub is_until : Option ℕ → ℕ → Bool
is_until none t = true
is_until (some e) t = leb t e

-- The `WHERE` clauses of `analytics_query_params` and of the chains; the columns are never null.
unfoldable pub in_query :
    AnalyticsQuery → Option AuthenticateAs → List AllowedKey → AnalyticsRow → Bool
unfolding column key_value event_type_eq
in_query q auth allowed r =
    all (λ k. is_value (key_value q auth k) (column k r.key)) allowed
    && leb q.start r.key.time
    && is_until q.end r.key.time
    && event_type_eq r.key.event_type q.event_type
    && is_chain q.chains r.key.chain_id

-- `FetchedAnalytics`
pub record FetchedAnalytics : Type 0 where
  pub time : ℕ
  pub value : ℕ
  pub segment : Option KeyValue

abbrev pub same_segment : Option KeyValue → Option KeyValue → Bool
same_segment none none = true
same_segment (some a) (some b) = same_value a b
same_segment _ _ = false

-- One more row of a group: groups stand in the order of their times.
unfoldable pub add_to_group :
    ℕ → Option KeyValue → ℕ → List FetchedAnalytics → List FetchedAnalytics
add_to_group time segment value [] = record { time = time; value = value; segment = segment } ∷ []
add_to_group time segment value (g ∷ gs) =
    let rest = add_to_group time segment value gs in
    if (g.time == time) && same_segment g.segment segment
    then record g { value = g.value + value } ∷ gs
    else if ltb time g.time
    then record { time = time; value = value; segment = segment } ∷ g ∷ gs
    else g ∷ rest

abbrev pub metric_of : Metric → AnalyticsRow → ℕ
metric_of paid_metric r = r.amount
metric_of count_metric r = r.count

abbrev pub segment_of : Option AllowedKey → AnalyticsKey → Option KeyValue
unfolding column
segment_of none k = none
segment_of (some s) k = some (column s k)

-- `GROUP BY` over the rows that satisfy the clauses.
unfoldable pub grouped :
    (date_trunc : DateField → ℕ → ℕ)
    → AnalyticsQuery
    → (AnalyticsRow → Bool)
    → List AnalyticsRow
    → List FetchedAnalytics
unfolding add_to_group segment_of
grouped date_trunc q p [] = []
grouped date_trunc q p (r ∷ rs) =
    let rest = grouped date_trunc q p rs in
    if p r
    then add_to_group (date_trunc (time_group q.timeframe) r.key.time)
        (segment_of q.segment_by r.key) (metric_of q.metric r) rest
    else rest

-- The largest value of the type that the sum is cast to.
abbrev pub cast_max : Metric → ℕ
cast_max paid_metric = bigint_max
cast_max count_metric = integer_max

-- `fetch_analytics`, where the query gets through otherwise.
unfoldable pub fetch_analytics :
    (date_trunc : DateField → ℕ → ℕ)
    → AnalyticsQuery
    → List AllowedKey
    → Option AuthenticateAs
    → (limit : ℕ) → List AnalyticsRow
    → Option (List FetchedAnalytics)
unfolding grouped in_query
fetch_analytics date_trunc q allowed auth limit rows =
    let groups = grouped date_trunc q (in_query q auth allowed) rows in
    if all (λ (g : FetchedAnalytics). leb g.value (cast_max q.metric)) groups
    then some (take limit groups)
    else none

pub data AnalyticsError : Type 0 where
  forbidden_segment forbidden_key timeout unreachable : AnalyticsError

-- What `tokio::time::timeout` of the query comes to.
pub data Fetching : Type 0 where
  fetched failed elapsed : Fetching

abbrev pub is_some {ℓ} : {A : Type ℓ} → Option A → Bool
is_some none = false
is_some (some _) = true

-- `query.chains`, overridden by the chain of the authentication.
abbrev pub with_chain : Option ℕ → AnalyticsQuery → AnalyticsQuery
with_chain none q = q
with_chain (some c) q = record q { chains = c ∷ [] }

-- What follows the checks.
abbrev pub reply_of :
    Fetching → Option (List FetchedAnalytics) → Result AnalyticsError (List FetchedAnalytics)
reply_of fetched (some a) = ok a
reply_of fetched none = err unreachable
reply_of failed a = err unreachable
reply_of elapsed a = err timeout

abbrev pub segment_allowed : List AllowedKey → Option AllowedKey → Bool
segment_allowed allowed none = true
segment_allowed allowed (some s) = contains_allowed allowed s

-- `get_analytics`; `chain` is that of the authentication, where there is one.
unfoldable pub get_analytics :
    (date_trunc : DateField → ℕ → ℕ)
    → (analytics_find : ℕ) → Fetching
    → (chain : Option ℕ) → (route_allowed_keys : List AllowedKey) → Option AuthenticateAs
    → AnalyticsQuery
    → List AnalyticsRow
    → Result AnalyticsError (List FetchedAnalytics)
unfolding fetch_analytics
get_analytics date_trunc analytics_find fetching chain allowed auth query rows =
    let q = with_chain chain query in
    if not (segment_allowed allowed q.segment_by)
    then err forbidden_segment
    else if any (λ k. is_some (q.values k) && not (contains_allowed allowed k)) all_keys
    then err forbidden_key
    else reply_of fetching
        (fetch_analytics date_trunc q allowed auth (min q.limit analytics_find) rows)
