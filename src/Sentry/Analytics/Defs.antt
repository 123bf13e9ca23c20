-- ===== src/Sentry/Analytics/Defs.antt =====
-- `record`, and the statement that updates a row. Amounts and counts of a row are numbers of the
-- database. A request has fewer than 2^31 events, so that no count of one overflows.
use adex_validator_stack_rus.Prelude.{
  ℕ, ◌+◌, Bool, true, false, ◌&&◌, Option, none, some, List, [], ◌∷◌, map, leb, ◌==◌, if◌then◌else◌,
  any, Build, Outcome, returns, panics, bind_option, or_default,
}
use adex_validator_stack_rus.Prelude.U64
use Prim.Native.String.{String}
use text.Mathlib.Text.{◌==◌ as ◌=ˢ◌}
use adex_validator_stack_rus.UnifiedNum.{UnifiedNum}
use adex_validator_stack_rus.BalancesMap.{Address}
use adex_validator_stack_rus.Campaign.{Campaign, EventType}
use adex_validator_stack_rus.Targeting.Input.{Ipfs}
use adex_validator_stack_rus.Targeting.Texts.{split}
use adex_validator_stack_rus.Targeting.Rules.{event_type_eq}
use adex_validator_stack_rus.Sentry.Accounting.{bigint_max}
use adex_validator_stack_rus.Sentry.Payout.{
  Event, event_type, fields_of, Session, AdUnit, find_unit,
}

-- `OperatingSystem`
pub data OperatingSystem : Type 0 where
  linux other : OperatingSystem
  whitelisted : String → OperatingSystem

abbrev pub linux_distros : List String
linux_distros =
    "Arch" ∷ "CentOS" ∷ "Slackware" ∷ "Fedora" ∷ "Debian" ∷ "Deepin" ∷ "elementary OS" ∷ "Gentoo"
    ∷ "Mandriva" ∷ "Manjaro" ∷ "Mint" ∷ "PCLinuxOS" ∷ "Raspbian" ∷ "Sabayon" ∷ "SUSE" ∷ "Ubuntu"
    ∷ "RedHat" ∷ []

abbrev pub whitelisted_names : List String
whitelisted_names =
    "Android" ∷ "Android-x86" ∷ "iOS" ∷ "BlackBerry" ∷ "Chromium OS" ∷ "Fuchsia" ∷ "Mac OS"
    ∷ "Windows" ∷ "Windows Phone" ∷ "Windows Mobile" ∷ "Linux" ∷ "NetBSD" ∷ "Nintendo" ∷ "OpenBSD"
    ∷ "PlayStation" ∷ "Tizen" ∷ "Symbian" ∷ "KAIOS" ∷ []

-- `OperatingSystem::map_os`
unfoldable pub map_os : String → OperatingSystem
map_os name =
    if any (λ d. name =ˢ d) linux_distros
    then linux
    else if any (λ w. name =ˢ w) whitelisted_names
    then whitelisted name
    else other

-- `Display`
unfoldable pub os_text : OperatingSystem → String
os_text linux = "Linux"
os_text other = "Other"
os_text (whitelisted name) = name

-- The columns of the primary key.
pub record AnalyticsKey : Type 0 where
  pub campaign_id : ℕ
  pub time : ℕ
  pub ad_unit : Ipfs
  pub ad_slot : Ipfs
  pub ad_slot_type : String
  pub advertiser : Address
  pub publisher : Address
  pub hostname : String
  pub country : String
  pub os_name : String
  pub chain_id : ℕ
  pub event_type : EventType

-- `UpdateAnalytics`, with the defaults that the statement puts for a missing text; and a row.
pub record AnalyticsRow : Type 0 where
  pub key : AnalyticsKey
  pub amount : ℕ
  pub count : ℕ

unfoldable pub same_key : AnalyticsKey → AnalyticsKey → Bool
unfolding event_type_eq
same_key a b =
    (a.campaign_id == b.campaign_id)
    && (a.time == b.time)
    && (a.ad_unit == b.ad_unit)
    && (a.ad_slot == b.ad_slot)
    && (a.ad_slot_type =ˢ b.ad_slot_type)
    && (a.advertiser == b.advertiser)
    && (a.publisher == b.publisher)
    && (a.hostname =ˢ b.hostname)
    && (a.country =ˢ b.country)
    && (a.os_name =ˢ b.os_name)
    && (a.chain_id == b.chain_id)
    && event_type_eq a.event_type b.event_type

-- The largest `integer`.
abbrev pub integer_max : ℕ
integer_max = 2147483647

-- The statement of `update_analytics`: a row is inserted, or both sums of the one with the key grow.
-- A sum that its column cannot hold fails.
unfoldable pub upsert_analytics : AnalyticsRow → List AnalyticsRow → Option (List AnalyticsRow)
unfolding same_key
upsert_analytics u [] =
    if leb u.amount bigint_max && leb u.count integer_max then some (u ∷ []) else none
upsert_analytics u (r ∷ rs) =
    let rest = upsert_analytics u rs in
    if same_key r.key u.key
    then (if leb (r.amount + u.amount) bigint_max && leb (r.count + u.count) integer_max
        then some
            (record { key = r.key; amount = r.amount + u.amount; count = r.count + u.count } ∷ rs)
        else none)
    else bind_option rest λ rs'. some (r ∷ rs')

-- `update_analytics`, where the query reaches the database or not.
unfoldable pub update_analytics : Bool → AnalyticsRow → List AnalyticsRow → Bool × List AnalyticsRow
unfolding upsert_analytics
update_analytics reached u rows =
    if reached
    then elim (upsert_analytics u rows) [ none ↦ (false, rows) | some rows' ↦ (true, rows') ]
    else (false, rows)

-- `join_all`: every update is run, also where one fails. They run in the order in which the events
-- came first.
unfoldable pub update_all :
    (AnalyticsKey → Bool) → List AnalyticsRow → List AnalyticsRow → Bool × List AnalyticsRow
unfolding update_analytics
update_all reaches [] rows = (true, rows)
update_all reaches (u ∷ us) rows =
    let (done, rows') = update_analytics (reaches u.key) u rows in
    let (rest, rows'') = update_all reaches us rows' in (done && rest, rows'')

-- `PartialEq for Event`
abbrev pub same_text : Option String → Option String → Bool
same_text none none = true
same_text (some s) (some t) = s =ˢ t
same_text _ _ = false

unfoldable pub same_event : Event → Event → Bool
unfolding event_type event_type_eq
same_event a b =
    let f = fields_of a in
    let g = fields_of b in
    event_type_eq (event_type a) (event_type b)
    && (f.publisher == g.publisher)
    && (f.ad_unit == g.ad_unit)
    && (f.ad_slot == g.ad_slot)
    && same_text f.referrer g.referrer

-- `hostname`: the third piece of the event's referrer or, without one, of the session's.
abbrev pub third : List String → Option String
third (a ∷ b ∷ c ∷ rest) = some c
third _ = none

unfoldable pub hostname_of : Option String → Option String → Option String
unfolding split
hostname_of (some r) header = third (split r "/")
hostname_of none (some r) = third (split r "/")
hostname_of none none = none

-- What an event of a campaign is recorded under.
unfoldable pub key_of :
    (String → AdUnit) → Campaign → (chain_id : ℕ) → (datehour : ℕ) → Session → Event → AnalyticsKey
unfolding map_os os_text hostname_of find_unit event_type
key_of decode c chain_id datehour session e =
    let f = fields_of e in
    record {
      campaign_id = c.id;
      time = datehour;
      ad_unit = f.ad_unit;
      ad_slot = f.ad_slot;
      ad_slot_type = elim (find_unit f.ad_unit (map decode c.ad_units)) [
        | none ↦ ""
        | some u ↦ u.ad_type
      ];
      advertiser = c.creator;
      publisher = f.publisher;
      hostname = or_default "" (hostname_of f.referrer session.referrer_header);
      country = or_default "" session.country;
      os_name = os_text (elim session.os [ none ↦ other | some os ↦ map_os os ]);
      chain_id = chain_id;
      event_type = event_type e;
    }

-- `batch_update.entry(..)`: a sum in the batch is a plain one of `u64`; the count is an `i32`, which
-- less than 2 ^ 31 events of a request do not pass.
unfoldable pub add_to_batch :
    Build
    → (Event → AnalyticsKey)
    → Event
    → UnifiedNum
    → List (Event × AnalyticsRow)
    → Outcome (List (Event × AnalyticsRow))
unfolding same_event
add_to_batch build key e amount [] =
    returns ((e, record { key = key e; amount = amount; count = 1 }) ∷ [])
add_to_batch build key e amount ((d, u) ∷ batch) =
    let rest = add_to_batch build key e amount batch in
    if same_event d e
    then elim (U64.add build u.amount amount) [
      | panics ↦ panics
      | returns sum ↦
          returns ((d, record { key = u.key; amount = sum; count = u.count + 1 }) ∷ batch)
    ]
    else elim rest [ panics ↦ panics | returns batch' ↦ returns ((d, u) ∷ batch') ]

-- The loop over the events.
unfoldable pub batch_of :
    Build
    → (Event → AnalyticsKey)
    → List (Event × Address × UnifiedNum)
    → List (Event × AnalyticsRow)
    → Outcome (List (Event × AnalyticsRow))
unfolding add_to_batch
batch_of build key [] batch = returns batch
batch_of build key ((e, earner, amount) ∷ events) batch =
    elim (add_to_batch build key e amount batch) [
      | panics ↦ panics
      | returns batch' ↦ batch_of build key events batch'
    ]

-- `record`: whether every update got through, and the rows.
unfoldable pub record_events :
    Build
    → (Event → AnalyticsKey)
    → (reaches : AnalyticsKey → Bool) → List (Event × Address × UnifiedNum)
    → List AnalyticsRow
    → Outcome (Bool × List AnalyticsRow)
unfolding batch_of update_all
record_events build key reaches events rows = elim (batch_of build key events []) [
  | panics ↦ panics
  | returns batch ↦
      returns (update_all reaches (map (λ (b : Event × AnalyticsRow). b.1) batch) rows)
]

-- The loop of the route over at most five attempts, given what each of them reaches.
unfoldable pub record_with_retries :
    Build
    → (Event → AnalyticsKey)
    → List (AnalyticsKey → Bool)
    → List (Event × Address × UnifiedNum)
    → List AnalyticsRow
    → Outcome (List AnalyticsRow)
unfolding record_events
record_with_retries build key [] events rows = returns rows
record_with_retries build key (reaches ∷ attempts) events rows =
    elim (record_events build key reaches events rows) [
      | panics ↦ panics
      | returns (true, rows') ↦ returns rows'
      | returns (false, rows') ↦ record_with_retries build key attempts events rows'
    ]
