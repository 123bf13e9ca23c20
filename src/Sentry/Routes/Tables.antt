-- ===== src/Sentry/Routes/Tables.antt =====
-- The tables that the routes of a campaign read and write, and their queries: insert_channel,
-- update_spendable, get_campaign_ids_by_channel, list_campaigns_total_count, insert_campaign and
-- update_campaign of sentry/src/db.
use adex_validator_stack_rus.Prelude.{
  ℕ, Bool, not, ◌&&◌, Option, List, [], ◌∷◌, ◌++◌, ◌==◌, if◌then◌else◌, any, total, ok, err,
  map_err,
}
use adex_validator_stack_rus.Prelude.Actions.{Action}
use adex_validator_stack_rus.UnifiedNum.{UnifiedNum, BigNum}
use adex_validator_stack_rus.BalancesMap.{Address, UnifiedMap, insert}
use adex_validator_stack_rus.Balances.{Balances}
use adex_validator_stack_rus.Channel.{Channel, ValidatorId}
use adex_validator_stack_rus.Campaign.{Campaign, Config}
use adex_validator_stack_rus.Sentry.Redis.{Redis}
use adex_validator_stack_rus.Sentry.CampaignRemaining.{CampaignId, RedisError}
use adex_validator_stack_rus.Sentry.Accounting.{Database, PoolError, backend}

-- The accounting and the spendables are the rows of the channel of the campaign at hand. The
-- campaigns are those of every channel, in the order of their creation.
pub record Tables : Type 0 where
  pub channels : List Channel
  pub accounting : Balances
  pub spendables : UnifiedMap
  pub campaigns : List Campaign

pub record State (redis : Redis) : Type 0 where
  pub store : redis.Store
  pub tables : Tables

-- `ResponseError`; the texts are left out. An error of another type becomes a `BadRequest`.
pub data ResponseError : Type 0 where
  not_found bad_request failed_validation forbidden conflict : ResponseError

-- A query either gets through or fails.
pub record Api : Type 0 where
  pub accounting : Database
  pub reaches_channels : Bool
  pub reaches_spendables : Bool
  pub reaches_campaigns : Bool
  pub reaches_insert : Bool
  pub reaches_update : Bool
  -- the configuration, the adapter's identity and its `get_deposit`, and the clock
  pub config : Config
  pub campaigns_find : ℕ
  pub whoami : ValidatorId
  pub get_deposit : Channel → Address → Option BigNum
  pub now : ℕ

-- Channels with one id are one channel.
unfoldable pub same_channel : Channel → Channel → Bool
same_channel a b =
    (a.leader == b.leader)
    && (a.follower == b.follower)
    && (a.guardian == b.guardian)
    && (a.token == b.token)
    && (a.nonce == b.nonce)

-- The ids of the campaigns of a channel.
unfoldable pub campaign_ids : Channel → List Campaign → List CampaignId
campaign_ids channel [] = []
campaign_ids channel (c ∷ cs) =
    let rest = campaign_ids channel cs in
    if same_channel c.channel channel then c.id ∷ rest else rest

abbrev pub has_id : CampaignId → List Campaign → Bool
has_id id campaigns = any (λ c. c.id == id) campaigns

-- `insert_channel`
unfoldable pub insert_channel : Api → Channel → Action Tables PoolError (Unit {0})
insert_channel api channel t =
    if api.reaches_channels
    then (
      ok tt,
      if any (λ c. same_channel c channel) t.channels
          then t
          else record t { channels = channel ∷ t.channels },
    )
    else (err backend, t)

-- `update_spendable`
unfoldable pub update_spendable : Api → Address → UnifiedNum → Action Tables PoolError UnifiedNum
update_spendable api spender total t =
    if api.reaches_spendables
    then (ok total, record t { spendables = insert spender total t.spendables })
    else (err backend, t)

-- How an insertion ends: `UNIQUE_VIOLATION` where the id is taken.
pub data Inserted : Type 0 where
  inserted unique_violation failed : Inserted

-- `insert_campaign`
unfoldable pub insert_campaign : Api → Campaign → Tables → Inserted × Tables
insert_campaign api campaign t =
    if not api.reaches_insert
    then (failed, t)
    else if has_id campaign.id t.campaigns
    then (unique_violation, t)
    else (inserted, record t { campaigns = t.campaigns ++ campaign ∷ [] })

-- The rows whose id is that of the campaign; the channel, the creator and the times stay.
unfoldable pub replace : Campaign → List Campaign → List Campaign
replace campaign [] = []
replace campaign (c ∷ cs) =
    let rest = replace campaign cs in
    if c.id == campaign.id
    then record campaign {
      channel = c.channel;
      creator = c.creator;
      created = c.created;
      active = c.active;
    }
      ∷ rest
    else c ∷ rest

-- `update_campaign`: `query_one` fails where there is no such row.
unfoldable pub update_campaign : Api → Campaign → Action Tables PoolError (Unit {0})
unfolding replace
update_campaign api campaign t =
    if api.reaches_update && has_id campaign.id t.campaigns
    then (ok tt, record t { campaigns = replace campaign t.campaigns })
    else (err backend, t)

module _ (redis : Redis) where
  abbrev pub on_redis :
      {E A : Type 0} → E → Action redis.Store RedisError A → Action (State redis) E A
  on_redis e m s =
      let (r, store') = m s.store in
      (map_err (λ _. e) r, record { store = store'; tables = s.tables })

  abbrev pub on_tables : {E A : Type 0} → E → Action Tables PoolError A → Action (State redis) E A
  on_tables e m s =
      let (r, tables') = m s.tables in
      (map_err (λ _. e) r, record { store = s.store; tables = tables' })

abbrev pub on_accounting : {A : Type 0} → Action Balances PoolError A → Action Tables PoolError A
on_accounting m t = let (r, rows) = m t.accounting in (r, record t { accounting = rows })
