-- ===== src/Sentry/Channels/Listing.antt =====
-- The listing of channels: `channel_list` of sentry/src/routes/channel.rs, and `list_channels` and
-- the order of the rows in sentry/src/db/channel.rs. The rows are in the order of `created`.
use adex_validator_stack_rus.Prelude.{
  ℕ, Bool, true, ◌&&◌, ◌||◌, Option, none, some, List, [], ◌∷◌, ◌++◌, ◌==◌, if◌then◌else◌, any,
  Outcome, returns, panics, Result, ok, err, aborts,
}
use adex_validator_stack_rus.Prelude.U64
use adex_validator_stack_rus.Channel.{Channel, ValidatorId}
use adex_validator_stack_rus.Sentry.Routes.Tables.{same_channel, ResponseError, bad_request}
use adex_validator_stack_rus.Sentry.Channels.Pages.{Page, get_all_spendables_for_channel}

-- A row of the table, less its dates.
pub record ChannelRow : Type 0 where
  pub channel : Channel
  pub chain_id : ℕ

-- `insert_channel`: on a conflict the row gets a new `created`, so that it becomes the last one.
unfoldable pub insert_listed : ChannelRow → List ChannelRow → List ChannelRow
unfolding same_channel
insert_listed r [] = r ∷ []
insert_listed r (x ∷ rows) =
    let rest = insert_listed r rows in
    if same_channel x.channel r.channel then rows ++ x ∷ [] else x ∷ rest

-- `ChannelListQuery`
pub record ChannelListQuery : Type 0 where
  pub page : ℕ
  pub validator : Option ValidatorId
  pub chains : List ℕ

-- `chain_id IN (..)`, where chains are given.
abbrev pub of_chain : List ℕ → ℕ → Bool
of_chain [] c = true
of_chain (d ∷ ds) c = any (λ e. e == c) (d ∷ ds)

-- `(leader = .. OR follower = ..)`, where a validator is given.
abbrev pub of_validator : Option ValidatorId → Channel → Bool
of_validator none c = true
of_validator (some v) c = (c.leader == v) || (c.follower == v)

-- The channels of the rows that satisfy the clauses.
unfoldable pub channels_where : Option ValidatorId → List ℕ → List ChannelRow → List Channel
channels_where validator chains [] = []
channels_where validator chains (r ∷ rows) =
    let rest = channels_where validator chains rows in
    if of_chain chains r.chain_id && of_validator validator r.channel
    then r.channel ∷ rest
    else rest

-- `list_channels`: the limit, the offset and the pagination are those of the query of spendables.
unfoldable pub list_channels :
    List ChannelRow → (skip limit : ℕ) → Option ValidatorId → List ℕ → Outcome (Page Channel)
unfolding get_all_spendables_for_channel channels_where
list_channels rows skip limit validator chains =
    get_all_spendables_for_channel (channels_where validator chains rows) skip limit

-- `channel_list`, where the queries reach the database or not.
unfoldable pub channel_list :
    (reached : Bool)
    → (channels_find : ℕ) → List ChannelRow
    → ChannelListQuery
    → Result ResponseError (Page Channel)
unfolding list_channels
channel_list reached channels_find rows q = elim (U64.checked_mul q.page channels_find) [
  | none ↦ err bad_request
  | some skip ↦
      if reached
      then elim (list_channels rows skip channels_find q.validator q.chains) [
        | panics ↦ aborts
        | returns p ↦ ok p
      ]
      else err bad_request
]
