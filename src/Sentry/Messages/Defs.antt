-- ===== src/Sentry/Messages/Defs.antt =====
-- The table of the messages, the newest first: a message is received at the time it is inserted,
-- and that time is left out. Messages of the same hundredth of a second, which `received` does not
-- tell apart, are taken in the order of their insertion. `none` is a query that fails.
use adex_validator_stack_rus.Prelude.{
  ℕ, min, Bool, true, false, ◌&&◌, Option, none, some, List, [], ◌∷◌, ◌++◌, leb, ◌==◌,
  if◌then◌else◌, any, take, Result, ok, err, aborts, or_default,
}
use Prim.Native.String.{String}
use text.Mathlib.Text.{◌==◌ as ◌=ˢ◌}
use adex_validator_stack_rus.Channel.{Channel, ValidatorId, find_validator}
use adex_validator_stack_rus.Worker.Messages.{
  MessageTypes, approve_state, new_state, reject_state, heartbeat, ApproveState, NewState,
  Heartbeat,
}
use adex_validator_stack_rus.Sentry.Routes.Tables.{same_channel}
use adex_validator_stack_rus.Sentry.Channels.{get_corresponding_states}

-- `MessageType`
pub data MessageType : Type 0 where
  approve_type new_type reject_type heartbeat_type : MessageType

-- `From<&MessageTypes> for MessageType`
unfoldable pub type_of : MessageTypes → MessageType
type_of (approve_state m) = approve_type
type_of (new_state m) = new_type
type_of (reject_state m) = reject_type
type_of (heartbeat m) = heartbeat_type

abbrev pub same_type : MessageType → MessageType → Bool
same_type approve_type approve_type = true
same_type new_type new_type = true
same_type reject_type reject_type = true
same_type heartbeat_type heartbeat_type = true
same_type _ _ = false

-- A row of the table; `ValidatorMessage` is the row less its channel.
pub record MessageRow : Type 0 where
  pub channel : Channel
  pub sender : ValidatorId
  pub msg : MessageTypes

-- What a message can be refused with.
pub data MessageRouteError : Type 0 where
  unauthorized database : MessageRouteError

-- `insert_validator_message`
unfoldable pub insert_validator_message :
    (reaches : MessageTypes → Bool)
    → Channel
    → ValidatorId
    → MessageTypes
    → List MessageRow
    → Option (List MessageRow)
insert_validator_message reaches channel sender msg rows =
    if reaches msg
    then some (record { channel = channel; sender = sender; msg = msg } ∷ rows)
    else none

-- `try_join_all` of the insertions, which land in the order of the request: where one fails, those
-- of the others that reach the database are in the table all the same.
unfoldable pub insert_all :
    (reaches : MessageTypes → Bool)
    → Channel
    → ValidatorId
    → List MessageTypes
    → List MessageRow
    → Bool × List MessageRow
unfolding insert_validator_message
insert_all reaches channel sender [] rows = (true, rows)
insert_all reaches channel sender (msg ∷ msgs) rows =
    elim (insert_validator_message reaches channel sender msg rows) [
      | none ↦ (false, (insert_all reaches channel sender msgs rows).1)
      | some rows' ↦ insert_all reaches channel sender msgs rows'
    ]

-- `create_validator_messages`: only a validator of the channel can post to it.
unfoldable pub create_validator_messages :
    (reaches : MessageTypes → Bool)
    → Channel
    → (uid : ValidatorId) → List MessageTypes
    → List MessageRow
    → Result MessageRouteError Bool × List MessageRow
unfolding insert_all
create_validator_messages reaches channel uid msgs rows = elim (find_validator channel uid) [
  | none ↦ (err unauthorized, rows)
  | some role ↦
      let (inserted, rows') = insert_all reaches channel uid msgs rows in
      (if inserted then ok true else err database, rows')
]

-- `msg->>'type' IN (..)`, where types are given.
abbrev pub in_types : List MessageType → MessageType → Bool
in_types [] t = true
in_types (u ∷ us) t = any (λ v. same_type v t) (u ∷ us)

abbrev pub is_from : Option ValidatorId → ValidatorId → Bool
is_from none v = true
is_from (some u) v = u == v

-- The rows that satisfy the `WHERE` clauses.
unfoldable pub rows_where : (MessageRow → Bool) → List MessageRow → List MessageRow
rows_where p [] = []
rows_where p (r ∷ rs) = let rest = rows_where p rs in if p r then r ∷ rest else rest

-- The clauses of `get_validator_messages`, those of `add_message_types_params` among them.
unfoldable pub matches : Channel → Option ValidatorId → List MessageType → MessageRow → Bool
unfolding type_of
matches channel sender types r =
    same_channel r.channel channel && is_from sender r.sender && in_types types (type_of r.msg)

-- `get_validator_messages`
unfoldable pub get_validator_messages :
    Channel → Option ValidatorId → List MessageType → ℕ → List MessageRow → List MessageRow
unfolding rows_where matches
get_validator_messages channel sender types limit rows =
    take limit (rows_where (matches channel sender types) rows)

-- The limit of `list_validator_messages`: that of the query, if it is one, up to the configured one.
unfoldable pub list_limit : Option ℕ → ℕ → ℕ
list_limit none config_limit = config_limit
list_limit (some n) config_limit = if leb 1 n then min n config_limit else config_limit

-- `list_validator_messages`
unfoldable pub list_validator_messages :
    (config_limit : ℕ)
    → Channel
    → Option ValidatorId
    → List MessageType
    → (limit : Option ℕ) → List MessageRow
    → List MessageRow
unfolding get_validator_messages list_limit
list_validator_messages config_limit channel sender types limit rows =
    get_validator_messages channel sender types (list_limit limit config_limit) rows

-- `latest_approve_state`
unfoldable pub latest_approve_state : Channel → List MessageRow → Option ApproveState
latest_approve_state channel [] = none
latest_approve_state channel (r ∷ rs) =
    let rest = latest_approve_state channel rs in
    if same_channel r.channel channel && (r.sender == channel.follower)
    then elim r.msg [ approve_state m ↦ some m | _ ↦ rest ]
    else rest

-- `latest_new_state`
unfoldable pub latest_new_state : Channel → String → List MessageRow → Option NewState
latest_new_state channel root [] = none
latest_new_state channel root (r ∷ rs) =
    let rest = latest_new_state channel root rs in
    if same_channel r.channel channel && (r.sender == channel.leader)
    then elim r.msg [ new_state m ↦ if m.state_root =ˢ root then some m else rest | _ ↦ rest ]
    else rest

-- The heartbeats of a validator in a channel.
unfoldable pub heartbeats_of : Channel → ValidatorId → List MessageRow → List Heartbeat
heartbeats_of channel v [] = []
heartbeats_of channel v (r ∷ rs) =
    let rest = heartbeats_of channel v rs in
    if same_channel r.channel channel && (r.sender == v)
    then elim r.msg [ heartbeat m ↦ m ∷ rest | _ ↦ rest ]
    else rest

-- `latest_heartbeats`
unfoldable pub latest_heartbeats : Channel → ValidatorId → List MessageRow → List Heartbeat
unfolding heartbeats_of
latest_heartbeats channel v rows = take 2 (heartbeats_of channel v rows)

-- `LastApprovedResponse`
pub record LastApprovedResponse : Type 0 where
  pub last_approved : Option (ApproveState × NewState)
  pub heartbeats : Option (List Heartbeat)

-- `last_approved`, where every query gets through: no more than the lookup of the two states fails.
unfoldable pub last_approved :
    Channel → (with_heartbeat : Option Bool) → List MessageRow → Option LastApprovedResponse
unfolding latest_approve_state latest_new_state latest_heartbeats get_corresponding_states
last_approved channel with_heartbeat rows =
    elim (get_corresponding_states (some (latest_approve_state channel rows))
      (λ root. some (latest_new_state channel root rows))) [
        | err e ↦ none
        | aborts ↦ none
        | ok none ↦ some (record { last_approved = none; heartbeats = none })
        | ok (some states) ↦ some (record {
          last_approved = some states;
          heartbeats =
              if or_default false with_heartbeat
              then some (
                  latest_heartbeats channel channel.leader rows
                  ++ latest_heartbeats channel channel.follower rows)
              else none;
        })
      ]
