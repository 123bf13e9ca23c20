-- ===== src/Sentry/Channels/Spenders.antt =====
-- The handlers get_spender_limits, get_all_spender_limits and add_spender_leaf. What the queries
-- for the latest approved state reply, and the page of spendables, are arguments.
use adex_validator_stack_rus.Prelude.{
  ℕ, Option, none, some, List, [], ◌∷◌, if◌then◌else◌, total, Result, ok, err, aborts, ok_or,
  bind_option, or_default,
}
use adex_validator_stack_rus.Prelude.U64
use Prim.Native.String.{String}
use adex_validator_stack_rus.Prelude.Actions.{Action, lift, pure, ◌>>=◌, relabel}
use adex_validator_stack_rus.UnifiedNum.{UnifiedNum, checked_sub, from_precision}
use adex_validator_stack_rus.BalancesMap.{Address, Map, get, insert}
use adex_validator_stack_rus.Channel.{Channel}
use adex_validator_stack_rus.Worker.Messages.{ApproveState, NewState}
use adex_validator_stack_rus.Sentry.Accounting.{spender, update_accounting}
use adex_validator_stack_rus.Sentry.Accounting.{PoolError, backend}
use adex_validator_stack_rus.Sentry.Routes.Tables.{
  Api, Tables, ResponseError, bad_request, failed_validation, insert_channel, update_spendable,
  on_accounting,
}
use adex_validator_stack_rus.Sentry.Channels.Defs.{get_corresponding_states}

-- `Spender`
pub record SpenderLimits : Type 0 where
  pub total_deposited : UnifiedNum
  pub total_spent : Option UnifiedNum

-- `fetch_spendable`, where a missing row is no error.
unfoldable pub fetch_spendable_opt : Api → Address → Action Tables PoolError (Option UnifiedNum)
fetch_spendable_opt api uid t =
    if api.reaches_spendables then (ok (get uid t.spendables), t) else (err backend, t)

abbrev pub States : Type 0
States = Option (ApproveState × NewState)

abbrev pub Query : {A : Type 0} → Action Tables PoolError A → Action Tables ResponseError A
Query m = relabel (λ _. bad_request) m

-- `create_or_update_spendable_document`, for the deposited total.
unfoldable pub create_or_update_spendable :
    Api → Channel → ℕ → Address → Action Tables ResponseError UnifiedNum
unfolding insert_channel update_spendable from_precision
create_or_update_spendable api channel precision uid = do
  done ← Query (insert_channel api channel)
  deposit ← lift (ok_or bad_request (api.get_deposit channel uid))
  total ← lift (ok_or bad_request (from_precision deposit precision))
  updated ← Query (update_spendable api uid total)
  pure total

-- The spendable in the database, or a new one.
unfoldable pub latest_spendable :
    Api → Channel → ℕ → Address → Action Tables ResponseError UnifiedNum
unfolding fetch_spendable_opt create_or_update_spendable
latest_spendable api channel precision uid = do
  found ← Query (fetch_spendable_opt api uid)
  elim found [
    | some total ↦ pure total
    | none ↦ create_or_update_spendable api channel precision uid
  ]

-- What a spender has spent in the latest approved state.
abbrev pub spent_of : Address → States → Option UnifiedNum
spent_of uid none = none
spent_of uid (some (approved, proposal)) = get uid proposal.balances.spenders

-- `get_spender_limits`
unfoldable pub get_spender_limits :
    Api
    → Channel
    → ℕ
    → Option (Option ApproveState)
    → (String → Option (Option NewState))
    → Address
    → Action Tables ResponseError SpenderLimits
unfolding latest_spendable get_corresponding_states
get_spender_limits api channel precision approval latest_new_state uid = do
  total ← latest_spendable api channel precision uid
  states ← lift (get_corresponding_states approval latest_new_state)
  pure (record { total_deposited = total; total_spent = spent_of uid states })

-- One spender of the list: here `total_spent` is what the deposit exceeds the spent amount by, 0 if
-- it does not.
unfoldable pub spender_info : States → Address → UnifiedNum → SpenderLimits
spender_info states uid total = record {
  total_deposited = total;
  total_spent =
      bind_option (spent_of uid states) λ balance. some (or_default 0 (checked_sub total balance));
}

-- `for spendable in all_spendables`
unfoldable pub limits_of :
    States → List (Address × UnifiedNum) → Map SpenderLimits → Map SpenderLimits
unfolding spender_info
limits_of states [] m = m
limits_of states ((uid, total) ∷ page) m =
    limits_of states page (insert uid (spender_info states uid total) m)

-- `get_all_spender_limits`, with the query for a page of spendables; the pagination is left out.
unfoldable pub get_all_spender_limits :
    (limit : ℕ)
    → (page : ℕ) → (skip_limit : ℕ → ℕ → Option (List (Address × UnifiedNum)))
    → Option (Option ApproveState)
    → (String → Option (Option NewState))
    → Result ResponseError (Map SpenderLimits)
unfolding get_corresponding_states limits_of
get_all_spender_limits limit page find approval latest_new_state =
    elim (U64.checked_mul page limit) [
      | none ↦ err failed_validation
      | some skip ↦ elim (get_corresponding_states approval latest_new_state) [
        | err e ↦ err e
        | aborts ↦ aborts
        | ok states ↦ elim (find skip limit) [
          | none ↦ err bad_request
          | some spendables ↦ ok (limits_of states spendables [])
        ]
      ]
    ]

-- `add_spender_leaf`: a row of 0 in the accounting, and the limits of the spender.
unfoldable pub add_spender_leaf :
    Api
    → Channel
    → ℕ
    → Option (Option ApproveState)
    → (String → Option (Option NewState))
    → Address
    → Action Tables ResponseError SpenderLimits
unfolding get_spender_limits update_accounting
add_spender_leaf api channel precision approval latest_new_state uid = do
  row ← Query (on_accounting (update_accounting api.accounting uid spender 0))
  get_spender_limits api channel precision approval latest_new_state uid
