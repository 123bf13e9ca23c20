-- ===== src/Sentry/Channels/Defs.antt =====
-- The handlers get_accounting_for_channel, channel_payout and get_leaf, and the lookup of the
-- latest approved state, get_corresponding_states.
use adex_validator_stack_rus.Prelude.{
  ℕ, Bool, true, false, Option, none, some, List, [], ◌∷◌, ltb, if◌then◌else◌, Result, ok, err,
  aborts, ok_or, map_err, bind_option, or_default,
}
use Prim.Native.String.{String}
use adex_validator_stack_rus.Prelude.Actions.{Action, lift, pure, ◌>>=◌}
use adex_validator_stack_rus.UnifiedNum.{UnifiedNum, checked_add, checked_sub, sum, to_precision}
use adex_validator_stack_rus.BalancesMap.{Address, UnifiedMap, get, insert, values, is_empty}
use adex_validator_stack_rus.Balances.{Balances, OverflowError, new, spend, check}
use adex_validator_stack_rus.Channel.{Channel}
use adex_validator_stack_rus.StateRoot.{
  Hashing, get_balance_leaf, merkle_root, get_signable_state_root, channel_id,
}
use adex_validator_stack_rus.Worker.Messages.{ApproveState, NewState}
use adex_validator_stack_rus.Sentry.Redis.{Redis}
use adex_validator_stack_rus.Sentry.CampaignRemaining.{get_multiple}
use adex_validator_stack_rus.Sentry.Accounting.{Side, earner, spender, get_accounting, spend_amount}
use adex_validator_stack_rus.Sentry.Routes.Tables.{
  Api, State, ResponseError, not_found, bad_request, failed_validation, on_redis, on_tables,
  on_accounting,
}
use adex_validator_stack_rus.Sentry.Routes.Pages.{fetch_campaign_ids_for_channel}

-- A row that `get_all_accountings_for_channel` reads.
pub record Accounting : Type 0 where
  pub side : Side
  pub address : Address
  pub amount : UnifiedNum

-- One row, inserted on its side.
abbrev pub insert_on : Side → Address → UnifiedNum → Balances → Balances
insert_on earner address amount b = record b { earners = insert address amount b.earners }
insert_on spender address amount b = record b { spenders = insert address amount b.spenders }

-- `for accounting in accountings`
unfoldable pub balances_of : List Accounting → Balances → Balances
balances_of [] b = b
balances_of (row ∷ rows) b = balances_of rows (insert_on row.side row.address row.amount b)

-- `get_accounting_for_channel`; `none` is a query that fails.
unfoldable pub get_accounting_for_channel : Option (List Accounting) → Result ResponseError Balances
unfolding balances_of
get_accounting_for_channel none = err bad_request
get_accounting_for_channel (some rows) = elim (check (balances_of rows new)) [
  | ok balances ↦ ok balances
  | err _ ↦ err failed_validation
  | aborts ↦ aborts
]

-- `get_corresponding_states`: the latest approval, and the proposal with its state root.
unfoldable pub get_corresponding_states :
    Option (Option ApproveState)
    → (String → Option (Option NewState))
    → Result ResponseError (Option (ApproveState × NewState))
get_corresponding_states none latest_new_state = err bad_request
get_corresponding_states (some none) latest_new_state = ok none
get_corresponding_states (some (some approval)) latest_new_state =
    elim (latest_new_state approval.state_root) [
      | none ↦ err bad_request
      | some none ↦ err bad_request
      | some (some proposal) ↦ ok (some (approval, proposal))
    ]

-- `for (earner, amount) in to_pay.payouts`
unfoldable pub spend_payouts : Address → UnifiedMap → Balances → Result OverflowError Balances
spend_payouts uid [] b = ok b
spend_payouts uid ((payee, amount) ∷ payouts) b =
    let (b', r) = spend uid payee amount b in
    elim r [ ok _ ↦ spend_payouts uid payouts b' | err e ↦ err e | aborts ↦ aborts ]

-- What the spender can still pay: deposited and earned, less what is spent.
unfoldable pub available_for_payout : UnifiedNum → UnifiedNum → UnifiedNum → Option UnifiedNum
available_for_payout total_deposited earned spent =
    bind_option (checked_add total_deposited earned) λ all. checked_sub all spent

module _ (redis : Redis) where
  -- The sum of the budgets left of all campaigns of the channel.
  unfoldable pub channel_remaining_sum :
      Api → Channel → Action (State redis) ResponseError UnifiedNum
  channel_remaining_sum api channel = do
    ids ← (λ s.
        let (r, t) = fetch_campaign_ids_for_channel api channel s.tables in
        (r, record { store = s.store; tables = t }))
    amounts ← on_redis redis bad_request (get_multiple redis ids)
    lift (ok_or bad_request (sum amounts))

  -- `fetch_spendable`
  unfoldable pub fetch_spendable : Api → Address → Action (State redis) ResponseError UnifiedNum
  fetch_spendable api uid s =
      if api.reaches_spendables
      then (ok_or bad_request (get uid s.tables.spendables), s)
      else (err bad_request, s)

  -- From the accounting to the update.
  unfoldable pub pay_from_accounting :
      Api → Address → UnifiedMap → Action (State redis) ResponseError (Unit {0})
  unfolding available_for_payout spend_payouts fetch_spendable
  pay_from_accounting api uid payouts = do
    spent ← on_tables redis bad_request (on_accounting (get_accounting api.accounting uid spender))
    earned ← on_tables redis bad_request (on_accounting (get_accounting api.accounting uid earner))
    total_deposited ← fetch_spendable api uid
    available ← lift (
        ok_or failed_validation
          (available_for_payout total_deposited (or_default 0 earned) (or_default 0 spent)))
    total_to_pay ← lift (ok_or failed_validation (sum (values payouts)))
    if ltb available total_to_pay then lift (err failed_validation) else do
      balances ← lift (map_err (λ _. bad_request) (spend_payouts uid payouts new))
      rows ← on_tables redis bad_request (on_accounting (spend_amount api.accounting balances))
      pure tt

  unfoldable pub channel_payout :
      Api → Channel → Address → UnifiedMap → Action (State redis) ResponseError (Unit {0})
  unfolding channel_remaining_sum pay_from_accounting
  channel_payout api channel uid payouts =
      if is_empty payouts then lift (err failed_validation) else do
        remaining ← channel_remaining_sum api channel
        if ltb 0 remaining
            then lift (err failed_validation)
            else pay_from_accounting api uid payouts

-- The root of the tree of one leaf, for the side that is asked for.
unfoldable pub leaf_root :
    Hashing → Channel → ℕ → Bool → Address → Option UnifiedNum → Result ResponseError String
leaf_root h channel precision is_spender address none = err not_found
leaf_root h channel precision is_spender address (some amount) =
    elim (get_balance_leaf h is_spender address (to_precision amount precision)) [
      | err _ ↦ err bad_request
      | aborts ↦ aborts
      | ok element ↦ elim (merkle_root h (element ∷ [])) [
        | err _ ↦ err bad_request
        | aborts ↦ aborts
        | ok root ↦ ok (h.hex_encode (get_signable_state_root h (channel_id h channel) root))
      ]
    ]

-- `get_leaf`: the leaf of the address in the proposal approved last.
unfoldable pub get_leaf :
    Hashing
    → Channel
    → ℕ
    → Option (Option ApproveState)
    → (String → Option (Option NewState))
    → Side
    → Address
    → Result ResponseError String
unfolding get_corresponding_states leaf_root
get_leaf h channel precision approval latest_new_state side address =
    elim (get_corresponding_states approval latest_new_state) [
      | err e ↦ err e
      | aborts ↦ aborts
      | ok none ↦ err not_found
      | ok (some (approved, proposal)) ↦ elim side [
        | spender ↦
            leaf_root h channel precision true address (get address proposal.balances.spenders)
        | earner ↦
            leaf_root h channel precision false address (get address proposal.balances.earners)
      ]
    ]
