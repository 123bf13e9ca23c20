-- ===== src/Worker/Follower/Defs.antt =====
-- The handlers.
use adex_validator_stack_rus.Prelude.{
  ℕ, not, ◌&&◌, Option, none, some, List, [], ltb, leb, if◌then◌else◌, Result, ok, err, aborts,
  ok_or, map_err, ok_or_outcome, bind_option,
}
use Prim.Native.String.{String}
use text.Mathlib.Text.{◌==◌ as str_eq}
use adex_validator_stack_rus.UnifiedNum.{UnifiedNum}
use adex_validator_stack_rus.Balances.{Error as BalancesError}
use adex_validator_stack_rus.Balances.{Balances, check}
use adex_validator_stack_rus.StateRoot.{encode, channel_id}
use adex_validator_stack_rus.Worker.FollowerRules.{is_valid_transition, get_health}
use adex_validator_stack_rus.Worker.Messages.{
  PropagationResult, NewState, approve_state, reject_state,
}
use adex_validator_stack_rus.Worker.Tick.{Action, lift, pure, send, ◌>>=◌}
use adex_validator_stack_rus.Worker.Sentry.{SentryApi, LastApproved}

pub data Error : Type 0 where
  overflow token_not_whitelisted state_root_hash adapter sentry_api heartbeat : Error

pub data Health : Type 0 where
  earners spenders : ℕ → Health

pub data InvalidNewState : Type 0 where
  root_hash signature transition : InvalidNewState
  health : Health → InvalidNewState

-- `Display for InvalidNewState`
unfoldable pub to_string : InvalidNewState → String
to_string root_hash = "InvalidRootHash"
to_string signature = "InvalidSignature"
to_string transition = "InvalidTransition"
to_string (health (earners _)) = "TooLowHealthEarners"
to_string (health (spenders _)) = "TooLowHealthSpenders"

pub data ApproveStateResult : Type 0 where
  sent : Option (List PropagationResult) → ApproveStateResult
  rejected_state : InvalidNewState → String → List PropagationResult → ApproveStateResult

-- `struct Spender` of primitives/src/spender.rs
pub record Spender : Type 0 where
  pub total_deposited : UnifiedNum
  pub total_spent : Option UnifiedNum

unfoldable pub on_error : SentryApi → NewState → InvalidNewState → Action Error ApproveStateResult
unfolding to_string
on_error api msg status = do
  let message = reject_state (record {
    reason = to_string status;
    state_root = msg.state_root;
    signature = msg.signature;
    balances = some msg.balances;
    timestamp = api.now;
  })
  propagation ← send message (ok_or sentry_api (api.propagate message))
  pure (rejected_state status msg.state_root propagation)

-- The balances of the last approved state, checked; none where there is no such state.
unfoldable pub previous_balances : Option LastApproved → Result BalancesError Balances
previous_balances last = elim (bind_option last λ l. l.new_state) [
  | none ↦ ok (record { earners = []; spenders = [] })
  | some msg ↦ check msg.balances
]

-- The signature of the state and the message that approves it.
unfoldable pub approve : SentryApi → NewState → ℕ → ℕ → Action Error ApproveStateResult
approve api msg health_earners health_spenders = do
  signed ← lift (ok_or adapter (api.sign msg.state_root))
  let threshold = api.health_threshold_promilles
  let message = approve_state (record {
    state_root = msg.state_root;
    signature = signed;
    is_healthy = leb threshold health_earners && leb threshold health_spenders;
  })
  propagation ← send message (ok_or sentry_api (api.propagate message))
  pure (sent (some propagation))

-- From the health of the two maps to the answer.
unfoldable pub check_health :
    SentryApi → Balances → NewState → Balances → UnifiedNum → Action Error ApproveStateResult
check_health api accounting msg proposed all_spenders_sum = do
  health_earners ← lift (
      ok_or_outcome overflow
        (get_health api.build all_spenders_sum accounting.earners proposed.earners))
  if ltb health_earners api.health_unsignable_promilles
      then on_error api msg (health (earners health_earners))
      else do
        health_spenders ← lift (
            ok_or_outcome overflow
              (get_health api.build all_spenders_sum accounting.spenders proposed.spenders))
        if ltb health_spenders api.health_unsignable_promilles
            then on_error api msg (health (spenders health_spenders))
            else approve api msg health_earners health_spenders

-- The transitions of the two maps, spenders first.
unfoldable pub check_transitions :
    SentryApi
    → Balances
    → NewState
    → Balances
    → Balances
    → UnifiedNum
    → Action Error ApproveStateResult
check_transitions api accounting msg prev proposed all_spenders_sum = do
  spenders_valid ←
      lift (ok_or overflow (is_valid_transition all_spenders_sum prev.spenders proposed.spenders))
  if not spenders_valid then on_error api msg transition else do
    earners_valid ←
        lift (ok_or overflow (is_valid_transition all_spenders_sum prev.earners proposed.earners))
    if not earners_valid
        then on_error api msg transition
        else check_health api accounting msg proposed all_spenders_sum

-- The root, the leader's signature and the last approved state.
unfoldable pub check_proposal :
    SentryApi → Balances → NewState → Balances → UnifiedNum → Action Error ApproveStateResult
check_proposal api accounting msg proposed all_spenders_sum = do
  root ← lift (
      map_err (λ _. state_root_hash)
        (encode api.hashing proposed (channel_id api.hashing api.channel) api.token_precision))
  if not (str_eq msg.state_root root) then on_error api msg root_hash else do
    verified ← lift (ok_or adapter (api.verify api.channel.leader msg.state_root msg.signature))
    if not verified then on_error api msg signature else do
      last ← lift (ok_or sentry_api api.last_approved)
      elim (previous_balances last) [
        | ok prev ↦ check_transitions api accounting msg prev proposed all_spenders_sum
        | err _ ↦ on_error api msg transition
        | aborts ↦ lift aborts
      ]

unfoldable pub on_new_state :
    SentryApi → Balances → NewState → UnifiedNum → Action Error ApproveStateResult
on_new_state api accounting msg all_spenders_sum = elim (check msg.balances) [
  | ok proposed ↦ check_proposal api accounting msg proposed all_spenders_sum
  | err (BalancesError.payout_mismatch _ _) ↦ on_error api msg transition
  | err (BalancesError.overflow _) ↦ lift (err overflow)
  | aborts ↦ lift aborts
]
