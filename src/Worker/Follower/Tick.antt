-- ===== src/Worker/Follower/Tick.antt =====
-- The tick of the follower: it answers the leader's latest proposal once, and then sends a
-- heartbeat where one is due.
use adex_validator_stack_rus.Prelude.{
  ℕ, Bool, false, Option, none, some, List, map, Result, ok, err, aborts, ok_or,
}
use Prim.Native.String.{String}
use text.Mathlib.Text.{◌==◌ as str_eq}
use adex_validator_stack_rus.UnifiedNum.{sum}
use adex_validator_stack_rus.BalancesMap.{Address}
use adex_validator_stack_rus.Balances.{Balances}
use adex_validator_stack_rus.Worker.Messages.{
  MessageTypes, PropagationResult, NewState, try_new_state, approve_state, reject_state,
}
use adex_validator_stack_rus.Worker.Tick.{Action, lift, pure, ◌>>=◌, relabel}
use adex_validator_stack_rus.Worker.Sentry.{SentryApi}
use adex_validator_stack_rus.Worker.Heartbeat.{heartbeat_tick}
use adex_validator_stack_rus.Worker.Follower.Defs.{
  Error, overflow, sentry_api, heartbeat, Spender, ApproveStateResult, sent, on_new_state,
}

pub record TickStatus : Type 0 where
  pub heartbeat_status : Option (List PropagationResult)
  pub approve_status : ApproveStateResult

-- `.map(NewState::try_from).transpose().expect(..)`
unfoldable pub expect_new_state : Option MessageTypes → Result Error (Option NewState)
expect_new_state none = ok none
expect_new_state (some m) = elim (try_new_state m) [
  | ok msg ↦ ok (some msg)
  | err _ ↦ aborts
  | aborts ↦ aborts
]

-- The state root of our latest answer.
unfoldable pub answered_root : Option MessageTypes → Option String
answered_root (some (approve_state m)) = some m.state_root
answered_root (some (reject_state m)) = some m.state_root
answered_root _ = none

unfoldable pub latest_is_responded_to : Option NewState → Option String → Bool
latest_is_responded_to (some msg) (some root) = str_eq msg.state_root root
latest_is_responded_to _ _ = false

-- `if let (Some(new_state), false) = (new_msg, latest_is_responded_to)`
unfoldable pub answer :
    SentryApi → Balances → ℕ → Option NewState → Bool → Action Error ApproveStateResult
answer api accounting total_deposits (some msg) false =
    on_new_state api accounting msg total_deposits
answer api accounting total_deposits _ _ = pure (sent none)

unfoldable pub tick : SentryApi → List (Address × Spender) → Balances → Action Error TickStatus
unfolding expect_new_state answered_root latest_is_responded_to answer
tick api all_spenders accounting = do
  all_spenders_sum ← lift (ok_or overflow (sum (map (λ e. e.1.total_deposited) all_spenders)))
  latest ← lift (ok_or sentry_api api.latest_new_state)
  new_msg ← lift (expect_new_state latest)
  response ← lift (ok_or sentry_api api.our_latest_response)
  status ←
      answer api accounting all_spenders_sum new_msg
        (latest_is_responded_to new_msg (answered_root response))
  beat ← relabel (λ _. heartbeat) (heartbeat_tick api)
  pure (record { heartbeat_status = beat; approve_status = status })
