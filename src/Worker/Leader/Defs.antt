-- ===== src/Worker/Leader/Defs.antt =====
-- The handlers.
use adex_validator_stack_rus.Prelude.{
  ℕ, Bool, true, false, ◌||◌, Option, none, some, List, ltb, if◌then◌else◌, any, Result, ok, err,
  aborts, ok_or, map_err,
}
use adex_validator_stack_rus.BalancesMap.{UnifiedMap, get, is_empty}
use adex_validator_stack_rus.Balances.{Balances}
use adex_validator_stack_rus.StateRoot.{encode, channel_id}
use adex_validator_stack_rus.Worker.Messages.{
  MessageTypes, PropagationResult, NewState, new_state, try_new_state_checked,
}
use adex_validator_stack_rus.Worker.Tick.{Action, lift, pure, send, ◌>>=◌, relabel}
use adex_validator_stack_rus.Worker.Sentry.{SentryApi}
use adex_validator_stack_rus.Worker.Heartbeat.{heartbeat_tick}

pub data Error : Type 0 where
  sentry_api state_root_hash adapter heartbeat message overflow : Error

pub record TickStatus : Type 0 where
  pub heartbeat_status : Option (List PropagationResult)
  pub new_state_status : Option (List PropagationResult)

-- The test of one entry of the accounting: it has grown since the previous state, or is new.
abbrev pub grown : UnifiedMap → ℕ × ℕ → Bool
grown prev (address, accounting_balance) = elim (get address prev) [
  | none ↦ true
  | some prev_balance ↦ ltb prev_balance accounting_balance
]

-- `accounting.iter().any(..)`
unfoldable pub any_grown : UnifiedMap → UnifiedMap → Bool
any_grown prev accounting = any (grown prev) accounting

-- `.map(NewState::<CheckedState>::try_from).transpose()?`
unfoldable pub checked_new_state : Option MessageTypes → Result Error (Option NewState)
checked_new_state none = ok none
checked_new_state (some m) = elim (try_new_state_checked m) [
  | ok msg ↦ ok (some msg)
  | err _ ↦ err message
  | aborts ↦ aborts
]

-- Whether the accounting differs from our latest proposal.
unfoldable pub differs : Balances → Option NewState → Bool
unfolding any_grown
differs accounting none = true
differs accounting (some msg) =
    any_grown msg.balances.spenders accounting.spenders
    || any_grown msg.balances.earners accounting.earners

unfoldable pub should_generate_new_state : SentryApi → Balances → Action Error Bool
unfolding checked_new_state differs
should_generate_new_state api accounting =
    if is_empty accounting.earners || is_empty accounting.spenders then pure false else do
      response ← lift (ok_or sentry_api api.our_latest_new_state)
      latest ← lift (checked_new_state response)
      pure (differs accounting latest)

unfoldable pub on_new_accounting : SentryApi → Balances → Action Error (List PropagationResult)
on_new_accounting api accounting = do
  root ← lift (
      map_err (λ _. state_root_hash)
        (encode api.hashing accounting (channel_id api.hashing api.channel) api.token_precision))
  signed ← lift (ok_or adapter (api.sign root))
  let proposal = new_state (record { state_root = root; signature = signed; balances = accounting })
  send proposal (ok_or sentry_api (api.propagate proposal))

unfoldable pub tick : SentryApi → Balances → Action Error TickStatus
unfolding should_generate_new_state on_new_accounting
tick api accounting = do
  generate ← should_generate_new_state api accounting
  proposed ←
      if generate
      then (do results ← on_new_accounting api accounting; pure (some results))
      else pure none
  beat ← relabel (λ _. heartbeat) (heartbeat_tick api)
  pure (record { heartbeat_status = beat; new_state_status = proposed })
