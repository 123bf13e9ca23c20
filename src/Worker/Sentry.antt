-- ===== src/Worker/Sentry.antt =====
-- What a tick reads from outside: the answers of Sentry (validator_worker/src/sentry_interface.rs),
-- the adapter, the configuration and the clock. `none` is a call that fails.
use adex_validator_stack_rus.Prelude.{ℕ, Bool, Option, List, Build}
use Prim.Native.String.{String}
use adex_validator_stack_rus.Channel.{Channel, ValidatorId}
use adex_validator_stack_rus.StateRoot.{Hashing}
use adex_validator_stack_rus.Worker.Messages.{
  Timestamp, MessageTypes, PropagationResult, NewState, ApproveState,
}

-- `LastApproved<UncheckedState>`
pub record LastApproved : Type 0 where
  pub new_state : Option NewState
  pub approve_state : Option ApproveState

pub record SentryApi : Type 0 where
  pub build : Build
  pub hashing : Hashing
  pub channel : Channel
  pub token_precision : ℕ
  -- `Utc::now()`
  pub now : Timestamp
  -- the configuration of the worker
  pub heartbeat_time : ℕ
  pub health_threshold_promilles : ℕ
  pub health_unsignable_promilles : ℕ
  -- `get_latest_msg` from the leader, of the type `NewState`
  pub latest_new_state : Option (Option MessageTypes)
  -- `get_our_latest_msg`, by the types asked for
  pub our_latest_response : Option (Option MessageTypes)
  pub our_latest_new_state : Option (Option MessageTypes)
  pub our_latest_heartbeat : Option (Option MessageTypes)
  -- the `last_approved` of `get_last_approved`
  pub last_approved : Option (Option LastApproved)
  -- the adapter: the signer, the state root and the signature
  pub verify : ValidatorId → String → String → Option Bool
  pub sign : String → Option String
  pub propagate : MessageTypes → Option (List PropagationResult)
