-- ===== src/Worker/Messages.antt =====
-- The validator messages of primitives/src/validator.rs, and the tick of a worker as a computation
-- that logs the messages it propagates. The payloads of errors of other crates are left out.
use adex_validator_stack_rus.Prelude.{ℕ, Bool, Option, Result, ok, err, ◌>>=◌, map_err}
use Prim.Native.String.{String}
use adex_validator_stack_rus.Balances.{Balances, check}

-- Milliseconds since the epoch.
abbrev pub Timestamp : Type 0
Timestamp = ℕ

pub record ApproveState : Type 0 where
  pub state_root : String
  pub signature : String
  pub is_healthy : Bool

pub record NewState : Type 0 where
  pub state_root : String
  pub signature : String
  pub balances : Balances

pub record RejectState : Type 0 where
  pub reason : String
  pub state_root : String
  pub signature : String
  pub balances : Option Balances
  pub timestamp : Timestamp

pub record Heartbeat : Type 0 where
  pub signature : String
  pub state_root : String
  pub timestamp : Timestamp

pub data MessageTypes : Type 0 where
  approve_state : ApproveState → MessageTypes
  new_state : NewState → MessageTypes
  reject_state : RejectState → MessageTypes
  heartbeat : Heartbeat → MessageTypes

-- `MessageError`
pub data MessageError : Type 0 where
  balances_error wrong_type : MessageError

-- `TryFrom<MessageTypes> for NewState<UncheckedState>`
unfoldable pub try_new_state : MessageTypes → Result MessageError NewState
try_new_state (new_state msg) = ok msg
try_new_state (approve_state msg) = err wrong_type
try_new_state (reject_state msg) = err wrong_type
try_new_state (heartbeat msg) = err wrong_type

-- `NewState<UncheckedState>::try_checked`
unfoldable pub try_checked : NewState → Result MessageError NewState
try_checked msg = do
  balances ← map_err (λ _. balances_error) (check msg.balances)
  ok (record msg { balances = balances })

-- `TryFrom<MessageTypes> for NewState<CheckedState>`
unfoldable pub try_new_state_checked : MessageTypes → Result MessageError NewState
unfolding try_checked
try_new_state_checked (new_state msg) = try_checked msg
try_new_state_checked (approve_state msg) = err wrong_type
try_new_state_checked (reject_state msg) = err wrong_type
try_new_state_checked (heartbeat msg) = err wrong_type

-- What one validator answered to a propagation.
pub data PropagationResult : Type 0 where
  propagated failed : ℕ → PropagationResult
