-- ===== src/Worker/Tick.antt =====
-- A tick as a computation: it may fail or panic, and what it propagated before that is propagated.
use adex_validator_stack_rus.Prelude.{List, [], ◌∷◌, ◌++◌, Result}
use adex_validator_stack_rus.Prelude.Actions
use adex_validator_stack_rus.Worker.Messages.{MessageTypes}
pub use adex_validator_stack_rus.Prelude.Actions.{lift, pure, relabel, ◌>>=◌}

-- From the messages propagated so far to the result and the messages propagated by then.
abbrev pub Action : Type 0 → Type 0 → Type 0
Action E A = Actions.Action (List MessageTypes) E A

-- Hands a message to every validator of the channel; the answer comes from outside.
abbrev pub send : {E A : Type 0} → MessageTypes → Result E A → Action E A
send msg answer sent = (answer, sent ++ msg ∷ [])
