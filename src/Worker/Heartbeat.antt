-- ===== src/Worker/Heartbeat.antt =====
-- validator_worker/src/heartbeat.rs: a heartbeat is sent where none was sent for long enough.
use adex_validator_stack_rus.Prelude.{
  ◌-◌, ◌^◌, Bool, true, Option, none, some, List, [], ◌∷◌, ltb, leb, if◌then◌else◌, Result, ok,
  aborts, ok_or, map_err,
}
use adex_validator_stack_rus.StateRoot.{merkle_root, get_signable_state_root, channel_id}
use adex_validator_stack_rus.Worker.Messages.{MessageTypes, PropagationResult, heartbeat}
use adex_validator_stack_rus.Worker.Tick.{Action, lift, pure, send, ◌>>=◌}
use adex_validator_stack_rus.Worker.Sentry.{SentryApi}

-- `heartbeat::Error`
pub data Error : Type 0 where
  merkle_tree adapter sentry_api : Error

-- `heartbeat_msg.map_or(true, ..)`: a heartbeat from the future panics.
unfoldable pub should_send : SentryApi → Option MessageTypes → Result Error Bool
should_send api (some (heartbeat h)) =
    if leb h.timestamp api.now then ok (ltb api.heartbeat_time (api.now - h.timestamp)) else aborts
should_send api _ = ok true

-- `BigEndian::write_uint(.., milliseconds, 6)` panics where the time does not fit six bytes.
unfoldable pub send_heartbeat : SentryApi → Action Error (List PropagationResult)
send_heartbeat api = do
  leaf ← lift (if ltb api.now (2 ^ 48) then ok api.now else aborts)
  root ← lift (map_err (λ _. merkle_tree) (merkle_root api.hashing (leaf ∷ [])))
  let state_root =
      api.hashing.hex_encode
        (get_signable_state_root api.hashing (channel_id api.hashing api.channel) root)
  signature ← lift (ok_or adapter (api.sign state_root))
  let message =
      heartbeat (record { signature = signature; state_root = state_root; timestamp = api.now })
  send message (ok_or sentry_api (api.propagate message))

unfoldable pub heartbeat_tick : SentryApi → Action Error (Option (List PropagationResult))
unfolding should_send send_heartbeat
heartbeat_tick api = do
  response ← lift (ok_or sentry_api api.our_latest_heartbeat)
  sending ← lift (should_send api response)
  if sending then (do results ← send_heartbeat api; pure (some results)) else pure none
