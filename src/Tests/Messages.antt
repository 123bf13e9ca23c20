-- ===== src/Tests/Messages.antt =====
-- The theorems on the validator messages at concrete data.
use adex_validator_stack_rus.Prelude.{◌≡◌, refl, inl, inr, true, some, List, [], ◌∷◌, ◌++◌, All, ok}
use adex_validator_stack_rus.Worker.Messages.{
  MessageTypes, approve_state, new_state, heartbeat, ApproveState,
}
use adex_validator_stack_rus.Worker.Follower.Approval.{approval}
use adex_validator_stack_rus.Sentry.Routes.Tables.{same_channel}
use adex_validator_stack_rus.Sentry.Messages.{MessageRow, create_validator_messages, last_approved}
use adex_validator_stack_rus.Sentry.Messages.Served.{row, answer, on_new_state-last_approved}
use adex_validator_stack_rus.Sentry.Messages.Listing.{IsOwn, create_validator_messages-IsOwn}
use adex_validator_stack_rus.Tests.Data.{api, two, proposal, channel}
use adex_validator_stack_rus.Tests.Worker.{approves}

abbrev beat : MessageTypes
beat = heartbeat (record { signature = "leader"; state_root = "beat"; timestamp = 1 })

-- The proposal of the leader, and a heartbeat after it.
abbrev posted : List MessageRow
posted = row channel 1 beat ∷ row channel 1 (new_state proposal) ∷ []

on_new_state-last_approved_example :
    (approved : ApproveState) × (rows : List MessageRow) × (approval api proposal "follower" 1000
          1000
        ∷ []
      ≡ [] ++ approve_state approved ∷ [])
    × (create_validator_messages (λ m. true) channel 2 (approve_state approved ∷ []) posted
        ≡ (ok true, rows))
    × (last_approved channel (some true) rows
        ≡ some (answer channel (some true) approved proposal rows))
unfolding same_channel
on_new_state-last_approved_example =
    on_new_state-last_approved api two proposal 10 [] []
      (approval api proposal "follower" 1000 1000 ∷ []) (λ m. true) (some true) posted approves
      (λ m. refl) (inr (refl, inl refl))

create_validator_messages-IsOwn_example :
    All IsOwn (create_validator_messages (λ m. true) channel 2 (beat ∷ beat ∷ []) posted).1
create_validator_messages-IsOwn_example =
    create_validator_messages-IsOwn (λ m. true) channel 2 (beat ∷ beat ∷ []) posted
      (inl refl, (inl refl, tt))

abbrev listed : List MessageRow
listed = row channel 1 beat ∷ []
