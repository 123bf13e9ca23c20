-- ===== src/Tests/Worker.antt =====
-- The theorems on the worker at concrete data.
use adex_validator_stack_rus.Prelude.{
  ℕ, Bool, ◌≢◌, ◌≤◌, ◌<◌, ◌≡◌, refl, ◌↔◌, inl, true, Option, none, some, [], ◌∷◌, arith, debug,
  release, returns, panics, ok,
}
use adex_validator_stack_rus.Prelude.U64
use Prim.Native.String.{String}
use adex_validator_stack_rus.UnifiedNum.{sum, sum_from, to_precision}
use adex_validator_stack_rus.BalancesMap.{UnifiedMap, get}
use adex_validator_stack_rus.BalancesMap.Total.{sum_values}
use adex_validator_stack_rus.Balances.{Balances, check}
use adex_validator_stack_rus.Channel.{find_validator}
use adex_validator_stack_rus.StateRoot.{
  encode, get_state_root_hash, balance_leaves, get_balance_leaf, channel_id,
  get_signable_state_root, merkle_root, sort, insert_sorted, dedup, dedup_from,
}
use adex_validator_stack_rus.Worker.FollowerRules.{
  is_valid_transition, get_health, max_health, approved_mins, prev_checks,
}
use adex_validator_stack_rus.Worker.FollowerRules.Monotone.{Dominates}
use adex_validator_stack_rus.Worker.FollowerRules.Transition.{is_valid_transition_iff}
use adex_validator_stack_rus.Worker.FollowerRules.Health.{get_health_underflow}
use adex_validator_stack_rus.Worker.Messages.{
  MessageTypes, NewState, heartbeat, new_state, try_new_state,
}
use adex_validator_stack_rus.Worker.Sentry.{SentryApi, LastApproved}
use adex_validator_stack_rus.Worker.Heartbeat.{heartbeat_tick, should_send, send_heartbeat}
use adex_validator_stack_rus.Worker.Follower.{
  Spender, sent, on_new_state, previous_balances, check_proposal, check_transitions, check_health,
  approve,
}
use adex_validator_stack_rus.Worker.Follower.Approval.{IsApproval, approval, on_new_state_sound}
use adex_validator_stack_rus.Worker.Follower.Rejection.{RejectsOnce, on_new_state-RejectsOnce}
use adex_validator_stack_rus.Worker.Follower.Answered.{tick_once}
use adex_validator_stack_rus.Worker.Follower.Tick.{
  TickStatus, tick, expect_new_state, answered_root, latest_is_responded_to, answer,
}
use adex_validator_stack_rus.Worker.Leader.{should_generate_new_state}
use adex_validator_stack_rus.Worker.Leader.Proposal.{GrownSince, should_generate_new_state_iff}
use adex_validator_stack_rus.Worker.ChannelTick.{
  channel_tick, deposits_cover, with_timeout, follower,
}
use adex_validator_stack_rus.Worker.Checks.{IsTickOf, Covers, channel_tick_checks}
use adex_validator_stack_rus.Tests.Data.{two, proposal, api}

abbrev more : UnifiedMap
more = (8, 3) ∷ (9, 4) ∷ []

is_valid_transition_iff_example :
    (is_valid_transition 10 two.earners more ≡ some true)
    ↔ (Dominates more two.earners × (sum_values more ≤ 10) × (sum_values more ≤ U64.max_value))
is_valid_transition_iff_example =
    is_valid_transition_iff 10 two.earners more ((omega arith, tt), (tt, tt))
      ((omega arith, tt), (tt, tt))

get_health_underflow_example :
    (get_health debug 1 more [] ≡ panics)
    × (h : ℕ) × (get_health release 1 more [] ≡ returns (some h))
    × (max_health < h)
unfolding approved_mins get
get_health_underflow_example =
    get_health_underflow 1 more [] (omega arith) (omega arith) (omega arith) (omega arith)

-- A proposal with the root of other balances.
abbrev forged : NewState
forged = record proposal { state_root = "other" }

-- Our answer to the proposal, and Sentry when it has it.
abbrev answer_sent : MessageTypes
answer_sent = approval api proposal "follower" 1000 1000

abbrev answered : SentryApi
answered = record api { our_latest_response = some (some answer_sent) }

abbrev beat : MessageTypes
beat = heartbeat (record { signature = "follower"; state_root = "root"; timestamp = 1000 })

abbrev answered_status : TickStatus
answered_status = record { heartbeat_status = some []; approve_status = sent none }

abbrev deposited : Spender
deposited = record { total_deposited = 10; total_spent = none }

-- A run of the follower that approves the proposal.
pub approves :
    on_new_state api two proposal 10 []
    ≡ (ok (sent (some [])), approval api proposal "follower" 1000 1000 ∷ [])
unfolding on_new_state check sum sum_from check_proposal check_transitions check_health approve
    previous_balances is_valid_transition prev_checks get get_health approved_mins encode
    get_state_root_hash balance_leaves get_balance_leaf to_precision channel_id
    get_signable_state_root merkle_root sort insert_sorted dedup dedup_from
approves = refl

on_new_state_sound_example :
    (last : Option LastApproved) × (prev : Balances) × (earners_health spenders_health : ℕ)
    × (signed : String) × (api.last_approved ≡ some last)
    × (previous_balances last ≡ ok prev)
    × IsApproval api two proposal 10 prev earners_health spenders_health signed []
        (approval api proposal "follower" 1000 1000 ∷ [])
on_new_state_sound_example =
    on_new_state_sound api two proposal 10 [] [] (approval api proposal "follower" 1000 1000 ∷ [])
      approves

on_new_state-RejectsOnce_example :
    RejectsOnce api two forged 10 [] (on_new_state api two forged 10 [])
on_new_state-RejectsOnce_example = on_new_state-RejectsOnce api two forged 10 []

tick_once_example :
    (answered_status.approve_status ≡ sent none)
    × (heartbeat_tick answered [] ≡ (ok answered_status.heartbeat_status, beat ∷ []))
unfolding tick expect_new_state answered_root latest_is_responded_to answer heartbeat_tick
    should_send send_heartbeat sum sum_from merkle_root channel_id get_signable_state_root sort
    insert_sorted dedup dedup_from try_new_state
tick_once_example =
    tick_once answered [] two proposal answer_sent [] (beat ∷ []) answered_status refl refl
      (inl (_, refl, refl)) refl

-- The leader has proposed `two`; the accounting has grown by a new earner since.
abbrev led : SentryApi
led = record api { our_latest_new_state = some (some (new_state proposal)) }

abbrev grown : Balances
grown = record two { earners = (6, 1) ∷ two.earners }

should_generate_new_state_iff_example :
    (generate : Bool) × (should_generate_new_state led grown [] ≡ (ok generate, []))
    × ((generate ≡ true)
        ↔ ((grown.earners ≢ []) × (grown.spenders ≢ []) × GrownSince grown (some proposal)))
unfolding check sum sum_from
should_generate_new_state_iff_example =
    should_generate_new_state_iff led grown [] (some proposal) refl refl

channel_tick_checks_example :
    IsTickOf answered 2 ((7, deposited) ∷ []) two (follower answered_status) [] (beat ∷ [])
    × Covers two.spenders ((7, deposited) ∷ [])
    × (5 ≤ 10)
unfolding channel_tick find_validator deposits_cover with_timeout get tick expect_new_state
    answered_root latest_is_responded_to answer heartbeat_tick should_send send_heartbeat sum
    sum_from merkle_root channel_id get_signable_state_root sort insert_sorted dedup dedup_from
    try_new_state
channel_tick_checks_example =
    channel_tick_checks answered 2 ((7, deposited) ∷ []) two none [] (beat ∷ [])
      (follower answered_status) refl
