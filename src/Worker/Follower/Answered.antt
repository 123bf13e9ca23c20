-- ===== src/Worker/Follower/Answered.antt =====
-- The follower answers a proposal once.
use adex_validator_stack_rus.Prelude.{
  ◌≡◌, refl, ap, ◌∙◌, ◌⊎◌, inl, inr, none, some, List, map, arith, Option-cases, ok, Result-cases,
}
use text.Mathlib.TextEquality.{eq_iff}
use adex_validator_stack_rus.Balances.{Balances}
use adex_validator_stack_rus.BalancesMap.{Address}
use adex_validator_stack_rus.UnifiedNum.{sum}
use adex_validator_stack_rus.Worker.Messages.{
  MessageTypes, NewState, new_state, try_new_state, ApproveState, RejectState, approve_state,
  reject_state,
}
use Prim.Native.String.{String}
use adex_validator_stack_rus.Worker.Sentry.{SentryApi}
use adex_validator_stack_rus.Worker.Heartbeat.{heartbeat_tick}
use adex_validator_stack_rus.Worker.Follower.Defs.{Spender, sent}
use adex_validator_stack_rus.Worker.Follower.Tick.{
  tick, answer, expect_new_state, answered_root, latest_is_responded_to, TickStatus,
}

answered_root_lem :
    (response : MessageTypes) (root : String)
    → ((m : ApproveState) × (response ≡ approve_state m) × (m.state_root ≡ root))
      ⊎ ((m : RejectState) × (response ≡ reject_state m) × (m.state_root ≡ root))
    → answered_root (some response) ≡ some root
unfolding answered_root
answered_root_lem response root (inl (m, e, r)) = ap (λ x. answered_root (some x)) e ∙ ap some r
answered_root_lem response root (inr (m, e, r)) = ap (λ x. answered_root (some x)) e ∙ ap some r

-- A proposal whose state root is that of our latest answer, be it an approval or a rejection, is not
-- answered again: what a tick that succeeds sends is what the heartbeat sends.
pub tick_once :
    (api : SentryApi) (all_spenders : List (Address × Spender)) (accounting : Balances)
    (msg : NewState) (response : MessageTypes) (before after : List MessageTypes)
    (status : TickStatus)
    → api.latest_new_state ≡ some (some (new_state msg))
    → api.our_latest_response ≡ some (some response)
    → ((m : ApproveState) × (response ≡ approve_state m) × (m.state_root ≡ msg.state_root))
      ⊎ ((m : RejectState) × (response ≡ reject_state m) × (m.state_root ≡ msg.state_root))
    → tick api all_spenders accounting before ≡ (ok status, after)
    → (status.approve_status ≡ sent none)
      × (heartbeat_tick api before ≡ (ok status.heartbeat_status, after))
unfolding tick expect_new_state try_new_state latest_is_responded_to answer
tick_once api all_spenders accounting msg response before after status l q r h =
    let a : answered_root (some response) ≡ some msg.state_root =
      answered_root_lem response msg.state_root r in
    let same = (eq_iff msg.state_root msg.state_root).1 refl in
    elim (Option-cases (sum (map (λ e. e.1.total_deposited) all_spenders))) [
      | inl e ↦ absurd (ground arith)
      | inr (n, e) ↦ elim (Result-cases (heartbeat_tick api before).0) [
        | inr bad ↦ absurd (ground (arith, bad))
        | inl (beat, b) ↦ (ground arith, ground arith)
      ]
    ]
