-- ===== src/Worker/Follower/Rejection.antt =====
-- When the follower rejects a proposal, and what it then sends.
use adex_validator_stack_rus.Prelude.{
  ℕ, ◌≡◌, inl, inr, some, List, [], ◌∷◌, ◌++◌, arith, ltb, Bool-cases, Result, ok, err, aborts,
  Outcome-cases,
}
use adex_validator_stack_rus.UnifiedNum.{UnifiedNum}
use adex_validator_stack_rus.Balances.{Balances}
use adex_validator_stack_rus.Worker.Messages.{MessageTypes, NewState, reject_state}
use adex_validator_stack_rus.Worker.Sentry.{SentryApi}
use adex_validator_stack_rus.Worker.FollowerRules.{get_health}
use adex_validator_stack_rus.Worker.Follower.Defs.{
  Error, InvalidNewState, root_hash, signature, transition, health, Health, ApproveStateResult,
  sent, rejected_state, on_error, approve, check_health, check_transitions, check_proposal,
  on_new_state, to_string,
}

module _ (api : SentryApi) (accounting : Balances) (msg : NewState)
    (total_deposits : UnifiedNum) where
  -- The message that rejects the proposal.
  abbrev pub rejection : InvalidNewState → MessageTypes
  rejection why = reject_state (record {
    reason = to_string why;
    state_root = msg.state_root;
    signature = msg.signature;
    balances = some msg.balances;
    timestamp = api.now;
  })

  -- A call that ends in a rejection logs that rejection, and nothing else.
  abbrev pub RejectsOnce :
      List MessageTypes → Result Error ApproveStateResult × List MessageTypes → Type 0
  RejectsOnce before (ok (rejected_state why root _), after) =
      (root ≡ msg.state_root) × (after ≡ before ++ rejection why ∷ [])
  RejectsOnce before (ok (sent _), after) = Unit
  RejectsOnce before (err _, after) = Unit
  RejectsOnce before (aborts, after) = Unit

  module _ (before : List MessageTypes) where
    on_error-RejectsOnce :
        (why : InvalidNewState) → RejectsOnce before (on_error api msg why before)
    unfolding on_error
    on_error-RejectsOnce why = ground arith

    approve-RejectsOnce : (he hs : ℕ) → RejectsOnce before (approve api msg he hs before)
    unfolding approve
    approve-RejectsOnce he hs = ground arith

    check_health-RejectsOnce :
        (proposed : Balances)
        → RejectsOnce before (check_health api accounting msg proposed total_deposits before)
    unfolding check_health
    check_health-RejectsOnce proposed =
        elim (Outcome-cases
          (get_health api.build total_deposits accounting.earners proposed.earners)) [
            | inr bad ↦ ground (arith, bad)
            | inl (he, e) ↦ elim (Bool-cases (ltb he api.health_unsignable_promilles)) [
              | inl low ↦ ground (arith, on_error-RejectsOnce (health (Health.earners he)))
              | inr fine ↦
                  elim (Outcome-cases
                    (get_health api.build total_deposits accounting.spenders proposed.spenders)) [
                      | inr bad ↦ ground (arith, bad)
                      | inl (hs, d) ↦ ground (
                        arith,
                        on_error-RejectsOnce (health (Health.spenders hs)),
                        approve-RejectsOnce he hs,
                      )
                    ]
            ]
          ]

    check_transitions-RejectsOnce :
        (prev proposed : Balances)
        → RejectsOnce before
            (check_transitions api accounting msg prev proposed total_deposits before)
    unfolding check_transitions
    check_transitions-RejectsOnce prev proposed =
        ground (arith, on_error-RejectsOnce transition, check_health-RejectsOnce proposed)

    check_proposal-RejectsOnce :
        (proposed : Balances)
        → RejectsOnce before (check_proposal api accounting msg proposed total_deposits before)
    unfolding check_proposal
    check_proposal-RejectsOnce proposed = grind (
      arith,
      on_error-RejectsOnce root_hash,
      on_error-RejectsOnce signature,
      on_error-RejectsOnce transition,
      check_transitions-RejectsOnce,
    )

    -- Whenever the follower rejects a proposal, it sends one message, the rejection of that
    -- proposal's root and balances for that reason, and nothing else.
    pub on_new_state-RejectsOnce :
        RejectsOnce before (on_new_state api accounting msg total_deposits before)
    unfolding on_new_state
    on_new_state-RejectsOnce =
        grind (arith, on_error-RejectsOnce transition, check_proposal-RejectsOnce)
