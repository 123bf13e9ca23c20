-- ===== src/Worker/Follower/Approval.antt =====
-- When the follower approves a proposal, and what it then sends.
use adex_validator_stack_rus.Prelude.{
  ℕ, ◌≤◌, ◌≡◌, inl, inr, true, ◌&&◌, Option, some, List, [], ◌∷◌, ◌++◌, arith, ltb, leb, Bool-cases,
  Option-cases, returns, ok, Outcome-cases, Result-cases,
}
use text.Mathlib.Text.{◌==◌ as str_eq}
use text.Mathlib.TextEquality.{eq_iff}
use adex_validator_stack_rus.Balances.Check.{check_cases}
use adex_validator_stack_rus.Worker.Follower.Defs.{
  previous_balances, check_transitions, check_proposal, on_new_state,
}
use adex_validator_stack_rus.Worker.Sentry.{LastApproved}
use adex_validator_stack_rus.Worker.Follower.Defs.{Health, check_health}
use Prim.Native.String.{String}
use adex_validator_stack_rus.UnifiedNum.{UnifiedNum}
use adex_validator_stack_rus.Balances.{Balances, check}
use adex_validator_stack_rus.StateRoot.{encode, channel_id}
use adex_validator_stack_rus.Worker.FollowerRules.{is_valid_transition, get_health}
use adex_validator_stack_rus.Worker.Messages.{
  MessageTypes, PropagationResult, NewState, approve_state,
}
use adex_validator_stack_rus.Worker.Tick.{Action}
use adex_validator_stack_rus.Worker.Sentry.{SentryApi}
use adex_validator_stack_rus.Worker.Follower.Defs.{
  Error, InvalidNewState, ApproveStateResult, sent, on_error, approve,
}

-- The message that approves `msg` at the two healths.
abbrev pub approval : SentryApi → NewState → String → ℕ → ℕ → MessageTypes
approval api msg signed earners_health spenders_health = approve_state (record {
  state_root = msg.state_root;
  signature = signed;
  is_healthy =
      leb api.health_threshold_promilles earners_health
      && leb api.health_threshold_promilles spenders_health;
})

-- Both maps are healthy enough, and the message was signed and sent.
pub record IsHealthyApproval (api : SentryApi) (accounting : Balances) (msg : NewState)
    (total_deposits : UnifiedNum) (earners_health spenders_health : ℕ) (signed : String)
    (before after : List MessageTypes) : Type 0 where
  pub earners :
      get_health api.build total_deposits accounting.earners msg.balances.earners
      ≡ returns (some earners_health)
  pub spenders :
      get_health api.build total_deposits accounting.spenders msg.balances.spenders
      ≡ returns (some spenders_health)
  pub earners_signable : api.health_unsignable_promilles ≤ earners_health
  pub spenders_signable : api.health_unsignable_promilles ≤ spenders_health
  pub signature : api.sign msg.state_root ≡ some signed
  pub log : after ≡ before ++ approval api msg signed earners_health spenders_health ∷ []

-- All that holds when a proposal is approved, against the balances `prev` approved last.
pub record IsApproval (api : SentryApi) (accounting : Balances) (msg : NewState)
    (total_deposits : UnifiedNum) (prev : Balances) (earners_health spenders_health : ℕ)
    (signed : String) (before after : List MessageTypes) : Type 0 where
  pub checked : check msg.balances ≡ ok msg.balances
  pub root :
      encode api.hashing msg.balances (channel_id api.hashing api.channel) api.token_precision
      ≡ ok msg.state_root
  pub leader_signed : api.verify api.channel.leader msg.state_root msg.signature ≡ some true
  pub spenders_transition :
      is_valid_transition total_deposits prev.spenders msg.balances.spenders ≡ some true
  pub earners_transition :
      is_valid_transition total_deposits prev.earners msg.balances.earners ≡ some true
  pub healthy :
      IsHealthyApproval api accounting msg total_deposits earners_health spenders_health signed
        before after

module _ (api : SentryApi) (accounting : Balances) (msg : NewState) (total_deposits : UnifiedNum)
    (results : List PropagationResult) (before after : List MessageTypes) where
  -- The action returned normally, with an approval.
  abbrev Approved : Action Error ApproveStateResult → Type 0
  Approved m = m before ≡ (ok (sent (some results)), after)

  on_error-not-Approved : (why : InvalidNewState) → ¬ Approved (on_error api msg why)
  unfolding on_error
  on_error-not-Approved why h = ground arith

  approve_inv :
      (he hs : ℕ)
      → Approved (approve api msg he hs)
      → (signed : String) × (api.sign msg.state_root ≡ some signed)
        × (after ≡ before ++ approval api msg signed he hs ∷ [])
  unfolding approve
  approve_inv he hs h = elim (Option-cases (api.sign msg.state_root)) [
    | inl refused ↦ absurd (ground arith)
    | inr (signed, e) ↦ (signed, e, ground arith)
  ]

  -- The approval follows from the health of both maps.
  check_health_inv :
      Approved (check_health api accounting msg msg.balances total_deposits)
      → (he hs : ℕ) × (signed : String) × IsHealthyApproval api accounting msg total_deposits he hs
          signed before after
  unfolding check_health
  check_health_inv h =
      elim (Outcome-cases
        (get_health api.build total_deposits accounting.earners msg.balances.earners)) [
          | inr bad ↦ absurd (ground (arith, bad))
          | inl (he, e) ↦ elim (Bool-cases (ltb he api.health_unsignable_promilles)) [
            | inl low ↦
                absurd (
                  ground
                    (arith, on_error-not-Approved (InvalidNewState.health (Health.earners he))))
            | inr fine ↦
                elim (Outcome-cases
                  (get_health api.build total_deposits accounting.spenders msg.balances.spenders)) [
                    | inr bad ↦ absurd (ground (arith, bad))
                    | inl (hs, d) ↦ elim (Bool-cases (ltb hs api.health_unsignable_promilles)) [
                      | inl low ↦ absurd (
                          ground (
                            arith,
                            on_error-not-Approved (InvalidNewState.health (Health.spenders hs)),
                          ))
                      | inr good ↦
                          let (signed, s, log) = approve_inv he hs (ground arith) in
                          (
                            he,
                            hs,
                            signed,
                            record {
                              earners = e;
                              spenders = d;
                              earners_signable = ground arith;
                              spenders_signable = ground arith;
                              signature = s;
                              log = log;
                            },
                          )
                    ]
                  ]
          ]
        ]

  -- The approval follows from both transitions and the health.
  check_transitions_inv :
      (prev : Balances)
      → Approved (check_transitions api accounting msg prev msg.balances total_deposits)
      → (is_valid_transition total_deposits prev.spenders msg.balances.spenders ≡ some true)
        × (is_valid_transition total_deposits prev.earners msg.balances.earners ≡ some true)
        × Approved (check_health api accounting msg msg.balances total_deposits)
  unfolding check_transitions
  check_transitions_inv prev h = ground (arith, on_error-not-Approved InvalidNewState.transition)

  -- The approval follows from the root, the signature, and the previous balances.
  check_proposal_inv :
      Approved (check_proposal api accounting msg msg.balances total_deposits)
      → (last : Option LastApproved) × (prev : Balances) × (api.last_approved ≡ some last)
        × (previous_balances last ≡ ok prev)
        × (encode api.hashing msg.balances (channel_id api.hashing api.channel) api.token_precision
            ≡ ok msg.state_root)
        × (api.verify api.channel.leader msg.state_root msg.signature ≡ some true)
        × Approved (check_transitions api accounting msg prev msg.balances total_deposits)
  unfolding check_proposal
  check_proposal_inv h =
      elim (Result-cases (
        encode api.hashing msg.balances (channel_id api.hashing api.channel) api.token_precision)) [
          | inr bad ↦ absurd (ground (arith, bad))
          | inl (root, e) ↦ elim (Bool-cases (str_eq msg.state_root root)) [
            | inr other ↦ absurd (ground (arith, on_error-not-Approved InvalidNewState.root_hash))
            | inl same ↦ elim (Option-cases api.last_approved) [
              | inl lost ↦ absurd (ground (arith, on_error-not-Approved InvalidNewState.signature))
              | inr (last, l) ↦ elim (Result-cases (previous_balances last)) [
                | inr bad ↦ absurd (
                    ground (
                      arith,
                      bad,
                      on_error-not-Approved InvalidNewState.signature,
                      on_error-not-Approved InvalidNewState.transition,
                    ))
                | inl (prev, p) ↦ (
                  last,
                  prev,
                  l,
                  p,
                  ground (arith, eq_iff msg.state_root root),
                  ground (arith, on_error-not-Approved InvalidNewState.signature),
                  ground (arith, on_error-not-Approved InvalidNewState.signature),
                )
              ]
            ]
          ]
        ]

  -- The approval follows from a proposal whose balances are checked.
  on_new_state_inv :
      Approved (on_new_state api accounting msg total_deposits)
      → (check msg.balances ≡ ok msg.balances)
        × Approved (check_proposal api accounting msg msg.balances total_deposits)
  unfolding on_new_state
  on_new_state_inv h =
      ground (arith, check_cases msg.balances, on_error-not-Approved InvalidNewState.transition)

  -- An approval is sent only for a proposal whose balances are checked, whose root is that of its
  -- balances and is signed by the leader, whose two maps are valid transitions from the balances
  -- approved last, and whose health against the accounting is signable on both sides; then exactly
  -- one message is sent, an approval of that root with the follower's signature, marked healthy
  -- exactly if both healths reach the threshold.
  pub on_new_state_sound :
      Approved (on_new_state api accounting msg total_deposits)
      → (last : Option LastApproved) × (prev : Balances) × (earners_health spenders_health : ℕ)
        × (signed : String) × (api.last_approved ≡ some last)
        × (previous_balances last ≡ ok prev)
        × IsApproval api accounting msg total_deposits prev earners_health spenders_health signed
            before after
  on_new_state_sound h =
      let (checked, proposal) = on_new_state_inv h in
      let (last, prev, l, p, root, verified, transitions) = check_proposal_inv proposal in
      let (spenders, earners, health) = check_transitions_inv prev transitions in
      let (he, hs, signed, healthy) = check_health_inv health in
      (
        last,
        prev,
        he,
        hs,
        signed,
        l,
        p,
        record {
          checked = checked;
          root = root;
          leader_signed = verified;
          spenders_transition = spenders;
          earners_transition = earners;
          healthy = healthy;
        },
      )
