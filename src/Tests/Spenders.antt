-- ===== src/Tests/Spenders.antt =====
-- The theorem on the limits of spenders at concrete data.
use adex_validator_stack_rus.Prelude.{ℕ, ◌≡◌, refl, true, Option, some, List, [], ◌∷◌, arith, ok}
use adex_validator_stack_rus.UnifiedNum.{UnifiedNum}
use adex_validator_stack_rus.BalancesMap.{Address, Map, get}
use adex_validator_stack_rus.Worker.Messages.{ApproveState, NewState}
use adex_validator_stack_rus.Sentry.Routes.Tables.{Tables}
use adex_validator_stack_rus.Sentry.Channels.{get_corresponding_states}
use adex_validator_stack_rus.Sentry.Channels.Spenders.{
  SpenderLimits, get_spender_limits, get_all_spender_limits,
}
use adex_validator_stack_rus.Sentry.Channels.SpenderLimits.{get_all_spender_limits-remaining}
use adex_validator_stack_rus.Tests.Data.{two, proposal, channel}
use adex_validator_stack_rus.Tests.Routes.{api}

-- Spender 7 has spent 5 of its deposit of 20.
abbrev tables : Tables
tables = record {
  channels = [];
  accounting = two;
  spendables = (7, 20) ∷ (8, 1) ∷ [];
  campaigns = [];
}

abbrev approved : ApproveState
approved = record {
  state_root = proposal.state_root;
  signature = proposal.signature;
  is_healthy = true;
}

abbrev spent : NewState
spent = record proposal { balances = record { earners = (9, 5) ∷ []; spenders = (7, 5) ∷ [] } }

abbrev found : ℕ → ℕ → Option (List (Address × UnifiedNum))
found skip limit = some ((7, 20) ∷ (8, 1) ∷ [])

get_all_spender_limits-remaining_example :
    (get_spender_limits api channel 18 (some (some approved)) (λ _. some (some spent)) 7 tables
      ≡ (ok (record { total_deposited = 20; total_spent = some 5 }), tables))
    × (limits : Map SpenderLimits) × (get_all_spender_limits 500 0 found
          (some (some approved))
          (λ _. some (some spent))
        ≡ ok limits)
    × (get 7 limits ≡ some (record { total_deposited = 20; total_spent = some 15 }))
unfolding get_corresponding_states get
get_all_spender_limits-remaining_example =
    get_all_spender_limits-remaining api channel 18 500 0 0 found (some (some approved))
      (λ _. some (some spent)) approved spent 7 20 5 [] ((8, 1) ∷ []) tables refl refl
      (ground arith) refl (refl, tt) refl refl (omega arith)
