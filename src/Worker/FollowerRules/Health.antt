-- ===== src/Worker/FollowerRules/Health.antt =====
-- Bounds of the health of a proposed state.
use adex_validator_stack_rus.Prelude.{
  ℕ, ◌+◌, ◌-◌, ◌*◌, ◌/◌, ◌≤◌, ◌<◌, ◌≡◌, none, some, [], ◌∷◌, arith, leb, ◌==◌, if◌then◌else◌, total,
  Build, debug, release, returns, panics,
}
use adex_validator_stack_rus.Prelude.U64
use adex_validator_stack_rus.UnifiedNum.{UnifiedNum}
use adex_validator_stack_rus.UnifiedNum.Sum.{sum-eq-fits}
use adex_validator_stack_rus.BalancesMap.{UnifiedMap, values}
use adex_validator_stack_rus.BalancesMap.Total.{sum_values}
use adex_validator_stack_rus.Worker.FollowerRules.Defs.{
  get_health, approved_mins, health_of_diff, max_health,
}

pub total-approved_mins-le :
    (approved our : UnifiedMap) → total (approved_mins approved our) ≤ sum_values our
unfolding approved_mins
total-approved_mins-le approved [] = omega arith
total-approved_mins-le approved ((a, v) ∷ our) = omega (arith, total-approved_mins-le approved our)

-- What our accounting has and the proposal does not approve.
abbrev pub missing : UnifiedMap → UnifiedMap → ℕ
missing our approved = sum_values our - total (approved_mins approved our)

-- The health in one line, for an accounting whose sum fits 64 bits: full if nothing is missing,
-- and else full less the share that is missing of what the spenders deposited, in promilles.
pub get_health_cases :
    (m : Build) (all_spenders_sum : UnifiedNum) (our approved : UnifiedMap)
    → sum_values our ≤ U64.max_value
    → get_health m all_spenders_sum our approved ≡ (
        if missing our approved == 0
        then returns (some max_health)
        else health_of_diff m all_spenders_sum (missing our approved))
unfolding get_health
get_health_cases m a our approved f = ground (
  arith,
  sum-eq-fits (values our),
  sum-eq-fits (approved_mins approved our),
  total-approved_mins-le approved our,
)

div-le-of-le : (d a : ℕ) → 0 < a → d ≤ a → d * 1000 / a ≤ 1000
div-le-of-le d a p h = grind arith

-- No subtraction underflows, in any build, where no more is missing than the spenders deposited:
-- the health is full less the missing share in promilles, or nothing where that product overflows.
pub get_health_exact :
    (m : Build) (all_spenders_sum : UnifiedNum) (our approved : UnifiedMap)
    → sum_values our ≤ U64.max_value
    → missing our approved ≤ all_spenders_sum
    → get_health m all_spenders_sum our approved ≡ (
        if leb (missing our approved * max_health) U64.max_value
        then returns (some (max_health - missing our approved * max_health / all_spenders_sum))
        else returns none)
get_health_exact m a our approved f g =
    ground (arith, get_health_cases m a our approved f, div-le-of-le (missing our approved) a)

div-le : (n a : ℕ) → n / a ≤ n
div-le n a = grind arith

-- Where the spenders deposited something, our accounting and a thousand times what is missing in
-- the proposal each fit 64 bits, and what is missing is at least 1001 promilles of what was
-- deposited, the last subtraction underflows: a debug build panics, and a release build wraps to a
-- health above `MAX_HEALTH`.
pub get_health_underflow :
    (all_spenders_sum : UnifiedNum) (our approved : UnifiedMap)
    → sum_values our ≤ U64.max_value
    → missing our approved * max_health ≤ U64.max_value
    → 0 < all_spenders_sum
    → max_health < missing our approved * max_health / all_spenders_sum
    → (get_health debug all_spenders_sum our approved ≡ panics)
      × (h : ℕ) × (get_health release all_spenders_sum our approved ≡ returns (some h))
      × (max_health < h)
get_health_underflow a our approved f o p q = (
  ground (arith, get_health_cases debug a our approved f),
  max_health + U64.modulus - missing our approved * max_health / a,
  ground (arith, get_health_cases release a our approved f),
  omega (arith, div-le (missing our approved * max_health) a),
)
