-- ===== src/Worker/FollowerRules/Defs.antt =====
-- The two rules.
use adex_validator_stack_rus.Prelude.{
  ℕ, min, Bool, false, ◌&&◌, Option, none, some, List, [], ◌∷◌, leb, if◌then◌else◌, all, Build,
  Outcome, returns, panics, bind_option, or_default,
}
use adex_validator_stack_rus.Prelude.U64
use adex_validator_stack_rus.UnifiedNum.{UnifiedNum, sum}
use adex_validator_stack_rus.BalancesMap.{UnifiedMap, get, values}

abbrev pub max_health : ℕ
max_health = 1000

-- The test of one previous entry: it is in `next`, at no lower a balance.
abbrev pub kept : UnifiedMap → ℕ × ℕ → Bool
kept next (acc, bal) = elim (get acc next) [ none ↦ false | some next_bal ↦ leb bal next_bal ]

-- `prev.iter().all(..)`
unfoldable pub prev_checks : UnifiedMap → UnifiedMap → Bool
prev_checks next prev = all (kept next) prev

unfoldable pub is_valid_transition : UnifiedNum → UnifiedMap → UnifiedMap → Option Bool
unfolding prev_checks
is_valid_transition all_spenders_sum prev next = bind_option (sum (values prev)) λ sum_prev.
    bind_option (sum (values next)) λ sum_next.
      some (leb sum_prev sum_next && leb sum_next all_spenders_sum && prev_checks next prev)

-- `our.iter().map(|(acc, val)| val.min(approved.get(acc).unwrap_or(&UnifiedNum::ZERO)))`
unfoldable pub approved_mins : UnifiedMap → UnifiedMap → List UnifiedNum
approved_mins approved [] = []
approved_mins approved ((acc, val) ∷ our) =
    min val (or_default 0 (get acc approved)) ∷ approved_mins approved our

-- The last line, `MAX_HEALTH - health_penalty`, and the subtraction before it are plain `u64`
-- subtractions.
abbrev pub health_of_diff : Build → UnifiedNum → ℕ → Outcome (Option ℕ)
health_of_diff m all_spenders_sum diff =
    elim (bind_option (U64.checked_mul diff max_health) λ d. U64.checked_div d all_spenders_sum) [
      | none ↦ returns none
      | some health_penalty ↦ elim (U64.sub m max_health health_penalty) [
        | returns h ↦ returns (some h)
        | panics ↦ panics
      ]
    ]

unfoldable pub get_health : Build → UnifiedNum → UnifiedMap → UnifiedMap → Outcome (Option ℕ)
unfolding approved_mins
get_health m all_spenders_sum our approved = elim (sum (values our)) [
  | none ↦ returns none
  | some sum_our ↦ elim (sum (approved_mins approved our)) [
    | none ↦ returns none
    | some sum_approved_mins ↦
        if leb sum_our sum_approved_mins
        then returns (some max_health)
        else elim (U64.sub m sum_our sum_approved_mins) [
          | panics ↦ panics
          | returns diff ↦ health_of_diff m all_spenders_sum diff
        ]
  ]
]
