-- ===== src/Worker/FollowerRules/Monotone.antt =====
-- A map that holds every entry of another, at a value that is no lower, sums to no less.
use adex_validator_stack_rus.Prelude.{ℕ, ◌≤◌, ◌≡◌, refl, true, some, [], ◌∷◌, arith, all}
use adex_validator_stack_rus.Worker.FollowerRules.Defs.{kept}
use adex_validator_stack_rus.BalancesMap.{UnifiedMap, get}
use adex_validator_stack_rus.BalancesMap.Lookup.{Above, Above-trans, IsSorted, get-Above}
use adex_validator_stack_rus.BalancesMap.Total.{sum_values}

-- What the follower's test of one entry stands for: the entry is there, and no lower.
abbrev pub IsKept : UnifiedMap → ℕ → ℕ → Type 0
IsKept next k v = (w : ℕ) × (get k next ≡ some w) × (v ≤ w)

abbrev pub Dominates : UnifiedMap → UnifiedMap → Type 0
Dominates next prev = (k v : ℕ) → get k prev ≡ some v → IsKept next k v

kept-cons :
    (j w : ℕ) (next : UnifiedMap) (prev : UnifiedMap)
    → Above j prev
    → all (kept ((j, w) ∷ next)) prev ≡ all (kept next) prev
unfolding get
kept-cons j w next [] a = refl
kept-cons j w next ((k, v) ∷ prev) a = ground (arith, kept-cons j w next prev a.1)

pub total_mono :
    (prev next : UnifiedMap)
    → IsSorted prev
    → IsSorted next
    → all (kept next) prev ≡ true
    → sum_values prev ≤ sum_values next
unfolding get
total_mono [] next s t h = omega arith
total_mono ((k, v) ∷ prev) [] s t h = cc
total_mono ((k, v) ∷ prev) ((j, w) ∷ next) s t h = ground (
  arith,
  total_mono ((k, v) ∷ prev) next s t.1,
  total_mono prev next s.1 t.1,
  kept-cons j w next prev,
  Above-trans j k prev,
  get-Above j k next,
)
