-- ===== src/Tests/Budget.antt =====
-- The theorems on the budgets left at concrete data.
use adex_validator_stack_rus.Prelude.{List, ℕ, none, some, [], ◌∷◌, pos, negsuc}
use adex_validator_stack_rus.Tests.Memory.{Store, put}

-- Campaign 5 has 50 left, campaign 6 is overspent.
abbrev pub store : Store
store = put 5 (some (pos 50)) (put 6 (some (negsuc 2)) (λ k. none))

abbrev taken : Store
taken = put 5 (some (pos 20)) store

abbrev given : Store
given = put 5 (some (pos 50)) taken

abbrev fresh : Store
fresh = put 8 (some (pos 4)) store

abbrev pairs : List (ℕ × ℕ)
pairs = (5, 50) ∷ (6, 0) ∷ (7, 0) ∷ []
