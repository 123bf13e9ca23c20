-- ===== src/Prelude/U64.antt =====
-- The `u64` operations of the standard library. A value is a number; the checked operations
-- return `none` where the exact result does not fit 64 bits.
use Prim.Native.Nat.{ℕ, ◌+◌, ◌-◌, ◌*◌, ◌/◌, ◌%◌}
use mathlib.Core.Option.{Option, none, some}
use adex_validator_stack_rus.Prelude.Tests.{leb, ◌==◌, if◌then◌else◌}
use adex_validator_stack_rus.Prelude.Results.{Build, debug, release, Outcome, returns, panics}

-- `u64::MAX`
abbrev pub max_value : ℕ
max_value = 18446744073709551615

abbrev pub modulus : ℕ
modulus = 18446744073709551616

abbrev pub fits : ℕ → Option ℕ
fits n = if leb n max_value then some n else none

abbrev pub checked_add : ℕ → ℕ → Option ℕ
checked_add a b = fits (a + b)

abbrev pub checked_mul : ℕ → ℕ → Option ℕ
checked_mul a b = fits (a * b)

abbrev pub checked_sub : ℕ → ℕ → Option ℕ
checked_sub a b = if leb b a then some (a - b) else none

abbrev pub checked_div : ℕ → ℕ → Option ℕ
checked_div a b = if b == 0 then none else some (a / b)

abbrev pub checked_rem : ℕ → ℕ → Option ℕ
checked_rem a b = if b == 0 then none else some (a % b)

-- The plain operators, whose overflow depends on the build.
abbrev pub overflow : Build → ℕ → Outcome ℕ
overflow debug wrapped = panics
overflow release wrapped = returns wrapped

abbrev pub add : Build → ℕ → ℕ → Outcome ℕ
add m a b = if leb (a + b) max_value then returns (a + b) else overflow m ((a + b) % modulus)

abbrev pub sub : Build → ℕ → ℕ → Outcome ℕ
sub m a b = if leb b a then returns (a - b) else overflow m (a + modulus - b)
