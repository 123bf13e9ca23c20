-- ===== src/Targeting/Operators.antt =====
-- The operators on two evaluated values: on `Number`s by their narrowest common representation, on
-- amounts if either side is one.
use adex_validator_stack_rus.Prelude.{
  ℕ, ◌%◌, min, max, Bool, true, false, not, Option, none, some, ltb, leb, ◌==◌, if◌then◌else◌,
  Build, ℤ, Outcome, returns, panics, Result, ok, err, aborts, ok_or,
}
use adex_validator_stack_rus.Prelude.U64
use adex_validator_stack_rus.Prelude.{◌>>=◌}
use adex_validator_stack_rus.Prelude.U64
use adex_validator_stack_rus.Prelude.{◌>>=◌}
use adex_validator_stack_rus.Targeting.Values.{
  Error, type_error, MathOperator, division, multiplication, modulus, addition, subtraction, max_of,
  min_of, ComparisonOperator, gt, gte, lt, lte, equals, Numbers, Value, bool, number, string, array,
  unified, count, items_eq, try_unified,
}
use adex_validator_stack_rus.Targeting.I64
use adex_validator_stack_rus.UnifiedNum.{UnifiedNum, multiplier}
use text.Mathlib.Text.{◌==◌ as ◌=ˢ◌}
use adex_validator_stack_rus.UnifiedNum.Ratio.{Ratio, RatioOps, div}

-- `handle_u64`
unfoldable pub handle_u64 : ℕ → ℕ → MathOperator → Option ℕ
handle_u64 a b division = U64.checked_div a b
handle_u64 a b multiplication = U64.checked_mul a b
handle_u64 a b modulus = U64.checked_rem a b
handle_u64 a b addition = U64.checked_add a b
handle_u64 a b subtraction = U64.checked_sub a b
handle_u64 a b max_of = some (max a b)
handle_u64 a b min_of = some (min a b)

-- `handle_i64`
unfoldable pub handle_i64 : ℤ → ℤ → MathOperator → Option ℤ
unfolding I64.checked_div I64.checked_mul I64.checked_rem I64.checked_add I64.checked_sub
handle_i64 a b division = I64.checked_div a b
handle_i64 a b multiplication = I64.checked_mul a b
handle_i64 a b modulus = I64.checked_rem a b
handle_i64 a b addition = I64.checked_add a b
handle_i64 a b subtraction = I64.checked_sub a b
handle_i64 a b max_of = some (I64.larger a b)
handle_i64 a b min_of = some (I64.smaller a b)

-- `handle_comparisons`, for `u64` and for `i64`.
unfoldable pub compare_u64 : ℕ → ℕ → ComparisonOperator → Bool
compare_u64 a b lt = ltb a b
compare_u64 a b lte = leb a b
compare_u64 a b gt = ltb b a
compare_u64 a b gte = leb b a
compare_u64 a b equals = a == b

unfoldable pub compare_i64 : ℤ → ℤ → ComparisonOperator → Bool
compare_i64 a b lt = I64.lt a b
compare_i64 a b lte = not (I64.lt b a)
compare_i64 a b gt = I64.lt b a
compare_i64 a b gte = not (I64.lt a b)
compare_i64 a b equals = I64.eq a b

-- The two parts of the crate `num` that the operators on amounts use: `Ratio`, and its product
-- without a check.
pub record Arithmetic : Type 0 where
  pub build : Build
  pub ratio : RatioOps
  pub ratio_mul : Ratio → Ratio → Outcome Ratio

-- What an operator returns, as a value.
abbrev pub returned {ℓ} : {E : Type ℓ} {A : Type 0} → Outcome A → Result E A
returned (returns a) = ok a
returned panics = aborts

-- `(Some(lhs), Some(rhs))`
abbrev pub both {ℓ} : {A : Type ℓ} → Option A → Option A → Option (A × A)
both (some a) (some b) = some (a, b)
both _ _ = none

module _ (num : Numbers) where
  -- `math_operator`
  unfoldable pub math_operator : num.Number → num.Number → MathOperator → Result Error num.Number
  unfolding handle_u64 handle_i64
  math_operator a b op = elim (both (num.as_u64 a) (num.as_u64 b)) [
    | some (m, n) ↦ ok_or type_error (handle_u64 m n op) >>= λ r. ok (num.from_u64 r)
    | none ↦ elim (both (num.as_i64 a) (num.as_i64 b)) [
      | some (m, n) ↦ ok_or type_error (handle_i64 m n op) >>= λ r. ok (num.from_i64 r)
      | none ↦ elim (both (num.as_f64 a) (num.as_f64 b)) [
        | some (x, y) ↦ ok_or type_error (num.from_f64 (num.f64_math op x y))
        | none ↦ err type_error
      ]
    ]
  ]

  -- `compare_numbers`
  unfoldable pub compare_numbers : num.Number → num.Number → ComparisonOperator → Result Error Bool
  unfolding compare_u64 compare_i64
  compare_numbers a b op = elim (both (num.as_u64 a) (num.as_u64 b)) [
    | some (m, n) ↦ ok (compare_u64 m n op)
    | none ↦ elim (both (num.as_i64 a) (num.as_i64 b)) [
      | some (m, n) ↦ ok (compare_i64 m n op)
      | none ↦ elim (both (num.as_f64 a) (num.as_f64 b)) [
        | some (x, y) ↦ ok (num.f64_compare op x y)
        | none ↦ err type_error
      ]
    ]
  ]

  -- The match that the operators share: amounts if either side is one, else two `Number`s.
  unfoldable pub on_values :
      (UnifiedNum → UnifiedNum → Result Error (Value num.Number))
      → (num.Number → num.Number → Result Error (Value num.Number))
      → Value num.Number
      → Value num.Number
      → Result Error (Value num.Number)
  unfolding try_unified
  on_values f g (unified a) v = try_unified num v >>= λ b. f a b
  on_values f g v (unified b) = try_unified num v >>= λ a. f a b
  on_values f g (number a) (number b) = g a b
  on_values f g _ _ = err type_error

  -- An operator on amounts whose result is an amount, and one on `Number`s.
  abbrev pub amounts :
      (UnifiedNum → UnifiedNum → Outcome UnifiedNum)
      → UnifiedNum
      → UnifiedNum
      → Result Error (Value num.Number)
  amounts f a b = returned (f a b) >>= λ c. ok (unified c)

  abbrev pub numbers : MathOperator → num.Number → num.Number → Result Error (Value num.Number)
  unfolding math_operator
  numbers op a b = math_operator a b op >>= λ c. ok (number c)

  abbrev pub comparing :
      ComparisonOperator → Value num.Number → Value num.Number → Result Error (Value num.Number)
  unfolding on_values compare_u64 compare_numbers
  comparing op =
      on_values (λ a b. ok (bool (compare_u64 a b op)))
        λ a b. compare_numbers a b op >>= λ c. ok (bool c)

-- `Mul for UnifiedNum` and `Rem for UnifiedNum`; the remainder by zero panics.
unfoldable pub mul_amounts : Arithmetic → UnifiedNum → UnifiedNum → Outcome UnifiedNum
mul_amounts ar a b = elim (ar.ratio_mul (ar.ratio.new a 1) (ar.ratio.new b multiplier)) [
  | panics ↦ panics
  | returns r ↦ returns (ar.ratio.round r)
]

unfoldable pub rem_amounts : UnifiedNum → UnifiedNum → Outcome UnifiedNum
rem_amounts a b = if b == 0 then panics else returns (a % b)

module _ (num : Numbers) (ar : Arithmetic) where
  -- The arms of `eval`, given the two values.
  unfoldable pub div_values : Value num.Number → Value num.Number → Result Error (Value num.Number)
  unfolding on_values math_operator div
  div_values = on_values num (amounts num (div ar.ratio)) (numbers num division)

  unfoldable pub mul_values : Value num.Number → Value num.Number → Result Error (Value num.Number)
  unfolding on_values math_operator mul_amounts
  mul_values = on_values num (amounts num (mul_amounts ar)) (numbers num multiplication)

  unfoldable pub mod_values : Value num.Number → Value num.Number → Result Error (Value num.Number)
  unfolding on_values math_operator rem_amounts
  mod_values = on_values num (amounts num rem_amounts) (numbers num modulus)

  unfoldable pub add_values : Value num.Number → Value num.Number → Result Error (Value num.Number)
  unfolding on_values math_operator
  add_values = on_values num (amounts num (U64.add ar.build)) (numbers num addition)

  unfoldable pub sub_values : Value num.Number → Value num.Number → Result Error (Value num.Number)
  unfolding on_values math_operator
  sub_values = on_values num (amounts num (U64.sub ar.build)) (numbers num subtraction)

  unfoldable pub max_values : Value num.Number → Value num.Number → Result Error (Value num.Number)
  unfolding on_values math_operator
  max_values = on_values num (amounts num λ a b. returns (max a b)) (numbers num max_of)

  unfoldable pub min_values : Value num.Number → Value num.Number → Result Error (Value num.Number)
  unfolding on_values math_operator
  min_values = on_values num (amounts num λ a b. returns (min a b)) (numbers num min_of)

  unfoldable pub lt_values : Value num.Number → Value num.Number → Result Error (Value num.Number)
  unfolding on_values compare_u64 compare_numbers
  lt_values = comparing num lt

  unfoldable pub lte_values : Value num.Number → Value num.Number → Result Error (Value num.Number)
  unfolding on_values compare_u64 compare_numbers
  lte_values = comparing num lte

  unfoldable pub gt_values : Value num.Number → Value num.Number → Result Error (Value num.Number)
  unfolding on_values compare_u64 compare_numbers
  gt_values = comparing num gt

  unfoldable pub gte_values : Value num.Number → Value num.Number → Result Error (Value num.Number)
  unfolding on_values compare_u64 compare_numbers
  gte_values = comparing num gte

  -- The arm of `Eq`, which compares Booleans, strings and arrays too.
  unfoldable pub eq_values : Value num.Number → Value num.Number → Result Error (Value num.Number)
  unfolding on_values compare_u64 compare_numbers items_eq
  eq_values (bool true) (bool b) = ok (bool b)
  eq_values (bool false) (bool b) = ok (bool (not b))
  eq_values (string a) (string b) = ok (bool (a =ˢ b))
  eq_values (array xs) (array ys) =
      if count xs == count ys then ok (bool (items_eq num xs ys)) else ok (bool false)
  eq_values a b = comparing num equals a b
