-- ===== src/Targeting/Values.antt =====
-- `Error`, `Value` and its conversions. `serde_json::Number`, `f64` and the decimal parser of
-- `UnifiedNum` are parameters.
use adex_validator_stack_rus.Prelude.{
  ℕ, zero, suc, ◌≡◌, Bool, true, false, not, ◌&&◌, ◌||◌, Option, none, some, List, [], ◌∷◌, ◌==◌,
  if◌then◌else◌, ℤ, Result, ok, err, ok_or, bind_option,
}
use adex_validator_stack_rus.Prelude.U64
use Prim.Native.String.{String}
use adex_validator_stack_rus.Prelude.{◌>>=◌}
use text.Mathlib.Text.{◌==◌ as ◌=ˢ◌}
use adex_validator_stack_rus.UnifiedNum.{UnifiedNum}
use adex_validator_stack_rus.UnifiedNum.{IsU64, multiplier, from_whole_opt}

pub data Error : Type 0 where
  type_error unknown_variable : Error

-- `MathOperator`
pub data MathOperator : Type 0 where
  division multiplication modulus addition subtraction max_of min_of : MathOperator

-- `ComparisonOperator`
pub data ComparisonOperator : Type 0 where
  gt gte lt lte equals : ComparisonOperator

-- `serde_json::Number`, and what the source calls of it and of `f64`.
pub record Numbers : Type 1 where
  pub Number : Type 0
  pub F64 : Type 0
  pub as_u64 : Number → Option ℕ
  pub as_i64 : Number → Option ℤ
  pub as_f64 : Number → Option F64
  pub is_u64 : Number → Bool
  pub is_f64 : Number → Bool
  pub from_u64 : ℕ → Number
  pub from_i64 : ℤ → Number
  pub from_f64 : F64 → Option Number
  pub equal : Number → Number → Bool
  pub f64_math : MathOperator → F64 → F64 → F64
  pub f64_compare : ComparisonOperator → F64 → F64 → Bool
  pub f64_one : F64
  -- `trunc().to_u64()` and `(fract() * 10f64.powf(8)).round().to_u64()`
  pub f64_whole : F64 → Option ℕ
  pub f64_fraction : F64 → Option ℕ
  -- `UnifiedNum::from_str`
  pub parse_unified : String → Option UnifiedNum
  pub as_u64_from_u64 : (n : ℕ) → IsU64 n → as_u64 (from_u64 n) ≡ some n

mutual
  pub data Value (N : Type 0) : Type 0 where
    bool : Bool → Value N
    number : N → Value N
    string : String → Value N
    array : Items N → Value N
    unified : UnifiedNum → Value N

  pub data Items (N : Type 0) : Type 0 where
    nil : Items N
    cons : Value N → Items N → Items N

-- `Vec::len`, `Vec::get`, `iter().map(..).collect()`
unfoldable pub count : {N : Type 0} → Items N → ℕ
count nil = 0
count (cons v vs) = suc (count vs)

unfoldable pub get : {N : Type 0} → Items N → ℕ → Option (Value N)
get nil i = none
get (cons v vs) zero = some v
get (cons v vs) (suc i) = get vs i

unfoldable pub of_list : {N : Type 0} → List (Value N) → Items N
of_list [] = nil
of_list (v ∷ vs) = cons v (of_list vs)

module _ (num : Numbers) where
  -- `PartialEq for Value`, derived.
  unfoldable mutual
    pub value_eq : Value num.Number → Value num.Number → Bool
    value_eq (bool true) (bool b) = b
    value_eq (bool false) (bool b) = not b
    value_eq (number a) (number b) = num.equal a b
    value_eq (string a) (string b) = a =ˢ b
    value_eq (array xs) (array ys) = items_eq xs ys
    value_eq (unified a) (unified b) = a == b
    value_eq _ _ = false

    pub items_eq : Items num.Number → Items num.Number → Bool
    items_eq nil nil = true
    items_eq (cons x xs) (cons y ys) = value_eq x y && items_eq xs ys
    items_eq _ _ = false

  -- `Vec::contains`
  unfoldable pub contains : Items num.Number → Value num.Number → Bool
  unfolding value_eq
  contains nil v = false
  contains (cons x xs) v = value_eq x v || contains xs v

  -- `a.iter().any(|x| b.contains(x))`
  unfoldable pub any_in : Items num.Number → Items num.Number → Bool
  unfolding contains
  any_in nil ys = false
  any_in (cons x xs) ys = contains ys x || any_in xs ys

  unfoldable pub try_bool : Value num.Number → Result Error Bool
  try_bool (bool b) = ok b
  try_bool _ = err type_error

  unfoldable pub try_string : Value num.Number → Result Error String
  try_string (string s) = ok s
  try_string _ = err type_error

  unfoldable pub try_array : Value num.Number → Result Error (Items num.Number)
  try_array (array vs) = ok vs
  try_array _ = err type_error

  unfoldable pub try_number : Value num.Number → Result Error num.Number
  try_number (number n) = ok n
  try_number _ = err type_error

  -- `FromWhole<f64>::from_whole_opt`
  unfoldable pub from_whole_f64 : num.F64 → Option UnifiedNum
  from_whole_f64 x = bind_option (num.f64_whole x) λ whole.
      bind_option (U64.checked_mul whole multiplier)
        λ scaled. bind_option (num.f64_fraction x) λ fraction. U64.checked_add scaled fraction

  -- `TryFrom<Value> for UnifiedNum`
  unfoldable pub try_unified : Value num.Number → Result Error UnifiedNum
  unfolding from_whole_f64
  try_unified (string s) = ok_or type_error (num.parse_unified s)
  try_unified (unified u) = ok u
  try_unified (number n) =
      if num.is_u64 n
      then (ok_or type_error (num.as_u64 n) >>= λ w. ok_or type_error (from_whole_opt w))
      else if num.is_f64 n
      then (ok_or type_error (num.as_f64 n) >>= λ x. ok_or type_error (from_whole_f64 x))
      else err type_error
  try_unified _ = err type_error
