-- ===== src/Targeting/Eval.antt =====
-- `eval` of primitives/src/targeting/eval.rs. What the input knows is a function of the variable's
-- name; the output is the state.
use adex_validator_stack_rus.Prelude.{
  Bool, true, false, not, ◌&&◌, ◌||◌, Option, none, some, map, if◌then◌else◌, Result, ok, err,
  aborts, ok_or,
}
use adex_validator_stack_rus.Prelude.Actions.{Action, lift, pure, ◌>>=◌}
use Prim.Native.String.{String}
use text.Mathlib.Text.{◌==◌ as ◌=ˢ◌, starts_with as text_starts_with}
use adex_validator_stack_rus.Campaign.{impression, click}
use adex_validator_stack_rus.Targeting.Values.{
  Error, type_error, unknown_variable, Numbers, Value, bool, string, array, unified, of_list,
  contains, any_in, try_bool, try_string, try_array, try_number, try_unified,
}
use adex_validator_stack_rus.Targeting.Values.{get as get_item}
use adex_validator_stack_rus.Targeting.Operators.{
  Arithmetic, div_values, mul_values, mod_values, add_values, sub_values, max_values, min_values,
  lt_values, lte_values, gt_values, gte_values, eq_values,
}
use adex_validator_stack_rus.Targeting.Texts.{ends_with as text_ends_with, split as text_split}
use adex_validator_stack_rus.Targeting.Rules.{
  Rule, Function, function, value, mul_div, div, mul, mod_rule, add, sub, max_rule, min_rule,
  if_then, if_not, if_else, and, or, xor, not_rule, lt, lte, gt, gte, eq, neq, in_array, nin, at,
  between, split, starts_with, ends_with, only_show_if, intersects, do_rule, get, set, bn, Output,
  try_get, set_show, set_boost, set_price,
}

-- `a ^ b`
abbrev pub exclusive : Bool → Bool → Bool
exclusive true b = not b
exclusive false b = b

module _ (num : Numbers) where
  -- The evaluation of a rule.
  abbrev pub Evaluation : Type 0
  Evaluation = Action (Output num) Error (Option (Value num.Number))

  -- `?` and `ok_or(Error::TypeError)`
  abbrev pub required : Evaluation → Action (Output num) Error (Value num.Number)
  required m = do v ← m; lift (ok_or type_error v)

  -- `.try_bool()?` and the like.
  abbrev pub required_as :
      {A : Type 0} → (Value num.Number → Result Error A) → Evaluation → Action (Output num) Error A
  required_as convert m = do v ← required m; lift (convert v)

  abbrev pub returning : Value num.Number → Evaluation
  returning v = pure (some v)

  -- An operator on two values, both evaluated first.
  unfoldable pub operands :
      (Value num.Number → Value num.Number → Result Error (Value num.Number))
      → Evaluation
      → Evaluation
      → Evaluation
  operands f m1 m2 = do a ← required m1; b ← required m2; v ← lift (f a b); returning v

  -- An operator on two Booleans, both evaluated first.
  unfoldable pub on_bools : (Bool → Bool → Bool) → Evaluation → Evaluation → Evaluation
  unfolding try_bool
  on_bools f m1 m2 = do
    a ← required_as (try_bool num) m1
    b ← required_as (try_bool num) m2
    returning (bool (f a b))

  unfoldable pub negate : Evaluation → Evaluation
  unfolding try_bool
  negate m = do b ← required_as (try_bool num) m; returning (bool (not b))

  -- The branches are evaluated only if chosen.
  unfoldable pub choose : Evaluation → Evaluation → Evaluation → Evaluation
  unfolding try_bool
  choose condition m1 m2 = do
    b ← required_as (try_bool num) condition
    elim b [ true ↦ m1 | false ↦ m2 ]

  unfoldable pub is_in : Evaluation → Evaluation → Evaluation
  unfolding try_array contains
  is_in m1 m2 = do
    a ← required_as (try_array num) m1
    b ← required m2
    returning (bool (contains num a b))

  unfoldable pub intersecting : Evaluation → Evaluation → Evaluation
  unfolding try_array any_in
  intersecting m1 m2 = do
    a ← required_as (try_array num) m1
    b ← required_as (try_array num) m2
    returning (bool (any_in num a b))

  unfoldable pub on_strings :
      (String → String → Value num.Number) → Evaluation → Evaluation → Evaluation
  unfolding try_string
  on_strings f m1 m2 = do
    s ← required_as (try_string num) m1
    t ← required_as (try_string num) m2
    returning (f s t)

  -- `array_value.get(index)`, then `swap_remove`
  unfoldable pub item_at : Evaluation → Evaluation → Evaluation
  unfolding try_array try_number get_item
  item_at m1 m2 = do
    items ← required_as (try_array num) m1
    n ← required_as (try_number num) m2
    i ← lift (ok_or type_error (num.as_u64 n))
    v ← lift (ok_or type_error (get_item items i))
    returning v

  -- The match of `Function::Set`, given the evaluation of its rule.
  unfoldable pub assign : String → Evaluation → Evaluation
  unfolding try_bool try_number try_unified set_price
  assign key m =
      if key =ˢ "boost"
      then (do
        n ← required_as (try_number num) m
        x ← lift (ok_or type_error (num.as_f64 n))
        λ out. (ok none, set_boost num x out))
      else if key =ˢ "show"
      then (do b ← required_as (try_bool num) m; λ out. (ok none, set_show num b out))
      else if key =ˢ "price.IMPRESSION"
      then (do
        p ← required_as (try_unified num) m
        λ out. (ok none, set_price num impression p out))
      else if key =ˢ "price.CLICK"
      then (do p ← required_as (try_unified num) m; λ out. (ok none, set_price num click p out))
      else lift (err unknown_variable)

  -- `Some(output.try_get(key)?)`
  abbrev pub found : Result Error (Value num.Number) → Result Error (Option (Value num.Number))
  found (ok v) = ok (some v)
  found (err e) = err e
  found aborts = aborts

  -- The answer of the input, else that of the output.
  abbrev pub first_known :
      Result Error (Value num.Number)
      → Result Error (Value num.Number)
      → Result Error (Option (Value num.Number))
  first_known (ok v) r = ok (some v)
  first_known (err unknown_variable) r = found r
  first_known (err type_error) r = err type_error
  first_known aborts r = aborts

  -- The arm of `Function::Get`.
  unfoldable pub variable : (String → Result Error (Value num.Number)) → String → Evaluation
  unfolding try_get
  variable input key out = (first_known (input key) (try_get num out key), out)

module _ (num : Numbers) (ar : Arithmetic) (input : String → Result Error (Value num.Number)) where
  unfoldable mutual
    unfolding operands on_bools negate choose is_in intersecting on_strings item_at assign variable
        div_values mul_values mod_values add_values sub_values max_values min_values lt_values
        lte_values gt_values gte_values eq_values try_bool try_unified text_ends_with text_split
        of_list

    -- `eval`
    pub eval : Rule num.Number → Evaluation num
    eval (value v) = returning num v
    eval (function f) = eval_function f

    pub eval_function : Function num.Number → Evaluation num
    eval_function (mul_div a b c) =
        operands num (div_values num ar) (operands num (mul_values num ar) (eval a) (eval b))
          (eval c)
    eval_function (div a b) = operands num (div_values num ar) (eval a) (eval b)
    eval_function (mul a b) = operands num (mul_values num ar) (eval a) (eval b)
    eval_function (mod_rule a b) = operands num (mod_values num ar) (eval a) (eval b)
    eval_function (add a b) = operands num (add_values num ar) (eval a) (eval b)
    eval_function (sub a b) = operands num (sub_values num ar) (eval a) (eval b)
    eval_function (max_rule a b) = operands num (max_values num ar) (eval a) (eval b)
    eval_function (min_rule a b) = operands num (min_values num ar) (eval a) (eval b)
    eval_function (if_then a b) = choose num (eval a) (eval b) (pure none)
    eval_function (if_not a b) = choose num (eval a) (pure none) (eval b)
    eval_function (if_else a b c) = choose num (eval a) (eval b) (eval c)
    eval_function (and a b) = on_bools num ◌&&◌ (eval a) (eval b)
    eval_function (or a b) = on_bools num ◌||◌ (eval a) (eval b)
    eval_function (xor a b) = on_bools num exclusive (eval a) (eval b)
    eval_function (not_rule a) = negate num (eval a)
    eval_function (lt a b) = operands num (lt_values num ar) (eval a) (eval b)
    eval_function (lte a b) = operands num (lte_values num ar) (eval a) (eval b)
    eval_function (gt a b) = operands num (gt_values num ar) (eval a) (eval b)
    eval_function (gte a b) = operands num (gte_values num ar) (eval a) (eval b)
    eval_function (eq a b) = operands num (eq_values num ar) (eval a) (eval b)
    eval_function (neq a b) = negate num (operands num (eq_values num ar) (eval a) (eval b))
    eval_function (in_array a b) = is_in num (eval a) (eval b)
    eval_function (nin a b) = negate num (is_in num (eval a) (eval b))
    eval_function (between a b c) =
        on_bools num ◌&&◌ (operands num (gte_values num ar) (eval c) (eval a))
          (operands num (lte_values num ar) (eval c) (eval b))
    eval_function (at a b) = item_at num (eval a) (eval b)
    eval_function (split a b) =
        on_strings num (λ s t. array (of_list (map (λ p. string p) (text_split s t)))) (eval a)
          (eval b)
    eval_function (starts_with a b) =
        on_strings num (λ s t. bool (text_starts_with s t)) (eval a) (eval b)
    eval_function (ends_with a b) =
        on_strings num (λ s t. bool (text_ends_with s t)) (eval a) (eval b)
    eval_function (only_show_if a) = do
      b ← required_as num (try_bool num) (eval a)
      assign num "show" (returning num (bool b))
    eval_function (intersects a b) = intersecting num (eval a) (eval b)
    eval_function (do_rule a) = eval a
    eval_function (get key) = variable num input key
    eval_function (set key a) = assign num key (eval a)
    eval_function (bn v) = do u ← lift (try_unified num v); returning num (unified u)
