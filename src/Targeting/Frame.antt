-- ===== src/Targeting/Frame.antt =====
-- What evaluating a rule leaves unchanged.
use adex_validator_stack_rus.Prelude.{
  ◌≡◌, refl, ◌∙◌, Bool, true, false, not, ◌&&◌, ◌||◌, none, map, Result, ok, err, aborts, ok_or,
}
use adex_validator_stack_rus.Prelude.Actions.{pure, Action, lift, ◌>>=◌}
use Prim.Native.String.{String}
use text.Mathlib.Text.{starts_with as text_starts_with}
use adex_validator_stack_rus.Targeting.Texts.{ends_with as text_ends_with, split as text_split}
use adex_validator_stack_rus.Targeting.Operators.{
  div_values, mul_values, mod_values, add_values, sub_values, max_values, min_values, lt_values,
  lte_values, gt_values, gte_values, eq_values,
}
use adex_validator_stack_rus.Targeting.Values.{of_list}
use adex_validator_stack_rus.Targeting.Values.{array, string, unified}
use adex_validator_stack_rus.Targeting.Eval.{exclusive, returning}
use adex_validator_stack_rus.Targeting.Values.{
  Error, type_error, Numbers, Value, bool, unified, try_bool, try_string, try_array, try_number,
  try_unified,
}
use adex_validator_stack_rus.Targeting.Values.{contains, any_in}
use adex_validator_stack_rus.Targeting.Values.{get as get_item}
use adex_validator_stack_rus.Targeting.Operators.{Arithmetic}
use adex_validator_stack_rus.Targeting.Rules.{
  Rule, Function, function, value, mul_div, div, mul, mod_rule, add, sub, max_rule, min_rule,
  if_then, if_not, if_else, and, or, xor, not_rule, lt, lte, gt, gte, eq, neq, in_array, nin, at,
  between, split, starts_with, ends_with, only_show_if, intersects, do_rule, get, set, bn, Output,
}
use adex_validator_stack_rus.Targeting.Eval.{
  Evaluation, operands, on_bools, negate, choose, is_in, intersecting, on_strings, item_at,
  variable, required, required_as, returning, eval, eval_function,
}

-- A rule without `Set` and `OnlyShowIf`.
unfoldable mutual
  pub IsReading : {N : Type 0} → Rule N → Type 0
  IsReading (value v) = Unit {0}
  IsReading (function f) = IsReadingFunction f

  pub IsReadingFunction : {N : Type 0} → Function N → Type 0
  IsReadingFunction (mul_div a b c) = IsReading a × IsReading b × IsReading c
  IsReadingFunction (div a b) = IsReading a × IsReading b
  IsReadingFunction (mul a b) = IsReading a × IsReading b
  IsReadingFunction (mod_rule a b) = IsReading a × IsReading b
  IsReadingFunction (add a b) = IsReading a × IsReading b
  IsReadingFunction (sub a b) = IsReading a × IsReading b
  IsReadingFunction (max_rule a b) = IsReading a × IsReading b
  IsReadingFunction (min_rule a b) = IsReading a × IsReading b
  IsReadingFunction (if_then a b) = IsReading a × IsReading b
  IsReadingFunction (if_not a b) = IsReading a × IsReading b
  IsReadingFunction (if_else a b c) = IsReading a × IsReading b × IsReading c
  IsReadingFunction (and a b) = IsReading a × IsReading b
  IsReadingFunction (or a b) = IsReading a × IsReading b
  IsReadingFunction (xor a b) = IsReading a × IsReading b
  IsReadingFunction (not_rule a) = IsReading a
  IsReadingFunction (lt a b) = IsReading a × IsReading b
  IsReadingFunction (lte a b) = IsReading a × IsReading b
  IsReadingFunction (gt a b) = IsReading a × IsReading b
  IsReadingFunction (gte a b) = IsReading a × IsReading b
  IsReadingFunction (eq a b) = IsReading a × IsReading b
  IsReadingFunction (neq a b) = IsReading a × IsReading b
  IsReadingFunction (in_array a b) = IsReading a × IsReading b
  IsReadingFunction (nin a b) = IsReading a × IsReading b
  IsReadingFunction (between a b c) = IsReading a × IsReading b × IsReading c
  IsReadingFunction (at a b) = IsReading a × IsReading b
  IsReadingFunction (split a b) = IsReading a × IsReading b
  IsReadingFunction (starts_with a b) = IsReading a × IsReading b
  IsReadingFunction (ends_with a b) = IsReading a × IsReading b
  IsReadingFunction (only_show_if a) = ⊥
  IsReadingFunction (intersects a b) = IsReading a × IsReading b
  IsReadingFunction (do_rule a) = IsReading a
  IsReadingFunction (get key) = Unit {0}
  IsReadingFunction (set key a) = ⊥
  IsReadingFunction (bn v) = Unit {0}

module _ {num : Numbers} where
  -- An action leaves the output as it is.
  abbrev pub Keeps : {A : Type 0} → Action (Output num) Error A → Type 0
  Keeps m = (out : Output num) → (m out).1 ≡ out

  -- What follows a result that left the output as it was.
  after-Keeps :
      {A B : Type 0} (k : A → Action (Output num) Error B) (out : Output num)
      (p : Result Error A × Output num)
      → p.1 ≡ out
      → ((a : A) → Keeps (k a))
      → (((λ s. p) >>= k) out).1 ≡ out
  after-Keeps k out (ok a, s) h hk = hk a s ∙ h
  after-Keeps k out (err f, s) h hk = h
  after-Keeps k out (aborts, s) h hk = h

  bind-Keeps :
      {A B : Type 0} (m : Action (Output num) Error A) (k : A → Action (Output num) Error B)
      → Keeps m
      → ((a : A) → Keeps (k a))
      → Keeps (m >>= k)
  bind-Keeps m k hm hk out = after-Keeps k out (m out) (hm out) hk

  lift-Keeps : {A : Type 0} (r : Result Error A) → Keeps (lift r)
  lift-Keeps r out = refl

  -- Two actions, and a result of both.
  both-Keeps :
      {A B C : Type 0} (m1 : Action (Output num) Error A) (m2 : Action (Output num) Error B)
      (k : A → B → Action (Output num) Error C)
      → Keeps m1
      → Keeps m2
      → ((a : A) (b : B) → Keeps (k a b))
      → Keeps (m1 >>= λ a. m2 >>= λ b. k a b)
  both-Keeps m1 m2 k h1 h2 hk =
      bind-Keeps m1 (λ a. m2 >>= λ b. k a b) h1 λ a. bind-Keeps m2 (λ b. k a b) h2 (hk a)

  required-Keeps : (m : Evaluation num) → Keeps m → Keeps (required num m)
  required-Keeps m h = bind-Keeps m (λ o. lift (ok_or type_error o)) h λ o out. refl

  required_as-Keeps :
      {A : Type 0} (convert : Value num.Number → Result Error A) (m : Evaluation num)
      → Keeps m
      → Keeps (required_as num convert m)
  required_as-Keeps convert m h =
      bind-Keeps (required num m) (λ v. lift (convert v)) (required-Keeps m h) λ o out. refl

  -- A lifted result, and what follows it.
  given-Keeps :
      {A B : Type 0} (r : Result Error A) (k : A → Action (Output num) Error B)
      → ((a : A) → Keeps (k a))
      → Keeps (lift r >>= k)
  given-Keeps r k = bind-Keeps (lift r) k (lift-Keeps r)

  operands-Keeps :
      (f : Value num.Number → Value num.Number → Result Error (Value num.Number))
      (m1 m2 : Evaluation num)
      → Keeps m1
      → Keeps m2
      → Keeps (operands num f m1 m2)
  unfolding operands
  operands-Keeps f m1 m2 h1 h2 =
      both-Keeps (required num m1) (required num m2) (λ a b. lift (f a b) >>= λ v. returning num v)
        (required-Keeps m1 h1) (required-Keeps m2 h2)
        λ a b. given-Keeps (f a b) (λ v. returning num v) λ v out. refl

  on_bools-Keeps :
      (f : Bool → Bool → Bool) (m1 m2 : Evaluation num)
      → Keeps m1
      → Keeps m2
      → Keeps (on_bools num f m1 m2)
  unfolding on_bools
  on_bools-Keeps f m1 m2 h1 h2 =
      both-Keeps (required_as num (try_bool num) m1) (required_as num (try_bool num) m2)
        (λ a b. returning num (bool (f a b))) (required_as-Keeps (try_bool num) m1 h1)
        (required_as-Keeps (try_bool num) m2 h2) λ a b out. refl

  negate-Keeps : (m : Evaluation num) → Keeps m → Keeps (negate num m)
  unfolding negate
  negate-Keeps m h =
      bind-Keeps (required_as num (try_bool num) m) (λ b. returning num (bool (not b)))
        (required_as-Keeps (try_bool num) m h) λ b out. refl

  choose-Keeps :
      (m m1 m2 : Evaluation num) → Keeps m → Keeps m1 → Keeps m2 → Keeps (choose num m m1 m2)
  unfolding choose
  choose-Keeps m m1 m2 h h1 h2 =
      bind-Keeps (required_as num (try_bool num) m) (λ b. elim b [ true ↦ m1 | false ↦ m2 ])
        (required_as-Keeps (try_bool num) m h)
        λ b. elim b as (λ c. Keeps (elim c [ true ↦ m1 | false ↦ m2 ])) [ true ↦ h1 | false ↦ h2 ]

  is_in-Keeps : (m1 m2 : Evaluation num) → Keeps m1 → Keeps m2 → Keeps (is_in num m1 m2)
  unfolding is_in
  is_in-Keeps m1 m2 h1 h2 =
      both-Keeps (required_as num (try_array num) m1) (required num m2)
        (λ a b. returning num (bool (contains num a b))) (required_as-Keeps (try_array num) m1 h1)
        (required-Keeps m2 h2) λ a b out. refl

  intersecting-Keeps :
      (m1 m2 : Evaluation num) → Keeps m1 → Keeps m2 → Keeps (intersecting num m1 m2)
  unfolding intersecting
  intersecting-Keeps m1 m2 h1 h2 =
      both-Keeps (required_as num (try_array num) m1) (required_as num (try_array num) m2)
        (λ a b. returning num (bool (any_in num a b))) (required_as-Keeps (try_array num) m1 h1)
        (required_as-Keeps (try_array num) m2 h2) λ a b out. refl

  on_strings-Keeps :
      (f : String → String → Value num.Number) (m1 m2 : Evaluation num)
      → Keeps m1
      → Keeps m2
      → Keeps (on_strings num f m1 m2)
  unfolding on_strings
  on_strings-Keeps f m1 m2 h1 h2 =
      both-Keeps (required_as num (try_string num) m1) (required_as num (try_string num) m2)
        (λ a b. returning num (f a b)) (required_as-Keeps (try_string num) m1 h1)
        (required_as-Keeps (try_string num) m2 h2) λ a b out. refl

  item_at-Keeps : (m1 m2 : Evaluation num) → Keeps m1 → Keeps m2 → Keeps (item_at num m1 m2)
  unfolding item_at
  item_at-Keeps m1 m2 h1 h2 =
      both-Keeps (required_as num (try_array num) m1) (required_as num (try_number num) m2)
        (λ items n. lift (ok_or type_error (num.as_u64 n)) >>= λ i.
          lift (ok_or type_error (get_item items i)) >>= λ v. returning num v)
        (required_as-Keeps (try_array num) m1 h1) (required_as-Keeps (try_number num) m2 h2)
        λ items n.
          given-Keeps (ok_or type_error (num.as_u64 n))
            (λ i. lift (ok_or type_error (get_item items i)) >>= λ v. returning num v)
            λ i.
              given-Keeps (ok_or type_error (get_item items i)) (λ v. returning num v) λ v out. refl

  variable-Keeps :
      (input : String → Result Error (Value num.Number)) (key : String)
      → Keeps (variable num input key)
  unfolding variable
  variable-Keeps input key out = refl

module _ {num : Numbers} (ar : Arithmetic) (input : String → Result Error (Value num.Number)) where
  abbrev run : Rule num.Number → Evaluation num
  unfolding eval
  run r = eval num ar input r

  mutual
    unfolding IsReading eval

    eval-Keeps : (r : Rule num.Number) → IsReading r → Keeps (eval num ar input r)
    eval-Keeps (value v) h = λ out. refl
    eval-Keeps (function f) h = eval_function-Keeps f h

    eval_function-Keeps :
        (f : Function num.Number) → IsReadingFunction f → Keeps (eval_function num ar input f)
    eval_function-Keeps (mul_div a b c) h =
        operands-Keeps (div_values num ar) (operands num (mul_values num ar) (run a) (run b))
          (run c)
          (operands-Keeps (mul_values num ar) (run a) (run b) (eval-Keeps a h.0) (eval-Keeps b h.1))
          (eval-Keeps c h.2)
    eval_function-Keeps (div a b) h =
        operands-Keeps (div_values num ar) (run a) (run b) (eval-Keeps a h.0) (eval-Keeps b h.1)
    eval_function-Keeps (mul a b) h =
        operands-Keeps (mul_values num ar) (run a) (run b) (eval-Keeps a h.0) (eval-Keeps b h.1)
    eval_function-Keeps (mod_rule a b) h =
        operands-Keeps (mod_values num ar) (run a) (run b) (eval-Keeps a h.0) (eval-Keeps b h.1)
    eval_function-Keeps (add a b) h =
        operands-Keeps (add_values num ar) (run a) (run b) (eval-Keeps a h.0) (eval-Keeps b h.1)
    eval_function-Keeps (sub a b) h =
        operands-Keeps (sub_values num ar) (run a) (run b) (eval-Keeps a h.0) (eval-Keeps b h.1)
    eval_function-Keeps (max_rule a b) h =
        operands-Keeps (max_values num ar) (run a) (run b) (eval-Keeps a h.0) (eval-Keeps b h.1)
    eval_function-Keeps (min_rule a b) h =
        operands-Keeps (min_values num ar) (run a) (run b) (eval-Keeps a h.0) (eval-Keeps b h.1)
    eval_function-Keeps (lt a b) h =
        operands-Keeps (lt_values num ar) (run a) (run b) (eval-Keeps a h.0) (eval-Keeps b h.1)
    eval_function-Keeps (lte a b) h =
        operands-Keeps (lte_values num ar) (run a) (run b) (eval-Keeps a h.0) (eval-Keeps b h.1)
    eval_function-Keeps (gt a b) h =
        operands-Keeps (gt_values num ar) (run a) (run b) (eval-Keeps a h.0) (eval-Keeps b h.1)
    eval_function-Keeps (gte a b) h =
        operands-Keeps (gte_values num ar) (run a) (run b) (eval-Keeps a h.0) (eval-Keeps b h.1)
    eval_function-Keeps (eq a b) h =
        operands-Keeps (eq_values num ar) (run a) (run b) (eval-Keeps a h.0) (eval-Keeps b h.1)
    eval_function-Keeps (and a b) h =
        on_bools-Keeps ◌&&◌ (run a) (run b) (eval-Keeps a h.0) (eval-Keeps b h.1)
    eval_function-Keeps (or a b) h =
        on_bools-Keeps ◌||◌ (run a) (run b) (eval-Keeps a h.0) (eval-Keeps b h.1)
    eval_function-Keeps (xor a b) h =
        on_bools-Keeps exclusive (run a) (run b) (eval-Keeps a h.0) (eval-Keeps b h.1)
    eval_function-Keeps (in_array a b) h =
        is_in-Keeps (run a) (run b) (eval-Keeps a h.0) (eval-Keeps b h.1)
    eval_function-Keeps (at a b) h =
        item_at-Keeps (run a) (run b) (eval-Keeps a h.0) (eval-Keeps b h.1)
    eval_function-Keeps (intersects a b) h =
        intersecting-Keeps (run a) (run b) (eval-Keeps a h.0) (eval-Keeps b h.1)
    eval_function-Keeps (split a b) h =
        on_strings-Keeps (λ s t. array (of_list (map (λ p. string p) (text_split s t)))) (run a)
          (run b) (eval-Keeps a h.0) (eval-Keeps b h.1)
    eval_function-Keeps (starts_with a b) h =
        on_strings-Keeps (λ s t. bool (text_starts_with s t)) (run a) (run b) (eval-Keeps a h.0)
          (eval-Keeps b h.1)
    eval_function-Keeps (ends_with a b) h =
        on_strings-Keeps (λ s t. bool (text_ends_with s t)) (run a) (run b) (eval-Keeps a h.0)
          (eval-Keeps b h.1)
    eval_function-Keeps (if_then a b) h =
        choose-Keeps (run a) (run b) (pure none) (eval-Keeps a h.0) (eval-Keeps b h.1) (λ out. refl)
    eval_function-Keeps (if_not a b) h =
        choose-Keeps (run a) (pure none) (run b) (eval-Keeps a h.0) (λ out. refl) (eval-Keeps b h.1)
    eval_function-Keeps (if_else a b c) h =
        choose-Keeps (run a) (run b) (run c) (eval-Keeps a h.0) (eval-Keeps b h.1)
          (eval-Keeps c h.2)
    eval_function-Keeps (not_rule a) h = negate-Keeps (run a) (eval-Keeps a h)
    eval_function-Keeps (neq a b) h =
        negate-Keeps (operands num (eq_values num ar) (run a) (run b))
          (operands-Keeps (eq_values num ar) (run a) (run b) (eval-Keeps a h.0) (eval-Keeps b h.1))
    eval_function-Keeps (nin a b) h =
        negate-Keeps (is_in num (run a) (run b))
          (is_in-Keeps (run a) (run b) (eval-Keeps a h.0) (eval-Keeps b h.1))
    eval_function-Keeps (between a b c) h =
        on_bools-Keeps ◌&&◌ (operands num (gte_values num ar) (run c) (run a))
          (operands num (lte_values num ar) (run c) (run b))
          (operands-Keeps (gte_values num ar) (run c) (run a) (eval-Keeps c h.2) (eval-Keeps a h.0))
          (operands-Keeps (lte_values num ar) (run c) (run b) (eval-Keeps c h.2) (eval-Keeps b h.1))
    eval_function-Keeps (only_show_if a) h = absurd h
    eval_function-Keeps (do_rule a) h = eval-Keeps a h
    eval_function-Keeps (get key) h = variable-Keeps input key
    eval_function-Keeps (set key a) h = absurd h
    eval_function-Keeps (bn v) h =
        given-Keeps (try_unified num v) (λ u. returning num (unified u)) λ u out. refl

-- Evaluating a rule that has neither `Set` nor `OnlyShowIf` in it leaves the output as it was,
-- whatever comes of it: a value, an error or a panic.
pub eval_reading :
    (num : Numbers) (ar : Arithmetic) (input : String → Result Error (Value num.Number))
    (r : Rule num.Number) (out : Output num)
    → IsReading r
    → (eval num ar input r out).1 ≡ out
eval_reading num ar input r out h = eval-Keeps ar input r h out
