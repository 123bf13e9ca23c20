-- ===== src/Targeting/Conditions.antt =====
-- An abstract view of the rules that only decide whether an ad is shown: conditions on the texts
-- that an ad view has.
use adex_validator_stack_rus.Prelude.{
  ◌≡◌, refl, sym, ap, ◌∙◌, inr, Bool, true, false, not, ◌&&◌, ◌||◌, Option, none, some, List, [],
  ◌∷◌, map, any, all, All, returns, Result, ok, or_default,
}
use adex_validator_stack_rus.Prelude.Actions.{◌>>=◌}
use Prim.Native.String.{String}
use text.Mathlib.Text.{◌==◌ as ◌=ˢ◌}
use adex_validator_stack_rus.Targeting.Values.{
  Error, Numbers, Value, bool, string, array, of_list, contains, value_eq, try_bool, try_array,
}
use adex_validator_stack_rus.Targeting.Operators.{Arithmetic, eq_values}
use adex_validator_stack_rus.Targeting.Rules.{
  Rule, function, value, and, or, xor, not_rule, eq, in_array, only_show_if, get, Output, set_show,
  try_get,
}
use adex_validator_stack_rus.Targeting.Eval.{
  first_known, Evaluation, operands, on_bools, negate, is_in, variable, assign, required_as,
  returning, exclusive, eval,
}
use adex_validator_stack_rus.Targeting.Multiple.{
  Entry, entry_of, push, turn, run_all, eval_multiple,
}

pub data Condition : Type 0 where
  literal : Bool → Condition
  text_is : String → String → Condition
  one_of : String → List String → Condition
  negation : Condition → Condition
  conjunction disjunction difference : Condition → Condition → Condition

-- What is known: the texts of some variables.
abbrev pub Env : Type 0
Env = String → Option String

-- Every variable of the condition is known.
unfoldable pub IsDefined : Env → Condition → Type 0
IsDefined env (literal b) = Unit {0}
IsDefined env (text_is key s) = (t : String) × (env key ≡ some t)
IsDefined env (one_of key ss) = (t : String) × (env key ≡ some t)
IsDefined env (negation c) = IsDefined env c
IsDefined env (conjunction c d) = IsDefined env c × IsDefined env d
IsDefined env (disjunction c d) = IsDefined env c × IsDefined env d
IsDefined env (difference c d) = IsDefined env c × IsDefined env d

abbrev pub known_text : Env → String → String
known_text env key = or_default "" (env key)

unfoldable pub holds : Env → Condition → Bool
holds env (literal b) = b
holds env (text_is key s) = known_text env key =ˢ s
holds env (one_of key ss) = any (λ s. s =ˢ known_text env key) ss
holds env (negation c) = not (holds env c)
holds env (conjunction c d) = holds env c && holds env d
holds env (disjunction c d) = holds env c || holds env d
holds env (difference c d) = exclusive (holds env c) (holds env d)

-- The condition as a rule.
unfoldable pub rule_of : {N : Type 0} → Condition → Rule N
unfolding of_list
rule_of (literal b) = value (bool b)
rule_of (text_is key s) = function (eq (function (get key)) (value (string s)))
rule_of (one_of key ss) =
    function (in_array (value (array (of_list (map (λ s. string s) ss)))) (function (get key)))
rule_of (negation c) = function (not_rule (rule_of c))
rule_of (conjunction c d) = function (and (rule_of c) (rule_of d))
rule_of (disjunction c d) = function (or (rule_of c) (rule_of d))
rule_of (difference c d) = function (xor (rule_of c) (rule_of d))

contains-any :
    (num : Numbers) (ss : List String) (t : String)
    → contains num (of_list (map (λ s. string s) ss)) (string t) ≡ any (λ s. s =ˢ t) ss
unfolding contains of_list value_eq
contains-any num [] t = refl
contains-any num (s ∷ ss) t = ap (λ b. s =ˢ t || b) (contains-any num ss t)

module _ {num : Numbers} where
  -- An evaluation gives a Boolean and leaves the output as it is.
  abbrev Gives : Evaluation num → Output num → Value num.Number → Type 0
  Gives m out v = m out ≡ (ok (some v), out)

  on_bools-Gives :
      (f : Bool → Bool → Bool) (m1 m2 : Evaluation num) (out : Output num) (a b : Bool)
      → Gives m1 out (bool a)
      → Gives m2 out (bool b)
      → Gives (on_bools num f m1 m2) out (bool (f a b))
  unfolding on_bools try_bool
  on_bools-Gives f m1 m2 out a b h1 h2 =
      ap (λ p. on_bools num f (λ s. p) m2 out) h1
      ∙ ap (λ p. on_bools num f (returning num (bool a)) (λ s. p) out) h2

  negate-Gives :
      (m : Evaluation num) (out : Output num) (b : Bool)
      → Gives m out (bool b)
      → Gives (negate num m) out (bool (not b))
  unfolding negate try_bool
  negate-Gives m out b h = ap (λ p. negate num (λ s. p) out) h

  equals-Gives :
      (ar : Arithmetic) (m : Evaluation num) (out : Output num) (s t : String)
      → Gives m out (string s)
      → Gives (operands num (eq_values num ar) m (returning num (string t))) out (bool (s =ˢ t))
  unfolding operands eq_values
  equals-Gives ar m out s t h =
      ap (λ p. operands num (eq_values num ar) (λ s. p) (returning num (string t)) out) h

  in-Gives :
      (m : Evaluation num) (out : Output num) (ss : List String) (t : String)
      → Gives m out (string t)
      → Gives
          (is_in num (returning num (array (of_list (map (λ s. string s) ss)))) m)
          out
          (bool (any (λ s. s =ˢ t) ss))
  unfolding is_in try_array
  in-Gives m out ss t h =
      ap (λ p. is_in num (returning num (array (of_list (map (λ s. string s) ss)))) (λ s. p) out) h
      ∙ ap (λ b. (ok (some (bool b)), out)) (contains-any num ss t)

-- `OnlyShowIf` of each of the conditions.
unfoldable pub show_rules : {N : Type 0} → List Condition → List (Rule N)
unfolding rule_of
show_rules cs = map (λ c. function (only_show_if (rule_of c))) cs

module _ {num : Numbers} (ar : Arithmetic) (env : Env)
    (input : String → Result Error (Value num.Number))
    (knows : (key s : String) → env key ≡ some s → input key ≡ ok (string s)) where
  variable-Gives :
      (key t : String) (out : Output num)
      → env key ≡ some t
      → Gives (variable num input key) out (string (known_text env key))
  unfolding variable
  variable-Gives key t out h =
      ap (λ r. (first_known num r (try_get num out key), out)) (knows key t h)
      ∙ ap (λ o. (ok (some (string (or_default "" o))), out)) (sym h)

  -- Where its variables are known, the rule of a condition evaluates to what the condition says,
  -- and leaves the output as it was.
  pub eval-holds :
      (c : Condition) (out : Output num)
      → IsDefined env c
      → eval num ar input (rule_of c) out ≡ (ok (some (bool (holds env c))), out)
  unfolding eval rule_of holds IsDefined
  eval-holds (literal b) out h = refl
  eval-holds (text_is key s) out h =
      equals-Gives ar (variable num input key) out (known_text env key) s
        (variable-Gives key h.0 out h.1)
  eval-holds (one_of key ss) out h =
      in-Gives (variable num input key) out ss (known_text env key) (variable-Gives key h.0 out h.1)
  eval-holds (negation c) out h =
      negate-Gives (eval num ar input (rule_of c)) out (holds env c) (eval-holds c out h)
  eval-holds (conjunction c d) out h =
      on_bools-Gives ◌&&◌ (eval num ar input (rule_of c)) (eval num ar input (rule_of d)) out
        (holds env c) (holds env d) (eval-holds c out h.0) (eval-holds d out h.1)
  eval-holds (disjunction c d) out h =
      on_bools-Gives ◌||◌ (eval num ar input (rule_of c)) (eval num ar input (rule_of d)) out
        (holds env c) (holds env d) (eval-holds c out h.0) (eval-holds d out h.1)
  eval-holds (difference c d) out h =
      on_bools-Gives exclusive (eval num ar input (rule_of c)) (eval num ar input (rule_of d)) out
        (holds env c) (holds env d) (eval-holds c out h.0) (eval-holds d out h.1)

  -- `OnlyShowIf` of a condition sets `show` to what it says.
  eval-show_if :
      (c : Condition) (out : Output num)
      → IsDefined env c
      → eval num ar input (function (only_show_if (rule_of c))) out
        ≡ (ok none, set_show num (holds env c) out)
  unfolding eval assign
  eval-show_if c out h =
      ap
        (λ p.
          (required_as num (try_bool num) (λ s. p) >>= λ b.
          assign num "show" (returning num (bool b)))
            out)
        (eval-holds c out h)

  show_turn :
      (b : Bool) (cs : List Condition) (out : Output num)
      → (b ≡ true
          → (es : List (Entry num)) × (run_all num
                (eval num ar input)
                (show_rules cs)
                (set_show num b out)
              ≡ returns (es, set_show num (all (holds env) cs) out)))
      → (es : List (Entry num)) × (turn num
            (returns (inr none))
            (set_show num b out)
            (run_all num (eval num ar input) (show_rules cs) (set_show num b out))
          ≡ returns (es, set_show num (b && all (holds env) cs) out))
  show_turn true cs out h = let (es, e) = h refl in (inr none ∷ es, ap (push num (inr none)) e)
  show_turn false cs out h = (inr none ∷ [], refl)

  -- Rules that each show the ad only if a condition holds show it exactly if all of them hold, and
  -- change nothing else of the output.
  pub eval_multiple-show :
      (cs : List Condition) (out : Output num)
      → out.show ≡ true
      → All (IsDefined env) cs
      → (es : List (Entry num)) × (eval_multiple num ar input (show_rules cs) out
          ≡ returns (es, set_show num (all (holds env) cs) out))
  unfolding eval_multiple run_all show_rules
  eval_multiple-show [] out h d = ([], ap (λ b. returns ([], set_show num b out)) h)
  eval_multiple-show (c ∷ cs) out h d =
      let (es, e) =
        show_turn (holds env c) cs out
          λ shown. eval_multiple-show cs (set_show num (holds env c) out) shown d.1 in
      (
        es,
        ap
              (λ p.
                turn num (entry_of num (function (only_show_if (rule_of c))) p.0) p.1
                  (run_all num (eval num ar input) (show_rules cs) p.1))
              (eval-show_if c out d.0)
            ∙ e,
      )
