-- ===== src/Targeting/Multiple.antt =====
-- The evaluation of a list of rules: `eval_multiple` and `eval_with_callback`.
use adex_validator_stack_rus.Prelude.{
  ◌⊎◌, inl, inr, Bool, true, false, Option, List, [], ◌∷◌, if◌then◌else◌, Outcome, returns, panics,
  Result, ok, err, aborts,
}
use Prim.Native.String.{String}
use adex_validator_stack_rus.Targeting.Values.{Error, type_error, Numbers, Value}
use adex_validator_stack_rus.Targeting.Operators.{Arithmetic}
use adex_validator_stack_rus.Targeting.Rules.{Rule, Output}
use adex_validator_stack_rus.Targeting.Eval.{Evaluation, eval}

module _ (num : Numbers) where
  -- One entry of the results: an error comes with its rule.
  abbrev pub Entry : Type 0
  Entry = (Error × Rule num.Number) ⊎ Option (Value num.Number)

  -- `map_err(|err| (err, rule.clone()))`
  abbrev pub entry_of : Rule num.Number → Result Error (Option (Value num.Number)) → Outcome Entry
  entry_of r (ok v) = returns (inr v)
  entry_of r (err e) = returns (inl (e, r))
  entry_of r aborts = panics

  abbrev pub Results : Type 0
  Results = Outcome (List Entry × Output num)

  abbrev pub push : Entry → Results → Results
  push e panics = panics
  push e (returns (es, out)) = returns (e ∷ es, out)

  -- What `eval_with_callback` passes to its callback: the type errors, but once `show` is false
  -- only the first result is looked at.
  unfoldable pub reported : Bool → List Entry → List (Error × Rule num.Number)
  reported show [] = []
  reported true (inl (type_error, r) ∷ es) = (type_error, r) ∷ reported true es
  reported true (_ ∷ es) = reported true es
  reported false (inl (type_error, r) ∷ es) = (type_error, r) ∷ []
  reported false (_ ∷ es) = []

  -- One turn of the loop, given the results of the turns to come: it stops once `show` is false.
  abbrev pub turn : Outcome Entry → Output num → Results → Results
  turn panics out rest = panics
  turn (returns e) out rest = if out.show then push e rest else returns (e ∷ [], out)

  -- The loop of `eval_multiple`, over the evaluation of a rule.
  unfoldable pub run_all :
      (Rule num.Number → Evaluation num) → List (Rule num.Number) → Output num → Results
  run_all step [] out = returns ([], out)
  run_all step (r ∷ rs) out =
      let (result, out') = step r out in turn (entry_of r result) out' (run_all step rs out')

  -- The loop of `eval_with_callback`: the calls of the callback, and the output.
  abbrev pub with_callback : Results → Outcome (List (Error × Rule num.Number) × Output num)
  unfolding reported
  with_callback panics = panics
  with_callback (returns (es, out)) = returns (reported out.show es, out)

module _ (num : Numbers) (ar : Arithmetic) (input : String → Result Error (Value num.Number)) where
  -- `eval_multiple`
  unfoldable pub eval_multiple : List (Rule num.Number) → Output num → Results num
  unfolding run_all eval
  eval_multiple rs out = run_all num (eval num ar input) rs out

  -- `eval_with_callback`
  unfoldable pub eval_with_callback :
      List (Rule num.Number) → Output num → Outcome (List (Error × Rule num.Number) × Output num)
  unfolding eval_multiple reported
  eval_with_callback rs out = with_callback num (eval_multiple rs out)
