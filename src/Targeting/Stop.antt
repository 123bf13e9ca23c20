-- ===== src/Targeting/Stop.antt =====
-- When the evaluation of a list of rules stops.
use adex_validator_stack_rus.Prelude.{
  ◌≡◌, refl, ap, ◌∙◌, Bool, true, false, List, [], ◌∷◌, ◌++◌, arith, if◌then◌else◌, Outcome,
  returns, panics, Result,
}
use Prim.Native.String.{String}
use adex_validator_stack_rus.Targeting.Values.{Error, Numbers, Value}
use adex_validator_stack_rus.Targeting.Operators.{Arithmetic}
use adex_validator_stack_rus.Targeting.Rules.{Rule, Output}
use adex_validator_stack_rus.Targeting.Eval.{Evaluation, eval}
use adex_validator_stack_rus.Targeting.Multiple.{
  turn, Entry, Results, entry_of, push, run_all, eval_multiple,
}

module _ (num : Numbers) where
  -- The results so far, and those that follow.
  abbrev pub joined : List (Entry num) → Results num → Results num
  joined es panics = panics
  joined es (returns (fs, out)) = returns (es ++ fs, out)

  -- The evaluation goes on if the ad is still shown.
  unfoldable pub after : Results num → (Output num → Results num) → Results num
  after panics k = panics
  after (returns (es, out)) k = if out.show then joined es (k out) else returns (es, out)

  joined_nil : (r : Results num) → r ≡ joined [] r
  joined_nil panics = refl
  joined_nil (returns (fs, out)) = refl

  push-joined :
      (e : Entry num) (es : List (Entry num)) (r : Results num)
      → push num e (joined es r) ≡ joined (e ∷ es) r
  push-joined e es panics = refl
  push-joined e es (returns (fs, out)) = refl

  push_if :
      (e : Entry num) (b : Bool) (es : List (Entry num)) (out : Output num) (r : Results num)
      → push num e (if b then joined es r else returns (es, out))
        ≡ (if b then joined (e ∷ es) r else returns (e ∷ es, out))
  push_if e true es out r = push-joined e es r
  push_if e false es out r = refl

  push-after :
      (e : Entry num) (r : Results num) (k : Output num → Results num)
      → push num e (after r k) ≡ after (push num e r) k
  unfolding after
  push-after e panics k = refl
  push-after e (returns (es, out)) k = push_if e out.show es out (k out)

  shown_if :
      (b : Bool) (es : List (Entry num)) (out : Output num) (r : Results num)
      → b ≡ true
      → joined es r ≡ (if b then joined es r else returns (es, out))
  shown_if true es out r h = refl
  shown_if false es out r h = absurd (ground arith)

  turn_if :
      (b : Bool) (e : Entry num) (out : Output num) (rest rest' : Results num)
      (k : Output num → Results num)
      → out.show ≡ b
      → (b ≡ true → rest' ≡ after rest k)
      → (if b then push num e rest' else returns (e ∷ [], out))
        ≡ after (if b then push num e rest else returns (e ∷ [], out)) k
  unfolding after
  turn_if true e out rest rest' k s h = ap (push num e) (h refl) ∙ push-after e rest k
  turn_if false e out rest rest' k s h = stays out.show s (joined (e ∷ []) (k out))
    where
      stays :
          (b : Bool)
          → b ≡ false
          → (r : Results num) → returns (e ∷ [], out) ≡ (if b then r else returns (e ∷ [], out))
      stays true d r = absurd (ground arith)
      stays false d r = refl

  turn-append :
      (o : Outcome (Entry num)) (out : Output num) (rest rest' : Results num)
      (k : Output num → Results num)
      → (out.show ≡ true → rest' ≡ after rest k)
      → turn num o out rest' ≡ after (turn num o out rest) k
  unfolding after
  turn-append panics out rest rest' k h = refl
  turn-append (returns e) out rest rest' k h = turn_if out.show e out rest rest' k refl h

  run_all-append :
      (step : Rule num.Number → Evaluation num) (rs ss : List (Rule num.Number)) (out : Output num)
      → out.show ≡ true
      → run_all num step (rs ++ ss) out ≡ after (run_all num step rs out) (run_all num step ss)
  unfolding run_all after
  run_all-append step [] ss out h =
      joined_nil (run_all num step ss out) ∙ shown_if out.show [] out (run_all num step ss out) h
  run_all-append step (r ∷ rs) ss out h =
      let out' = (step r out).1 in
      turn-append (entry_of num r (step r out).0) out' (run_all num step rs out')
        (run_all num step (rs ++ ss) out') (run_all num step ss)
        λ shown. run_all-append step rs ss out' shown

-- Evaluating one list of rules and then another, for an ad that is shown so far, is evaluating the
-- first, and then, only if the ad is still shown, the second; the results of both are kept.
pub eval_multiple-append :
    (num : Numbers) (ar : Arithmetic) (input : String → Result Error (Value num.Number))
    (rs ss : List (Rule num.Number)) (out : Output num)
    → out.show ≡ true
    → eval_multiple num ar input (rs ++ ss) out
      ≡ after num (eval_multiple num ar input rs out) (eval_multiple num ar input ss)
unfolding eval_multiple
eval_multiple-append num ar input rs ss out h = run_all-append num (eval num ar input) rs ss out h
