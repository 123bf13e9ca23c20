-- ===== src/Sentry/Slot/Offered.antt =====
-- What is known of an ad unit that a slot is offered, and what an impression of it pays.
use adex_validator_stack_rus.Prelude.{
  ℕ, ◌≤◌, max, ◌≡◌, refl, sym, ap, ◌∙◌, subst, ◌≢◌, ◌⊎◌, inl, inr, true, Option, none, some, List,
  [], ◌∷◌, arith, Outcome, returns, panics, Result, ok,
}
use Prim.Native.String.{String}
use mathlib.Core.Path.{fun_ext}
use adex_validator_stack_rus.UnifiedNum.{UnifiedNum}
use adex_validator_stack_rus.BalancesMap.{Address}
use adex_validator_stack_rus.Campaign.{Campaign, Pricing, impression}
use adex_validator_stack_rus.Targeting.Values.{Error, Numbers, Value}
use adex_validator_stack_rus.Targeting.Operators.{Arithmetic}
use adex_validator_stack_rus.Targeting.Rules.{Rule, Output, get_pricing_bounds, get_of}
use adex_validator_stack_rus.Targeting.Input.{Texts, Input, input_try_get}
use adex_validator_stack_rus.Targeting.Multiple.{
  eval_with_callback, eval_multiple, run_all, reported,
}
use adex_validator_stack_rus.Sentry.Payout.{
  impression_event, EventFields, event_type, Session, Decoder, clamp_price, settle, get_payout,
  payout_under, input_of,
}
use adex_validator_stack_rus.Sentry.Slot.Defs.{
  UnitResponse, UnitsWithPrice, Slot, offered_price, with_unit, after_slot, after_rules, offer_unit,
}

-- The evaluation of a campaign's rules for an impression starts here.
abbrev pub starting : (num : Numbers) → Campaign → Output num
starting num c = record {
  show = true;
  boost = num.f64_one;
  price = (impression, (get_pricing_bounds c impression).min) ∷ [];
}

offered_price-clamp :
    (bounds : Pricing) (price : Option UnifiedNum)
    → offered_price bounds price ≡ clamp_price bounds price
unfolding offered_price clamp_price
offered_price-clamp bounds none = refl
offered_price-clamp bounds (some price) = omega arith

pub offered_price-bounds :
    (bounds : Pricing) (price : Option UnifiedNum)
    → (bounds.min ≤ offered_price bounds price)
      × (offered_price bounds price ≤ max bounds.min bounds.max)
unfolding offered_price
offered_price-bounds bounds none = (omega arith, omega arith)
offered_price-bounds bounds (some price) = (omega arith, omega arith)

pub returns_cases : {A : Type 0} (r : Outcome A) → ((a : A) × (r ≡ returns a)) ⊎ (r ≡ panics)
returns_cases (returns a) = inl (a, refl)
returns_cases panics = inr refl

module _ (num : Numbers) (ar : Arithmetic) (texts : Texts) (now : ℕ) where
  abbrev pub Evaluated : Type 0
  Evaluated = List (Error × Rule num.Number) × Output num

  -- The rules of the campaign show the unit at a price that is at least the smallest one.
  pub record IsOffer (global_min : UnifiedNum) (rules : List (Rule num.Number)) (c : Campaign)
      (input : Input) (o : UnitsWithPrice) : Type 0 where
    pub evaluated : Evaluated
    pub evaluates :
        eval_with_callback num ar
          (input_try_get num texts now (with_unit o.unit.ipfs input))
          rules
          (starting num c)
        ≡ returns evaluated
    pub shown : evaluated.1.show ≡ true
    pub price :
        o.price
        ≡ offered_price (get_pricing_bounds c impression) (get_of impression evaluated.1.price)
    pub enough : global_min ≤ o.price

  after_slot_inv :
      {Log : Type 0} (unit : UnitResponse) (price : UnifiedNum) (r : Outcome (Log × Output num))
      (o : UnitsWithPrice)
      → after_slot num ar texts now unit price r ≡ returns (some o)
      → (unit ≡ o.unit) × (price ≡ o.price)
  unfolding after_slot
  after_slot_inv unit price panics o h = absurd (ground arith)
  after_slot_inv unit price (returns (errors, out)) o h = ground arith

  after_rules_inv :
      (global_min : UnifiedNum) (bounds : Pricing) (slot_rules : List (Rule num.Number))
      (input : Input) (unit : UnitResponse) (log : List (Error × Rule num.Number))
      (out : Output num) (o : UnitsWithPrice)
      → after_rules num ar texts now global_min bounds slot_rules input unit (returns (log, out))
        ≡ returns (some o)
      → (out.show ≡ true)
        × (unit ≡ o.unit)
        × (o.price ≡ offered_price bounds (get_of impression out.price))
        × (global_min ≤ o.price)
  unfolding after_rules
  after_rules_inv global_min bounds slot_rules input unit log out o h =
      let price = offered_price bounds (get_of impression out.price) in
      let slotted =
        after_slot_inv unit price
          (eval_with_callback num ar (input_try_get num texts now input) slot_rules out) o in
      ground (arith, slotted)

  after_panics :
      (global_min : UnifiedNum) (bounds : Pricing) (slot_rules : List (Rule num.Number))
      (input : Input) (unit : UnitResponse) (o : UnitsWithPrice)
      → after_rules num ar texts now {Log = List (Error × Rule num.Number)} global_min bounds
          slot_rules input unit panics
        ≢ returns (some o)
  unfolding after_rules
  after_panics global_min bounds slot_rules input unit o h = ground arith

  pub offer_unit-IsOffer :
      (global_min : UnifiedNum) (slot : Slot num.Number) (rules : List (Rule num.Number))
      (c : Campaign) (input : Input) (unit : UnitResponse) (o : UnitsWithPrice)
      → offer_unit num ar texts now global_min slot rules c input unit ≡ returns (some o)
      → (unit ≡ o.unit) × IsOffer global_min rules c input o
  unfolding offer_unit
  offer_unit-IsOffer global_min slot rules c input unit o h =
      let read = input_try_get num texts now (with_unit unit.ipfs input) in
      let bounds = get_pricing_bounds c impression in
      let next =
        after_rules num ar texts now global_min bounds slot.rules (with_unit unit.ipfs input)
          unit in
      elim (returns_cases (eval_with_callback num ar read rules (starting num c))) [
        | inr e ↦ absurd (
            after_panics global_min bounds slot.rules (with_unit unit.ipfs input) unit o
              (ap next (sym e) ∙ h))
        | inl ((log, out), e) ↦
            let (shown, same, price, enough) =
              after_rules_inv global_min bounds slot.rules (with_unit unit.ipfs input) unit log out
                o (ap next (sym e) ∙ h) in
            (
              same,
              record {
                evaluated = (log, out);
                evaluates =
                    subst
                      (λ (u : UnitResponse).
                        eval_with_callback num ar
                          (input_try_get num texts now (with_unit u.ipfs input)) rules
                          (starting num c)
                        ≡ returns (log, out))
                      same e;
                shown = shown;
                price = price;
                enough = enough;
              },
            )
      ]

  starting_settled :
      (c : Campaign)
      → offered_price
          (get_pricing_bounds c impression)
          (get_of impression ((impression, (get_pricing_bounds c impression).min) ∷ []))
        ≡ (get_pricing_bounds c impression).min
  unfolding offered_price get_of
  starting_settled c = omega arith

  no_rules :
      (read : String → Result Error (Value num.Number)) (out : Output num)
      → eval_with_callback num ar read [] out ≡ returns ([], out)
  unfolding eval_with_callback eval_multiple run_all reported
  no_rules read out = ground arith

  settle_shown :
      {Log : Type 0} (bounds : Pricing) (publisher : Address) (log : Log) (out : Output num)
      → out.show ≡ true
      → settle bounds publisher impression (returns (log, out))
        ≡ ok (some (publisher, clamp_price bounds (get_of impression out.price)))
  unfolding settle
  settle_shown bounds publisher log out h = ground arith

  -- The price of an output, with a given one where there is none.
  abbrev price_of : Pricing → Outcome Evaluated → UnifiedNum
  price_of bounds panics = bounds.min
  price_of bounds (returns (log, out)) = offered_price bounds (get_of impression out.price)

  payout_under-offer :
      (decoder : Decoder num.Number) (later : ℕ) (global_min : UnifiedNum)
      (rules : List (Rule num.Number)) (c : Campaign) (input : Input) (o : UnitsWithPrice)
      (session : Session) (f : EventFields)
      → IsOffer global_min rules c input o
      → ((key : String)
          → input_try_get num texts later
              (input_of num ar texts decoder later c (impression_event f) session)
              key
            ≡ input_try_get num texts now (with_unit o.unit.ipfs input) key)
      → payout_under num ar texts decoder later rules c session (impression_event f)
        ≡ ok (some (f.publisher, o.price))
  unfolding payout_under event_type
  payout_under-offer decoder later global_min [] c input o session f h same =
      let bounds = get_pricing_bounds c impression in
      let read = input_try_get num texts now (with_unit o.unit.ipfs input) in
      let priced = ap (price_of bounds) (sym (no_rules read (starting num c)) ∙ h.evaluates) in
      ap (λ p. ok (some (f.publisher, p))) (sym (starting_settled c) ∙ priced ∙ sym h.price)
  payout_under-offer decoder later global_min (r ∷ rules) c input o session f h same =
      let bounds = get_pricing_bounds c impression in
      ap
        (λ read.
          settle bounds f.publisher impression
            (eval_with_callback num ar read (r ∷ rules) (starting num c)))
        (fun_ext same)
      ∙ ap (settle bounds f.publisher impression) h.evaluates
      ∙ settle_shown bounds f.publisher h.evaluated.0 h.evaluated.1 h.shown
      ∙ ap (λ p. ok (some (f.publisher, p)))
          (sym (offered_price-clamp bounds (get_of impression h.evaluated.1.price)) ∙ sym h.price)

  -- Where `offer_unit` offers a unit of a campaign under the campaign's rules, an impression of it pays
  -- the price of the offer: if the rules can read the same of the two inputs, `get_payout` pays the
  -- publisher exactly that price.
  pub offer-get_payout :
      (decoder : Decoder num.Number) (later : ℕ) (global_min : UnifiedNum) (slot : Slot num.Number)
      (c : Campaign) (input : Input) (unit : UnitResponse) (o : UnitsWithPrice) (session : Session)
      (f : EventFields)
      → offer_unit num ar texts now global_min slot (decoder.rules c.targeting_rules) c input unit
        ≡ returns (some o)
      → ((key : String)
          → input_try_get num texts later
              (input_of num ar texts decoder later c (impression_event f) session)
              key
            ≡ input_try_get num texts now (with_unit unit.ipfs input) key)
      → get_payout num ar texts decoder later c session (impression_event f)
        ≡ ok (some (f.publisher, o.price))
  unfolding get_payout
  offer-get_payout decoder later global_min slot c input unit o session f h same =
      let rules = decoder.rules c.targeting_rules in
      let (kept, offered) = offer_unit-IsOffer global_min slot rules c input unit o h in
      payout_under-offer decoder later global_min rules c input o session f offered λ key.
        same key
        ∙ ap (λ (u : UnitResponse). input_try_get num texts now (with_unit u.ipfs input) key) kept
