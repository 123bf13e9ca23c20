-- ===== src/Targeting/Rules.antt =====
-- `Rule` and `Function` of primitives/src/targeting/eval.rs, and `Output` of
-- primitives/src/targeting.rs.
use adex_validator_stack_rus.Prelude.{
  Bool, true, false, Option, none, some, List, [], ◌∷◌, map, if◌then◌else◌, Result, ok, err,
  or_default,
}
use Prim.Native.String.{String}
use text.Mathlib.Text.{◌==◌ as ◌=ˢ◌, starts_with as text_starts_with}
use adex_validator_stack_rus.UnifiedNum.{UnifiedNum}
use adex_validator_stack_rus.Campaign.{EventType, impression, click, Pricing, Campaign}
use adex_validator_stack_rus.Targeting.Values.{
  Error, type_error, unknown_variable, Numbers, Value, bool, number, unified,
}
use adex_validator_stack_rus.Targeting.Texts.{trim_start_matches}

mutual
  pub data Rule (N : Type 0) : Type 0 where
    function : Function N → Rule N
    value : Value N → Rule N

  pub data Function (N : Type 0) : Type 0 where
    mul_div : Rule N → Rule N → Rule N → Function N
    div mul mod_rule add sub max_rule min_rule : Rule N → Rule N → Function N
    if_then if_not : Rule N → Rule N → Function N
    if_else : Rule N → Rule N → Rule N → Function N
    and or xor : Rule N → Rule N → Function N
    not_rule : Rule N → Function N
    lt lte gt gte eq neq in_array nin at : Rule N → Rule N → Function N
    between : Rule N → Rule N → Rule N → Function N
    split starts_with ends_with : Rule N → Rule N → Function N
    only_show_if : Rule N → Function N
    intersects : Rule N → Rule N → Function N
    do_rule : Rule N → Function N
    get : String → Function N
    set : String → Rule N → Function N
    bn : Value N → Function N

-- `PartialEq for EventType`
unfoldable pub event_type_eq : EventType → EventType → Bool
event_type_eq impression impression = true
event_type_eq click click = true
event_type_eq _ _ = false

-- `EventType::as_str`
unfoldable pub as_str : EventType → String
as_str impression = "IMPRESSION"
as_str click = "CLICK"

-- `HashMap<EventType, _>::get`, by an event type and by its text, and `insert`.
unfoldable pub get_of {ℓ} : {A : Type ℓ} → EventType → List (EventType × A) → Option A
unfolding event_type_eq
get_of t [] = none
get_of t ((u, a) ∷ rest) = if event_type_eq u t then some a else get_of t rest

unfoldable pub get_named {ℓ} : {A : Type ℓ} → String → List (EventType × A) → Option A
unfolding as_str
get_named key [] = none
get_named key ((u, a) ∷ rest) = if as_str u =ˢ key then some a else get_named key rest

unfoldable pub insert {ℓ} :
    {A : Type ℓ} → EventType → A → List (EventType × A) → List (EventType × A)
unfolding event_type_eq
insert t a [] = (t, a) ∷ []
insert t a ((u, b) ∷ rest) = if event_type_eq u t then (t, a) ∷ rest else (u, b) ∷ insert t a rest

-- `get_pricing_bounds`
unfoldable pub get_pricing_bounds : Campaign → EventType → Pricing
unfolding get_of
get_pricing_bounds c t = or_default (record { min = 0; max = 0 }) (get_of t c.pricing_bounds)

pub record Output (num : Numbers) : Type 0 where
  pub show : Bool
  pub boost : num.F64
  pub price : List (EventType × UnifiedNum)

-- `From<&Campaign> for Output`
unfoldable pub output_of : (num : Numbers) → Campaign → Output num
output_of num c = record {
  show = true;
  boost = num.f64_one;
  price = map (λ p. (p.0, p.1.min)) c.pricing_bounds;
}

module _ (num : Numbers) where
  -- `Output::try_get`
  unfoldable pub try_get : Output num → String → Result Error (Value num.Number)
  unfolding get_named trim_start_matches
  try_get out key =
      if key =ˢ "show"
      then ok (bool out.show)
      else if key =ˢ "boost"
      then elim (num.from_f64 out.boost) [ none ↦ err type_error | some n ↦ ok (number n) ]
      else if text_starts_with key "price."
      then elim (get_named (trim_start_matches key "price.") out.price) [
        | none ↦ err unknown_variable
        | some price ↦ ok (unified price)
      ]
      else err unknown_variable

  -- The assignments of `Function::Set`.
  abbrev pub set_show : Bool → Output num → Output num
  set_show b out = record { show = b; boost = out.boost; price = out.price }

  abbrev pub set_boost : num.F64 → Output num → Output num
  set_boost x out = record { show = out.show; boost = x; price = out.price }

  unfoldable pub set_price : EventType → UnifiedNum → Output num → Output num
  unfolding insert
  set_price t p out = record { show = out.show; boost = out.boost; price = insert t p out.price }
