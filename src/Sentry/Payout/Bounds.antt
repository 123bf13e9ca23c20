-- ===== src/Sentry/Payout/Bounds.antt =====
-- What an event can pay.
use adex_validator_stack_rus.Prelude.{
  ℕ, ◌≤◌, max, ◌≡◌, sym, subst, ◌⊎◌, inl, inr, Bool, true, false, Option, none, some, List, [], ◌∷◌,
  map, arith, if◌then◌else◌, All, Outcome, returns, panics, Result, ok, Result-cases,
}
use adex_validator_stack_rus.UnifiedNum.{UnifiedNum}
use adex_validator_stack_rus.BalancesMap.{Address}
use adex_validator_stack_rus.Campaign.{EventType, Campaign, Pricing, ValidatorDesc}
use adex_validator_stack_rus.Targeting.Values.{Error, Numbers}
use adex_validator_stack_rus.Targeting.Operators.{Arithmetic}
use adex_validator_stack_rus.Targeting.Rules.{Output, get_pricing_bounds, get_of}
use adex_validator_stack_rus.Targeting.Input.{Texts}
use adex_validator_stack_rus.Sentry.Payout.Defs.{
  Event, event_type, fields_of, Session, Decoder, clamp_price, settle, is_empty, get_payout,
  payout_under,
}
use adex_validator_stack_rus.Sentry.Events.{
  event_payouts, event_balances, calculate_fee, Cost, spend_for_events, spend_events, pay, State,
}
use adex_validator_stack_rus.Balances.{new}
use adex_validator_stack_rus.Sentry.Redis.{Redis}
use adex_validator_stack_rus.Sentry.Accounting.{Database}
use adex_validator_stack_rus.UnifiedNum.Ratio.{RatioOps}

-- The payout goes to the event's publisher, and lies between the bounds of the campaign for the
-- event's type; if those are the wrong way around, it is the lower one.
pub record IsPriced (c : Campaign) (e : Event) (earner : Address) (price : UnifiedNum)
    : Type 0 where
  pub publisher : earner ≡ (fields_of e).publisher
  pub at_least : (get_pricing_bounds c (event_type e)).min ≤ price
  pub at_most :
      price
      ≤ max (get_pricing_bounds c (event_type e)).min (get_pricing_bounds c (event_type e)).max

clamp_price-bounds :
    (bounds : Pricing) (price : Option UnifiedNum)
    → (bounds.min ≤ clamp_price bounds price)
      × (clamp_price bounds price ≤ max bounds.min bounds.max)
unfolding clamp_price
clamp_price-bounds bounds none = (omega arith, omega arith)
clamp_price-bounds bounds (some price) = (omega arith, omega arith)

if-cases : {A : Type 0} (b : Bool) {x y z : A} → (if b then x else y) ≡ z → (x ≡ z) ⊎ (y ≡ z)
if-cases true h = inl h
if-cases false h = inr h

abbrev paying : Address → UnifiedNum → Result Error (Option (Address × UnifiedNum))
paying publisher price = ok (some (publisher, price))

minimum-bounds :
    (bounds : Pricing) (publisher earner : Address) (price : UnifiedNum)
    → paying publisher bounds.min ≡ ok (some (earner, price))
    → (earner ≡ publisher) × (bounds.min ≤ price) × (price ≤ max bounds.min bounds.max)
minimum-bounds bounds publisher earner price h = ground arith

settle-bounds :
    {num : Numbers} {Log : Type 0} (bounds : Pricing) (publisher : Address) (t : EventType)
    (r : Outcome (Log × Output num)) (earner : Address) (price : UnifiedNum)
    → settle bounds publisher t r ≡ ok (some (earner, price))
    → (earner ≡ publisher) × (bounds.min ≤ price) × (price ≤ max bounds.min bounds.max)
unfolding settle
settle-bounds bounds publisher t panics earner price h = absurd (ground arith)
settle-bounds bounds publisher t (returns (errors, out)) earner price h =
    let within = clamp_price-bounds bounds (get_of t out.price) in ground (arith, within)

module _ (num : Numbers) (ar : Arithmetic) (texts : Texts) (decoder : Decoder num.Number)
    (now : ℕ) where
  -- Whatever the targeting rules of a campaign do, an event that pays does so to its publisher,
  -- between the bounds of the campaign for its type.
  pub get_payout-bounds :
      (c : Campaign) (session : Session) (e : Event) (earner : Address) (price : UnifiedNum)
      → get_payout num ar texts decoder now c session e ≡ ok (some (earner, price))
      → IsPriced c e earner price
  unfolding get_payout payout_under
  get_payout-bounds c session e earner price h =
      let bounds = get_pricing_bounds c (event_type e) in
      elim (if-cases (is_empty (decoder.rules c.targeting_rules)) h) [
        | inl plain ↦
            let (to, low, high) =
              minimum-bounds bounds (fields_of e).publisher earner price plain in
            record { publisher = to; at_least = low; at_most = high }
        | inr ruled ↦
            let (to, low, high) =
              settle-bounds bounds (fields_of e).publisher (event_type e) _ earner price ruled in
            record { publisher = to; at_least = low; at_most = high }
      ]

module _ {Event F : Type 0} (get_payout : Event → Result F (Option (Address × UnifiedNum)))
    (P : Event → Address → UnifiedNum → Type 0)
    (priced : (e : Event) (earner : Address) (price : UnifiedNum)
      → get_payout e ≡ ok (some (earner, price))
      → P e earner price) where
  abbrev Holds : List (Event × Address × UnifiedNum) → Type 0
  Holds ps = All (λ (p : Event × Address × UnifiedNum). P p.0 p.1 p.2) ps

  abbrev results : List (Event × Cost) → List (Event × Address × UnifiedNum)
  results costs = map (λ c. (c.0, c.1.earner, c.1.amount)) costs

  event_payouts-All :
      (num : RatioOps) (events : List Event) (payouts : List (Event × Address × UnifiedNum))
      → event_payouts num get_payout events ≡ ok payouts
      → Holds payouts
  unfolding event_payouts
  event_payouts-All num [] payouts h = subst Holds {x = []} {y = payouts} (ground arith) tt
  event_payouts-All num (e ∷ es) payouts h = elim (Result-cases (get_payout e)) [
    | inr bad ↦ absurd (ground (arith, bad))
    | inl (none, q) ↦ event_payouts-All num es payouts (ground arith)
    | inl (some (earner, price), q) ↦ elim (Result-cases (event_payouts num get_payout es)) [
      | inr bad ↦ absurd (ground (arith, bad))
      | inl (rest, r) ↦
          subst Holds {x = (e, earner, price) ∷ rest} {y = payouts} (ground arith)
            (priced e earner price q, event_payouts-All num es rest r)
    ]
  ]

  event_balances-All :
      (num : RatioOps) (leader follower : ValidatorDesc)
      (payouts : List (Event × Address × UnifiedNum)) (costs : List (Event × Cost))
      → Holds payouts
      → event_balances num get_payout leader follower payouts ≡ ok costs
      → Holds (results costs)
  unfolding event_balances
  event_balances-All num leader follower [] costs p h =
      subst (λ cs. Holds (results cs)) {x = []} {y = costs} (ground arith) tt
  event_balances-All num leader follower ((e, earner, amount) ∷ ps) costs p h =
      elim (Result-cases (calculate_fee num amount leader)) [
        | inr bad ↦ absurd (ground (arith, bad))
        | inl (leader_fee, q) ↦ elim (Result-cases (calculate_fee num amount follower)) [
          | inr bad ↦ absurd (ground (arith, bad))
          | inl (follower_fee, r) ↦
              elim (Result-cases (event_balances num get_payout leader follower ps)) [
                | inr bad ↦ absurd (ground (arith, bad))
                | inl (rest, t) ↦
                    subst (λ cs. Holds (results cs))
                      {x = (
                        e,
                        record {
                          earner = earner;
                          amount = amount;
                          leader_fee = leader_fee;
                          follower_fee = follower_fee;
                        },
                      )
                        ∷ rest}
                      {y = costs} (ground arith)
                      (p.0, event_balances-All num leader follower ps rest p.1 t)
              ]
        ]
      ]

module _ (redis : Redis) {Event F : Type 0} (num : RatioOps)
    (get_payout : Event → Result F (Option (Address × UnifiedNum))) where
  -- What was paid for, as the payouts and their costs.
  paid_costs :
      (db : Database) (c : Campaign) (events : List Event) (leader follower : ValidatorDesc)
      (s s' : State redis) (paid : List (Event × Address × UnifiedNum))
      → spend_for_events redis num get_payout db c events leader follower s ≡ (ok paid, s')
      → (payouts : List (Event × Address × UnifiedNum)) × (costs : List (Event × Cost))
        × (event_payouts num get_payout events ≡ ok payouts)
        × (event_balances num get_payout leader follower payouts ≡ ok costs)
        × (paid ≡ map (λ k. (k.0, k.1.earner, k.1.amount)) costs)
  unfolding spend_for_events
  paid_costs db c events leader follower s s' paid h =
      elim (Result-cases (event_payouts num get_payout events)) [
        | inr bad ↦ absurd (ground (arith, bad))
        | inl (payouts, p) ↦
            elim (Result-cases (event_balances num get_payout leader follower payouts)) [
              | inr bad ↦ absurd (ground (arith, bad))
              | inl (costs, q) ↦
                  elim (Result-cases (
                    spend_events c.creator leader.id follower.id (0, new) (map (λ k. k.1) costs))) [
                      | inr bad ↦ absurd (ground (arith, bad))
                      | inl ((spending, delta), r) ↦
                          elim (Result-cases (pay redis db c.id spending delta s).0) [
                            | inr bad ↦ absurd (ground (arith, bad))
                            | inl (done, d) ↦ (payouts, costs, p, q, ground arith)
                          ]
                    ]
            ]
      ]

-- Each event that a campaign was made to pay for, by a request that succeeded, paid its publisher
-- a price within the campaign's bounds for its type.
pub spend_for_events-bounds :
    (redis : Redis) (num : Numbers) (ar : Arithmetic) (texts : Texts) (decoder : Decoder num.Number)
    (now : ℕ) (session : Session) (db : Database) (c : Campaign) (events : List Event)
    (leader follower : ValidatorDesc) (s s' : State redis)
    (paid : List (Event × Address × UnifiedNum))
    → spend_for_events redis ar.ratio
        (get_payout num ar texts decoder now c session)
        db
        c
        events
        leader
        follower
        s
      ≡ (ok paid, s')
    → All (λ (p : Event × Address × UnifiedNum). IsPriced c p.0 p.1 p.2) paid
spend_for_events-bounds redis num ar texts decoder now session db c events leader follower s s' paid
      h =
    let price = get_payout num ar texts decoder now c session in
    let (payouts, costs, p, q, e) =
      paid_costs redis ar.ratio price db c events leader follower s s' paid h in
    let priced = get_payout-bounds num ar texts decoder now c session in
    subst (All (λ (p : Event × Address × UnifiedNum). IsPriced c p.0 p.1 p.2)) (sym e) (
      event_balances-All price (IsPriced c) priced ar.ratio leader follower payouts costs
        (event_payouts-All price (IsPriced c) priced ar.ratio events payouts p) q)
