-- ===== src/Sentry/Slot/Listed.antt =====
-- What is known of the campaigns and ad units that a slot is offered.
use adex_validator_stack_rus.Prelude.{
  ℕ, ◌≤◌, max, ◌≡◌, refl, sym, subst, inl, inr, true, Option, some, List, [], ◌∷◌, map, arith,
  Bool-cases, All, IsIn, All-mono, Outcome, returns, panics, Outcome-cases,
}
use Prim.Native.String.{String}
use text.Mathlib.Text.{◌==◌ as ◌=ˢ◌}
use adex_validator_stack_rus.UnifiedNum.{UnifiedNum}
use adex_validator_stack_rus.Campaign.{Campaign, impression}
use adex_validator_stack_rus.Targeting.Values.{Numbers}
use adex_validator_stack_rus.Targeting.Operators.{Arithmetic}
use adex_validator_stack_rus.Targeting.Rules.{get_pricing_bounds, get_of}
use adex_validator_stack_rus.Targeting.Input.{Texts, Input, with_campaign}
use adex_validator_stack_rus.Sentry.Slot.Defs.{
  SlotUnit, UnitsWithPrice, CampaignResponse, Slot, SlotDecoder, filter_map, units_of_type,
  offer_unit, offer_campaign, apply_targeting, listed,
}
use adex_validator_stack_rus.Sentry.Slot.Offered.{
  IsOffer, returns_cases, offered_price-bounds, offer_unit-IsOffer,
}

-- What `filter_map` returns comes from an entry of the list.
abbrev Origin : {A B : Type 0} → (A → Outcome (Option B)) → List A → B → Type 0
Origin {A} f xs y = (x : A) × IsIn x xs × (f x ≡ returns (some y))

pub filter_map-IsIn :
    {A B : Type 0} (f : A → Outcome (Option B)) (xs : List A) (ys : List B)
    → filter_map f xs ≡ returns ys
    → All (Origin f xs) ys
unfolding filter_map
filter_map-IsIn f [] ys h = subst (All (Origin f [])) {x = []} {y = ys} (ground arith) tt
filter_map-IsIn {A} {B} f (x ∷ xs) ys h =
    let later = λ (zs : List B) (a : All (Origin f xs) zs).
      All-mono (Origin f xs) (Origin f (x ∷ xs)) zs (λ y o. (o.0, inr o.1, o.2)) a in
    elim (Outcome-cases (f x)) [
      | inr (inr bad) ↦ absurd (ground arith)
      | inr (inl skip) ↦ later ys (filter_map-IsIn f xs ys (ground arith))
      | inl (y, e) ↦ elim (returns_cases (filter_map f xs)) [
        | inr bad ↦ absurd (ground arith)
        | inl (zs, r) ↦
            subst (All (Origin f (x ∷ xs))) {x = y ∷ zs} {y = ys} (ground arith)
              ((x, inl refl, e), later zs (filter_map-IsIn f xs zs r))
      ]
    ]

units_of_type-IsIn :
    (t : String) (us : List SlotUnit) (u : SlotUnit)
    → IsIn u (units_of_type t us)
    → IsIn u us × ((u.ad_type =ˢ t) ≡ true)
unfolding units_of_type
units_of_type-IsIn t [] u h = absurd h
units_of_type-IsIn t (v ∷ us) u h = elim (Bool-cases (v.ad_type =ˢ t)) [
  | inl same ↦
      elim (subst (IsIn u) {x = units_of_type t (v ∷ us)} {y = v ∷ units_of_type t us}
        (ground arith) h) [
          | inl e ↦ (inl e, subst (λ (w : SlotUnit). (w.ad_type =ˢ t) ≡ true) (sym e) same)
          | inr later ↦ let (i, e) = units_of_type-IsIn t us u later in (inr i, e)
        ]
  | inr other ↦
      let (i, e) =
        units_of_type-IsIn t us u (
          subst (IsIn u) {x = units_of_type t (v ∷ us)} {y = units_of_type t us} (ground arith)
            h) in
      (inr i, e)
]

module _ (num : Numbers) (ar : Arithmetic) (texts : Texts) (now : ℕ)
    (decoder : SlotDecoder num.Number) (global_min : UnifiedNum) where
  -- A unit of the campaign, of the slot's type, at a price that the campaign's rules make.
  pub record IsListed (slot : Slot num.Number) (input_base : Input) (c : Campaign)
      (o : UnitsWithPrice) : Type 0 where
    pub ad_unit : SlotUnit
    pub same : ad_unit.unit ≡ o.unit
    pub of_campaign : IsIn ad_unit (map (λ u. decoder.unit u) c.ad_units)
    pub of_slot_type : (ad_unit.ad_type =ˢ slot.ad_type) ≡ true
    pub offer :
        IsOffer num ar texts now global_min
          (decoder.rules c.targeting_rules)
          c
          (with_campaign c input_base)
          o
    pub at_most :
        o.price ≤ max (get_pricing_bounds c impression).min (get_pricing_bounds c impression).max

  listed_inv :
      (c : Campaign) (r : Outcome (List UnitsWithPrice)) (out : CampaignResponse)
      → listed num ar texts now decoder global_min c r ≡ returns (some out)
      → (c ≡ out.campaign) × (r ≡ returns out.units_with_price)
  listed_inv c panics out h = absurd (ground arith)
  listed_inv c (returns []) out h = absurd (ground arith)
  listed_inv c (returns (u ∷ us)) out h = ground arith

  offer_campaign-IsListed :
      (input_base : Input) (slot : Slot num.Number) (c : Campaign) (out : CampaignResponse)
      → offer_campaign num ar texts now decoder global_min input_base slot c ≡ returns (some out)
      → (c ≡ out.campaign) × All (IsListed slot input_base c) out.units_with_price
  unfolding offer_campaign
  offer_campaign-IsListed input_base slot c out h =
      let units = units_of_type slot.ad_type (map (λ u. decoder.unit u) c.ad_units) in
      let rules = decoder.rules c.targeting_rules in
      let one = λ (u : SlotUnit).
        offer_unit num ar texts now global_min slot rules c (with_campaign c input_base) u.unit in
      let (same, r) = listed_inv c (filter_map one units) out h in
      (
        same,
        All-mono (Origin one units) (IsListed slot input_base c) out.units_with_price
            (λ o from.
              let (i, t) =
                units_of_type-IsIn slot.ad_type (map (λ u. decoder.unit u) c.ad_units) from.0
                  from.1 in
              let (unit, offer) =
                offer_unit-IsOffer num ar texts now global_min slot rules c
                  (with_campaign c input_base) from.0.unit o from.2 in
              let (low, high) =
                offered_price-bounds (get_pricing_bounds c impression)
                  (get_of impression offer.evaluated.1.price) in
              record {
                ad_unit = from.0;
                same = unit;
                of_campaign = i;
                of_slot_type = t;
                offer = offer;
                at_most = omega (arith, offer.price, high);
              })
            (filter_map-IsIn one units out.units_with_price r),
      )

  -- Every campaign that a slot is offered is one of those given, and each of its units is one of
  -- the campaign's own, of the slot's type, shown by the campaign's rules, at the price they make,
  -- which is at least the server's smallest price and at most the campaign's upper bound, or its
  -- lower one if that is higher.
  pub apply_targeting_sound :
      (campaigns : List Campaign) (input_base : Input) (slot : Slot num.Number)
      (out : List CampaignResponse)
      → apply_targeting num ar texts now decoder global_min campaigns input_base slot ≡ returns out
      → All
          (λ r.
            IsIn r.campaign campaigns
            × All (IsListed slot input_base r.campaign) r.units_with_price)
          out
  unfolding apply_targeting
  apply_targeting_sound campaigns input_base slot out h =
      let one = offer_campaign num ar texts now decoder global_min input_base slot in
      All-mono (Origin one campaigns)
        (λ (r : CampaignResponse).
          IsIn r.campaign campaigns × All (IsListed slot input_base r.campaign) r.units_with_price)
        out
        (λ r from.
          let (same, units) = offer_campaign-IsListed input_base slot from.0 r from.2 in
          (
            subst (λ c. IsIn c campaigns) same from.1,
            subst (λ c. All (IsListed slot input_base c) r.units_with_price) same units,
          ))
        (filter_map-IsIn one campaigns out h)
