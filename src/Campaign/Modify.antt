-- ===== src/Campaign/Modify.antt =====
-- What a modification does to a campaign.
use adex_validator_stack_rus.Prelude.{◌≡◌, refl, Option, none, some, arith}
use adex_validator_stack_rus.Campaign.Defs.{
  Campaign, ModifyCampaign, apply, from_campaign, set_some, set_or,
}

-- A title or an event submission that is set to itself is unchanged.
set_some_same : {A : Type 0} (a : Option A) → set_some a a ≡ a
set_some_same none = refl
set_some_same (some a) = refl

set_some_twice : {A : Type 0} (a b : Option A) → set_some (set_some a b) b ≡ set_some a b
set_some_twice a none = refl
set_some_twice a (some b) = refl

set_or_twice : {A : Type 0} (a : A) (b : Option A) → set_or (set_or a b) b ≡ set_or a b
set_or_twice a none = refl
set_or_twice a (some b) = refl

-- A modification read off a campaign changes nothing of that campaign.
pub apply-from_campaign : (c : Campaign) → apply (from_campaign c) c ≡ c
unfolding apply from_campaign
apply-from_campaign c = grind (arith, set_some_same c.title, set_some_same c.event_submission)

-- A modification applied twice is the modification applied once.
pub apply_twice : (m : ModifyCampaign) (c : Campaign) → apply m (apply m c) ≡ apply m c
unfolding apply
apply_twice m c = grind (
  arith,
  set_some_twice c.title m.title,
  set_some_twice c.event_submission m.event_submission,
  set_or_twice c.budget m.budget,
  set_or_twice c.validators m.validators,
  set_or_twice c.pricing_bounds m.pricing_bounds,
  set_or_twice c.ad_units m.ad_units,
  set_or_twice c.targeting_rules m.targeting_rules,
)
