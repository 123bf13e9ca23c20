-- ===== src/Campaign/Whitelist.antt =====
-- What the whitelist of validators admits.
use adex_validator_stack_rus.Prelude.{
  ◌↔◌, ◌≤◌, true, take, ℕ, suc, ◌+◌, ◌≡◌, refl, ◌≢◌, List, [], ◌∷◌, arith, ◌==◌, if◌then◌else◌,
  length,
}
use adex_validator_stack_rus.Channel.{ValidatorId}
use adex_validator_stack_rus.Campaign.Defs.{Validators, find}
use adex_validator_stack_rus.Campaign.Validation.{all_validators_listed, found}

-- How often `v` is on the whitelist.
unfoldable pub count : ValidatorId → List ValidatorId → ℕ
count v [] = 0
count v (w ∷ ws) = if w == v then suc (count v ws) else count v ws

-- The entries found are those of the two validators.
length-found :
    (vs : Validators) (ws : List ValidatorId)
    → vs.first.id ≢ vs.second.id
    → length (found vs ws) ≡ count vs.first.id ws + count vs.second.id ws
unfolding found find count
length-found vs [] h = refl
length-found vs (w ∷ ws) h = grind (arith, length-found vs ws h)

length-take_two : (ws : List ValidatorId) → ((length (take 2 ws) == 2) ≡ true) ↔ (2 ≤ length ws)
length-take_two [] = ground arith
length-take_two (v ∷ []) = ground arith
length-take_two (v ∷ w ∷ ws) = ground arith

-- For two different validators and a whitelist that is not empty and has no entry twice, the
-- validators are listed exactly if each of them is an entry of the whitelist.
pub all_validators_listed_iff :
    (vs : Validators) (w : ValidatorId) (ws : List ValidatorId)
    → vs.first.id ≢ vs.second.id
    → ((v : ValidatorId) → count v (w ∷ ws) ≤ 1)
    → (all_validators_listed vs (w ∷ ws) ≡ true)
      ↔ (1 ≤ count vs.first.id (w ∷ ws)) × (1 ≤ count vs.second.id (w ∷ ws))
unfolding all_validators_listed
all_validators_listed_iff vs w ws differ once =
    let size = length-found vs (w ∷ ws) differ in
    let two = length-take_two (found vs (w ∷ ws)) in
    let first = once vs.first.id in
    let second = once vs.second.id in
    (
      (λ h. omega (arith, size, first, second, two.0 h)),
      (λ h. two.1 (omega (arith, size, h.0, h.1))),
    )
