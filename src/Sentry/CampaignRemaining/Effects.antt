-- ===== src/Sentry/CampaignRemaining/Effects.antt =====
-- What the operations do to the budgets left.
use adex_validator_stack_rus.Prelude.{
  plus_nat-minus_nat, ℕ, ◌≡◌, refl, inl, inr, Bool, false, Option, some, List, [], ◌∷◌, map, arith,
  ◌==◌, if◌then◌else◌, Option-cases, ℤ, Reply-cases, pos, negsuc, plus_nat, minus_nat, or_zero, ok,
  err,
}
use adex_validator_stack_rus.UnifiedNum.{UnifiedNum}
use adex_validator_stack_rus.Sentry.Redis.{initial, is_none, Redis, RedisLaws}
use adex_validator_stack_rus.Sentry.CampaignRemaining.Defs.{
  redis_error, getset_remaining_to_zero, increase_by, set_initial, get_multiple_with_ids,
  decrease_by, CampaignId, clamp_opt, zip, get_multiple,
}

map-map :
    {A B C : Type 0} (f : B → C) (g : A → B) (xs : List A)
    → map f (map g xs) ≡ map (λ a. f (g a)) xs
map-map f g [] = refl
map-map f g (x ∷ xs) = ground (arith, map-map f g xs)

zip-map : {A B : Type 0} (f : A → B) (xs : List A) → zip xs (map f xs) ≡ map (λ a. (a, f a)) xs
zip-map f [] = refl
zip-map f (x ∷ xs) = ground (arith, zip-map f xs)

module _ (redis : Redis) (laws : RedisLaws redis) where
  -- The budget of a campaign that a reader of several budgets sees.
  abbrev pub left : redis.Store → CampaignId → UnifiedNum
  left s c = clamp_opt (laws.value c s)

  -- What is read are the budgets left, a missing or negative one as 0.
  pub get_multiple_lem :
      (cs : List CampaignId) (s s' : redis.Store) (amounts : List UnifiedNum)
      → get_multiple redis cs s ≡ (ok amounts, s')
      → (s' ≡ s) × (amounts ≡ map (left s) cs)
  unfolding get_multiple
  get_multiple_lem [] s s' amounts h = ground arith
  get_multiple_lem (c ∷ cs) s s' amounts h = elim (Option-cases (redis.mget (c ∷ cs) s)) [
    | inl e ↦ absurd (ground arith)
    | inr (vs, e) ↦
        ground (
          arith,
          laws.mget_values (c ∷ cs) s vs e,
          map-map clamp_opt (λ k. laws.value k s) (c ∷ cs),
        )
  ]

  -- A read that succeeds pairs each campaign with its own budget, a missing or negative one as 0,
  -- and nothing is changed.
  pub get_multiple_with_ids_lem :
      (cs : List CampaignId) (s s' : redis.Store) (pairs : List (CampaignId × UnifiedNum))
      → get_multiple_with_ids redis cs s ≡ (ok pairs, s')
      → (s' ≡ s) × (pairs ≡ map (λ c. (c, left s c)) cs)
  unfolding get_multiple_with_ids
  get_multiple_with_ids_lem [] s s' pairs h = ground arith
  get_multiple_with_ids_lem (c ∷ cs) s s' pairs h = elim (Option-cases (redis.mget (c ∷ cs) s)) [
    | inl e ↦ absurd (ground arith)
    | inr (vs, e) ↦ ground (
      arith,
      laws.mget_values (c ∷ cs) s vs e,
      map-map clamp_opt (λ k. laws.value k s) (c ∷ cs),
      zip-map (left s) (c ∷ cs),
    )
  ]

  pub decrease_by_lem :
      (c : CampaignId) (n : UnifiedNum) (s s' : redis.Store) (r : ℤ)
      → decrease_by redis c n s ≡ (ok r, s')
      → (r ≡ minus_nat (or_zero (laws.value c s)) n)
        × ((j : CampaignId) → laws.value j s' ≡ (if j == c then some r else laws.value j s))
  unfolding decrease_by
  decrease_by_lem c n s s' r h = elim (Option-cases (redis.decrby c n s)) [
    | inl e ↦ absurd (ground arith)
    | inr ((z, t), e) ↦
        let (same, others) = laws.decrby_value c n s t z e in
        let store : t ≡ s' = ground arith in
        let reply : z ≡ r = ground arith in (ground arith, λ j. ground (arith, others j))
  ]

  pub increase_by_lem :
      (c : CampaignId) (n : UnifiedNum) (s s' : redis.Store) (r : ℤ)
      → increase_by redis c n s ≡ (ok r, s')
      → (r ≡ plus_nat (or_zero (laws.value c s)) n)
        × ((j : CampaignId) → laws.value j s' ≡ (if j == c then some r else laws.value j s))
  unfolding increase_by
  increase_by_lem c n s s' r h = elim (Option-cases (redis.incrby c n s)) [
    | inl e ↦ absurd (ground arith)
    | inr ((z, t), e) ↦
        let (same, others) = laws.incrby_value c n s t z e in
        let store : t ≡ s' = ground arith in
        let reply : z ≡ r = ground arith in (ground arith, λ j. ground (arith, others j))
  ]

  pub set_initial_lem :
      (c : CampaignId) (n : UnifiedNum) (s s' : redis.Store) (b : Bool)
      → set_initial redis c n s ≡ (ok b, s')
      → (b ≡ is_none (laws.value c s))
        × ((j : CampaignId)
            → laws.value j s' ≡ (if j == c then initial (laws.value c s) n else laws.value j s))
  unfolding set_initial
  set_initial_lem c n s s' b h = elim (Option-cases (redis.setnx c n s)) [
    | inl e ↦ absurd (ground arith)
    | inr ((z, t), e) ↦
        let (same, others) = laws.setnx_value c n s t z e in
        let store : t ≡ s' = ground arith in (ground arith, λ j. ground (arith, others j))
  ]

  -- Giving back what was taken restores the budget of that campaign, and no other changes.
  pub increase_by-decrease_by :
      (c : CampaignId) (n : UnifiedNum) (s s' s'' : redis.Store) (r r' : ℤ)
      → decrease_by redis c n s ≡ (ok r, s')
      → increase_by redis c n s' ≡ (ok r', s'')
      → (r' ≡ or_zero (laws.value c s))
        × ((j : CampaignId) → laws.value j s'' ≡ (if j == c then some r' else laws.value j s))
  increase_by-decrease_by c n s s' s'' r r' h k =
      let (taken, after) = decrease_by_lem c n s s' r h in
      let (given, last) = increase_by_lem c n s' s'' r' k in
      let back = plus_nat-minus_nat (or_zero (laws.value c s)) n in
      let here = after c in
      let there : r' ≡ plus_nat r n = ground arith in
      (ground arith, λ j. ground (arith, last j, after j))

  -- The budget of a campaign is set once: a second call answers `false` and changes nothing.
  pub set_initial_once :
      (c : CampaignId) (n m : UnifiedNum) (s s' s'' : redis.Store) (b b' : Bool)
      → set_initial redis c n s ≡ (ok b, s')
      → set_initial redis c m s' ≡ (ok b', s'')
      → (b' ≡ false) × ((j : CampaignId) → laws.value j s'' ≡ laws.value j s')
  set_initial_once c n m s s' s'' b b' h k =
      let (was, after) = set_initial_lem c n s s' b h in
      let (is, last) = set_initial_lem c m s' s'' b' k in
      let here = after c in (ground arith, λ j. ground (arith, last j, after j))

  -- Closing a campaign that is overspent fails, yet the budget left has been set to 0.
  pub getset_remaining_to_zero_negative :
      (c n : ℕ) (s s' : redis.Store) (old : Option ℤ)
      → laws.value c s ≡ some (negsuc n)
      → redis.getset c 0 s ≡ some (old, s')
      → (getset_remaining_to_zero redis c s ≡ (err redis_error, s'))
        × (laws.value c s' ≡ some (pos 0))
  unfolding getset_remaining_to_zero
  getset_remaining_to_zero_negative c n s s' old h e =
      let (was, after) = laws.getset_value c 0 s s' old e in
      let parse = laws.parse_negsuc n in let here = after c in ground arith

  -- What is set to 0 is returned, and was not negative.
  pub getset_remaining_to_zero_lem :
      (c left : ℕ) (s s' : redis.Store)
      → getset_remaining_to_zero redis c s ≡ (ok left, s')
      → (laws.value c s ≡ some (pos left))
        × (laws.value c s' ≡ some (pos 0))
        × ((j : CampaignId) → (j == c) ≡ false → laws.value j s' ≡ laws.value j s)
  unfolding getset_remaining_to_zero
  getset_remaining_to_zero_lem c left s s' h = elim (Option-cases (redis.getset c 0 s)) [
    | inl e ↦ absurd (ground arith)
    | inr ((old, store), e) ↦
        let (was, after) = laws.getset_value c 0 s store old e in
        let here = after c in
        let same : store ≡ s' = ground arith in
        elim (Reply-cases old) [
          | inl d ↦ absurd (ground (arith, laws.parse_absent))
          | inr (inl (n, d)) ↦ absurd (ground (arith, laws.parse_negsuc n))
          | inr (inr (n, d)) ↦
              let parsed = laws.parse_pos n in
              (ground arith, ground arith, λ j other. ground (arith, after j))
        ]
  ]
