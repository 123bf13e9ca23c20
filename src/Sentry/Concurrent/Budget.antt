-- ===== src/Sentry/Concurrent/Budget.antt =====
-- The budget of a campaign under requests that interleave.
use adex_validator_stack_rus.Prelude.{
  ℕ, zero, suc, ◌≤◌, ◌≡◌, refl, sym, ap, ◌∙◌, subst, ◌⊎◌, inl, inr, Bool, true, false, ◌&&◌, Option,
  none, some, List, [], ◌∷◌, map, arith, ltb, if◌then◌else◌, total, ℤ, pos, negsuc, plus_nat,
  minus_nat, clamp, is_negative, or_zero, Result, ok, err, aborts,
}
use adex_validator_stack_rus.Sentry.Redis.{Redis, RedisLaws}
use adex_validator_stack_rus.Sentry.CampaignRemaining.{
  CampaignId, RedisError, redis_error, decrease_by, get_remaining_opt,
}
use adex_validator_stack_rus.Prelude.Actions.{pure, ◌>>=◌}
use adex_validator_stack_rus.Sentry.Accounting.{Database, spend_amount}
use adex_validator_stack_rus.Sentry.Events.{
  Error, event, campaign_out_of_budget, State, on_redis, on_rows, has_enough_remaining_budget,
}
use adex_validator_stack_rus.Sentry.Concurrent.Defs.{
  Request, Phase, arrived, admitted, taken, answered, after_check, after_take, after_write, advance,
  Requests, step_at, run,
}
use adex_validator_stack_rus.Sentry.Concurrent.Effects.{
  Effect, IsAccounted, idle, Effect-IsAccounted, beside, behind, plus_zero,
}

-- What a request has taken from the budget, and what it has taken without exceeding it.
abbrev pub took : Request × Phase → ℕ
took (r, arrived) = 0
took (r, admitted) = 0
took (r, taken z) = r.spending
took (r, answered true reply) = r.spending
took (r, answered false reply) = 0

abbrev pub covered : Request × Phase → ℕ
covered (r, arrived) = 0
covered (r, admitted) = 0
covered (r, taken z) = if is_negative z then 0 else r.spending
covered (r, answered true (ok done)) = r.spending
covered (r, answered true (err e)) = 0
covered (r, answered true aborts) = 0
covered (r, answered false reply) = 0

abbrev pub sum_of : (Request × Phase → ℕ) → List (Request × Phase) → ℕ
sum_of f ps = total (map f ps)

module _ (redis : Redis) (laws : RedisLaws redis) (db : Database) (c : CampaignId) where
  abbrev pub remaining_of : State redis → ℤ
  remaining_of s = or_zero (laws.value c s.store)

  -- A pure end leaves the store.
  pure_store :
      {A B : Type 0} (f : A → B) (q : Result RedisError A × redis.Store)
      → (((λ s. q) >>= λ a. pure (f a)) q.1).1 ≡ q.1
  pure_store f (ok a, s) = refl
  pure_store f (err e, s) = refl
  pure_store f (aborts, s) = refl

  module _ (r : Request) where
    check-Effect :
        (s : State redis) (q : Result Error Bool × State redis)
        → remaining_of q.1 ≡ remaining_of s
        → let (p, s') = after_check redis q in
          Effect (remaining_of s) (remaining_of s') 0 (took (r, p)) 0 (covered (r, p))
    check-Effect s (ok true, s') h = idle h (omega arith)
    check-Effect s (ok false, s') h = idle h (omega arith)
    check-Effect s (err e, s') h = idle h (omega arith)
    check-Effect s (aborts, s') h = idle h (omega arith)

    -- What the decrease has done.
    abbrev IsTaken : State redis → Result Error ℤ × State redis → Type 0
    IsTaken s (ok z, s') = (z ≡ minus_nat (remaining_of s) r.spending) × (remaining_of s' ≡ z)
    IsTaken s (err e, s') = remaining_of s' ≡ remaining_of s
    IsTaken s (aborts, s') = remaining_of s' ≡ remaining_of s

    solvent_or_none :
        (z : ℤ) (n : ℕ)
        → ((if is_negative z then 0 else n) ≤ n)
          × (((if is_negative z then 0 else n) ≡ 0) ⊎ (is_negative z ≡ false))
    solvent_or_none (pos m) n = (omega arith, inr refl)
    solvent_or_none (negsuc m) n = (omega arith, inl refl)

    take-Effect :
        (s : State redis) (q : Result Error ℤ × State redis)
        → IsTaken s q
        → let (p, s') = after_take redis q in
          Effect (remaining_of s) (remaining_of s') 0 (took (r, p)) 0 (covered (r, p))
    take-Effect s (ok z, s') h =
        let (within, solvent) = solvent_or_none z r.spending in
        record {
          d = r.spending;
          e = if is_negative z then 0 else r.spending;
          taken_by = h.1 ∙ h.0;
          took_by = omega arith;
          covered_by = omega arith;
          within = within;
          solvent =
              subst (λ x. ((if is_negative z then 0 else r.spending) ≡ 0) ⊎ (is_negative x ≡ false))
                (sym h.1) solvent;
        }
    take-Effect s (err e, s') h = idle h (omega arith)
    take-Effect s (aborts, s') h = idle h (omega arith)

    -- The reply of a written payment covers what the payment did.
    reply_covered :
        (b : Bool)
        → covered (r, answered true (if b then err (event campaign_out_of_budget) else ok tt))
          ≤ (if b then 0 else r.spending)
    reply_covered true = omega arith
    reply_covered false = omega arith

    write-Effect :
        {A : Type 0} (z : ℤ) (s : State redis) (q : Result Error A × State redis)
        → remaining_of q.1 ≡ remaining_of s
        → let (p, s') = after_write redis z q in
          Effect
            (remaining_of s)
            (remaining_of s')
            r.spending
            (took (r, p))
            (covered (r, taken z))
            (covered (r, p))
    write-Effect z s (ok rows, s') h = idle h (reply_covered (is_negative z))
    write-Effect z s (err e, s') h = idle h (omega arith)
    write-Effect z s (aborts, s') h = idle h (omega arith)

    check_unchanged :
        (s : State redis)
        → remaining_of (on_redis redis (has_enough_remaining_budget redis c r.spending) s).1
          ≡ remaining_of s
    unfolding has_enough_remaining_budget get_remaining_opt
    check_unchanged s =
        ap (λ t. or_zero (laws.value c t))
          (pure_store (λ v. ltb 0 (clamp (or_zero v)) && ltb r.spending (clamp (or_zero v)))
            (get_remaining_opt redis c s.store))

    -- The reply of the decrease, as `IsTaken` has it.
    reply-IsTaken :
        (s : State redis) (o : Option (ℤ × redis.Store))
        → ((z : ℤ) (t : redis.Store)
            → o ≡ some (z, t)
            → (z ≡ minus_nat (remaining_of s) r.spending) × (or_zero (laws.value c t) ≡ z))
        → IsTaken s (
            on_redis redis
              (λ t. elim o [ none ↦ (err redis_error, t) | some (z, t') ↦ (ok z, t') ])
              s)
    reply-IsTaken s none h = refl
    reply-IsTaken s (some (z, t)) h = h z t refl

    decrease-IsTaken :
        (s : State redis) → IsTaken s (on_redis redis (decrease_by redis c r.spending) s)
    unfolding decrease_by
    decrease-IsTaken s = reply-IsTaken s (redis.decrby c r.spending s.store) λ z t e.
        let (reply, others) = laws.decrby_value c r.spending s.store t z e in
        let here = others c in (reply, ground arith)

    advance-Effect :
        (p : Phase) (s : State redis)
        → let (p', s') = advance redis db c r p s in
          Effect
            (remaining_of s)
            (remaining_of s')
            (took (r, p))
            (took (r, p'))
            (covered (r, p))
            (covered (r, p'))
    unfolding advance
    advance-Effect arrived s =
        check-Effect s (on_redis redis (has_enough_remaining_budget redis c r.spending) s)
          (check_unchanged s)
    advance-Effect admitted s =
        take-Effect s (on_redis redis (decrease_by redis c r.spending) s) (decrease-IsTaken s)
    advance-Effect (taken z) s = write-Effect z s (on_rows redis (spend_amount db r.delta) s) refl
    advance-Effect (answered b reply) s = idle refl (omega arith)

  step_at-Effect :
      (n : ℕ) (ps : Requests redis db c) (s : State redis)
      → let (ps', s') = step_at redis db c n ps s in
        Effect
          (remaining_of s)
          (remaining_of s')
          (sum_of took ps)
          (sum_of took ps')
          (sum_of covered ps)
          (sum_of covered ps')
  unfolding step_at
  step_at-Effect n [] s = idle refl (omega arith)
  step_at-Effect zero ((r, p) ∷ ps) s =
      beside (sum_of took ps) (sum_of covered ps) (advance-Effect r p s)
  step_at-Effect (suc n) ((r, p) ∷ ps) s =
      behind (took (r, p)) (covered (r, p)) (step_at-Effect n ps s)

  run-IsAccounted :
      (ns : List ℕ) (ps : Requests redis db c) (s : State redis) (start : ℤ)
      → IsAccounted start (remaining_of s) (sum_of took ps) (sum_of covered ps)
      → let (ps', s') = run redis db c ns ps s in
        IsAccounted start (remaining_of s') (sum_of took ps') (sum_of covered ps')
  unfolding run
  run-IsAccounted [] ps s start h = h
  run-IsAccounted (n ∷ ns) ps s start h =
      let (ps', s') = step_at redis db c n ps s in
      run-IsAccounted ns ps' s' start (
        Effect-IsAccounted start (remaining_of s) (remaining_of s') (sum_of took ps)
          (sum_of took ps') (sum_of covered ps) (sum_of covered ps') h (step_at-Effect n ps s))

  -- All requests before their first step.
  abbrev pub waiting : List Request → Requests redis db c
  waiting rs = map (λ r. (r, arrived)) rs

  untouched :
      (rs : List Request) → (sum_of took (waiting rs) ≡ 0) × (sum_of covered (waiting rs) ≡ 0)
  untouched [] = (refl, refl)
  untouched (r ∷ rs) = let (t, v) = untouched rs in (omega (arith, t), omega (arith, v))

  -- However the steps of concurrent requests interleave, what is left of the campaign's budget and
  -- what the requests have taken from it make up the budget that was left at first; and what
  -- those took that found it not overspent, the ones answered with success among them, is no more
  -- than that budget.
  pub run-budget :
      (ns : List ℕ) (rs : List Request) (s : State redis)
      → let (ps, s') = run redis db c ns (waiting rs) s in
        (plus_nat (remaining_of s') (sum_of took ps) ≡ remaining_of s)
        × (sum_of covered ps ≤ clamp (remaining_of s))
  run-budget ns rs s =
      let (t, v) = untouched rs in
      let kept = run-IsAccounted ns (waiting rs) s (remaining_of s) (record {
        sum_kept = ap (λ n. plus_nat (remaining_of s) n) t ∙ plus_zero (remaining_of s);
        below = omega (arith, t, v);
        within = omega (arith, v);
      }) in
      (kept.sum_kept, kept.within)
