-- ===== src/Sentry/Access/Passed.antt =====
-- A request whose limits are all free is let through.
use adex_validator_stack_rus.Prelude.{
  ℕ, zero, suc, ◌≤◌, ◌≡◌, refl, sym, ap, ◌∙◌, subst, ◌≢◌, inl, inr, Bool, true, false, ◌||◌, Option,
  some, List, [], ◌∷◌, map, arith, ltb, if◌then◌else◌, length, any, All, Result, ok, err, aborts,
  or_default,
}
use Prim.Native.String.{String}
use adex_validator_stack_rus.Campaign.{Campaign}
use adex_validator_stack_rus.Sentry.Payout.{Session, Event}
use adex_validator_stack_rus.Sentry.Access.Defs.{
  RateLimit, SubmissionRule, RuleError, AccessError, task_of, campaign_is_expired,
  forbidden_referrer, LimitStore, forbidden_referrer_of, forbidden_country, is_unlimited, Task,
  checking, writing, finished, refused, after_exists, after_set, put_first, put_behind, proceed,
  Joint, advance, step_at, run_tasks, all_finished, joined, check_access,
}
use adex_validator_stack_rus.Sentry.Access.Limits.{IsPresent, LimitLaws}
use adex_validator_stack_rus.Sentry.Access.Recorded.{IsDue, rules_of, tasks_of, joined-present}

-- Every rule has its turn twice, one rule after another.
unfoldable pub in_turn : ℕ → List ℕ
in_turn zero = []
in_turn (suc n) = 0 ∷ 0 ∷ map (λ k. suc k) (in_turn n)

length-map : {A B : Type 0} (f : A → B) (xs : List A) → length (map f xs) ≡ length xs
length-map f [] = refl
length-map f (x ∷ xs) = ap (λ n. suc n) (length-map f xs)

-- Redis carries out `SETEX`, which brings no other key about.
pub record LimitAnswers (redis : LimitStore) : Type 0 where
  pub sets :
      (key : String) (n : ℕ) (s : redis.Store)
      → (s' : redis.Store) × (redis.set_ex key n s ≡ some s')
  pub set_ex_others :
      (other key : String) (n : ℕ) (s s' : redis.Store)
      → other ≢ key
      → redis.set_ex key n s ≡ some s'
      → redis.exists other s ≡ some false
      → redis.exists other s' ≡ some false

-- No rule checks the key.
unfoldable pub IsApart : String → List Task → Type 0
IsApart key [] = Unit {0}
IsApart key (checking k n ∷ ts) = (k ≢ key) × IsApart key ts
IsApart key (_ ∷ ts) = IsApart key ts

-- Each rule has no limit, or checks a key that is absent and that no other rule checks.
unfoldable pub IsFree : (redis : LimitStore) → List Task → redis.Store → Type 0
unfolding IsApart
IsFree redis [] s = Unit {0}
IsFree redis (checking key n ∷ ts) s =
    (redis.exists key s ≡ some false) × IsApart key ts × IsFree redis ts s
IsFree redis (writing key n ∷ ts) s = ⊥
IsFree redis (finished ∷ ts) s = IsFree redis ts s
IsFree redis (refused e ∷ ts) s = ⊥

-- The key of the rule, if it has one, is in Redis.
abbrev pub IsTaken : (redis : LimitStore) → redis.Store → Task → Type 0
IsTaken redis s (checking key n) = IsPresent redis key s
IsTaken redis s _ = Unit {0}

module _ (redis : LimitStore) where
  unfoldable HasPassed : Result RuleError (List Task) → Type 0
  HasPassed (ok ts) = all_finished redis ts ≡ true
  HasPassed (err e) = ⊥
  HasPassed aborts = ⊥

  behind-HasPassed : (r : Joint redis) → HasPassed r.0 → HasPassed (put_behind redis finished r).0
  unfolding HasPassed
  behind-HasPassed (ok ts, s) h = h
  behind-HasPassed (err e, s) h = h
  behind-HasPassed (aborts, s) h = h

  proceed-behind :
      (ns ms : List ℕ) (r : Joint redis)
      → ((ts : List Task) (s : redis.Store)
          → run_tasks redis ms (finished ∷ ts) s
            ≡ put_behind redis finished (run_tasks redis ns ts s))
      → proceed redis (run_tasks redis ms) (put_behind redis finished r)
        ≡ put_behind redis finished (proceed redis (run_tasks redis ns) r)
  proceed-behind ns ms (ok ts, s) h = h ts s
  proceed-behind ns ms (err e, s) h = refl
  proceed-behind ns ms (aborts, s) h = refl

  -- The steps of the rules behind one that has finished.
  run_tasks-behind :
      (ns : List ℕ) (ts : List Task) (s : redis.Store)
      → run_tasks redis (map (λ k. suc k) ns) (finished ∷ ts) s
        ≡ put_behind redis finished (run_tasks redis ns ts s)
  unfolding run_tasks step_at
  run_tasks-behind [] ts s = refl
  run_tasks-behind (n ∷ ns) ts s =
      proceed-behind ns (map (λ k. suc k) ns) (step_at redis n ts s) (run_tasks-behind ns)

  behind_passes :
      (ts : List Task) (s : redis.Store)
      → HasPassed (run_tasks redis (in_turn (length ts)) ts s).0
      → HasPassed (run_tasks redis (map (λ k. suc k) (in_turn (length ts))) (finished ∷ ts) s).0
  behind_passes ts s h =
      subst (λ r. HasPassed r.0) (sym (run_tasks-behind (in_turn (length ts)) ts s))
        (behind-HasPassed (run_tasks redis (in_turn (length ts)) ts s) h)

  passed_joined : (r : Result RuleError (List Task)) → HasPassed r → joined redis r ≡ some (ok tt)
  unfolding HasPassed
  passed_joined (ok ts) h = ground arith
  passed_joined (err e) h = absurd h
  passed_joined aborts h = absurd h

  now_in_time : (now end : ℕ) → now ≤ end → ltb end now ≡ false
  now_in_time now end h = ground arith

  abbrev Answer : Type 0
  Answer = Option (Result AccessError (Unit {0})) × redis.Store

  abbrev let_in : redis.Store → Answer
  let_in s = (some (ok tt), s)

  abbrev kept_out : AccessError → redis.Store → Answer
  kept_out e s = (some (err e), s)

  guards :
      (a b u : Bool) (s : redis.Store) (r : Answer)
      → a ≡ false
      → b ≡ false
      → u ≡ false
      → r.0 ≡ some (ok tt)
      → (if a || b then kept_out forbidden_referrer s else if u then let_in s else r) ≡ let_in r.1
  guards true b u s r f g h e = absurd (ground arith)
  guards false true u s r f g h e = absurd (ground arith)
  guards false false true s r f g h e = absurd (ground arith)
  guards false false false s r f g h e = ap (λ y. (y, r.1)) e

  -- What is present of every due key is so for the rules one by one.
  due-IsTaken :
      (ts : List Task) (s : redis.Store)
      → ((key : String) → IsDue key ts → IsPresent redis key s)
      → All (IsTaken redis s) ts
  unfolding IsDue
  due-IsTaken [] s h = tt
  due-IsTaken (checking key n ∷ ts) s h =
      (h key (inl (inl (n, refl))), due-IsTaken ts s (λ k w. h k (inr w)))
  due-IsTaken (writing key n ∷ ts) s h = (tt, due-IsTaken ts s (λ k w. h k (inr w)))
  due-IsTaken (finished ∷ ts) s h = (tt, due-IsTaken ts s (λ k w. h k (inr w)))
  due-IsTaken (refused e ∷ ts) s h = (tt, due-IsTaken ts s (λ k w. h k (inr w)))

  module _ (answers : LimitAnswers redis) where
    keeps-IsFree :
        (key : String) (n : ℕ) (ts : List Task) (s s' : redis.Store)
        → redis.set_ex key n s ≡ some s'
        → IsApart key ts
        → IsFree redis ts s
        → IsFree redis ts s'
    unfolding IsFree IsApart
    keeps-IsFree key n [] s s' e a h = tt
    keeps-IsFree key n (checking k m ∷ ts) s s' e a h =
        (answers.set_ex_others k key n s s' a.0 e h.0, h.1, keeps-IsFree key n ts s s' e a.1 h.2)
    keeps-IsFree key n (writing k m ∷ ts) s s' e a h = h
    keeps-IsFree key n (finished ∷ ts) s s' e a h = keeps-IsFree key n ts s s' e a h
    keeps-IsFree key n (refused r ∷ ts) s s' e a h = h

    -- The two turns of a rule whose key is absent.
    two_turns :
        (ns : List ℕ) (ts : List Task) (key : String) (n : ℕ) (s s' : redis.Store)
        → redis.exists key s ≡ some false
        → redis.set_ex key (redis.seconds n) s ≡ some s'
        → HasPassed (run_tasks redis ns (finished ∷ ts) s').0
        → HasPassed (run_tasks redis (0 ∷ 0 ∷ ns) (checking key n ∷ ts) s).0
    unfolding run_tasks step_at advance
    two_turns ns ts key n s s' absent set h =
        subst
          (λ o.
            HasPassed
              (proceed redis (run_tasks redis (0 ∷ ns))
                (put_first redis ts (after_exists redis key n s o))).0)
          (sym absent)
          (subst
            (λ o.
              HasPassed
                (proceed redis (run_tasks redis ns) (put_first redis ts (after_set redis s o))).0)
            (sym set) h)

    run_tasks-HasPassed :
        (ts : List Task) (s : redis.Store)
        → IsFree redis ts s
        → HasPassed (run_tasks redis (in_turn (length ts)) ts s).0
    unfolding in_turn run_tasks step_at advance HasPassed IsFree
    run_tasks-HasPassed [] s h = refl
    run_tasks-HasPassed (checking key n ∷ ts) s h =
        let (s', set) = answers.sets key (redis.seconds n) s in
        two_turns (map (λ k. suc k) (in_turn (length ts))) ts key n s s' h.0 set (
          behind_passes ts s'
            (run_tasks-HasPassed ts s' (keeps-IsFree key (redis.seconds n) ts s s' set h.1 h.2)))
    run_tasks-HasPassed (writing key n ∷ ts) s h = absurd h
    run_tasks-HasPassed (finished ∷ ts) s h = behind_passes ts s (run_tasks-HasPassed ts s h)
    run_tasks-HasPassed (refused e ∷ ts) s h = absurd h

    -- Where Redis carries out every command: a request in time, from no forbidden country or referrer,
    -- each of whose rules checks a key of its own that is absent from Redis, or is without a limit of a
    -- known type, is let through once each rule, one after another, has had two turns; and then the key
    -- of every limit is not absent. None of the rules lets the request through without any limit.
    pub check_access_passes :
        (laws : LimitLaws redis) (hex : ℕ → String) (now : ℕ) (session : Session)
        (auth : Option String) (allow : Option (List SubmissionRule)) (creator : String)
        (limit : RateLimit) (c : Campaign) (events : List Event) (s : redis.Store)
        → now ≤ c.active.to
        → forbidden_country session ≡ false
        → forbidden_referrer_of session ≡ false
        → any is_unlimited (rules_of auth allow creator limit) ≡ false
        → IsFree redis (tasks_of hex session auth allow creator limit c events) s
        → (s' : redis.Store) × (check_access redis hex now
              (in_turn (length (rules_of auth allow creator limit)))
              session
              auth
              allow
              creator
              limit
              c
              events
              s
            ≡ (some (ok tt), s'))
          × All (IsTaken redis s') (tasks_of hex session auth allow creator limit c events)
    unfolding check_access tasks_of rules_of
    check_access_passes laws hex now session auth allow creator limit c events s t country referrer
          some_limit free =
        let tasks = tasks_of hex session auth allow creator limit c events in
        let schedule = in_turn (length (rules_of auth allow creator limit)) in
        let run = run_tasks redis schedule tasks s in
        let passed : HasPassed run.0 =
          subst (λ n. HasPassed (run_tasks redis (in_turn n) tasks s).0)
            (length-map (task_of hex c events (or_default "" auth) session)
              (rules_of auth allow creator limit))
            (run_tasks-HasPassed tasks s free) in
        let done = passed_joined run.0 passed in
        (
          run.1,
          ap
                (λ (b : Bool).
                  if b
                  then kept_out campaign_is_expired s
                  else if forbidden_country session || forbidden_referrer_of session
                  then kept_out forbidden_referrer s
                  else if any is_unlimited (rules_of auth allow creator limit)
                  then let_in s
                  else (joined redis run.0, run.1))
                (now_in_time now c.active.to t)
              ∙ guards (forbidden_country session) (forbidden_referrer_of session)
                  (any is_unlimited (rules_of auth allow creator limit)) s
                  (joined redis run.0, run.1) country referrer some_limit done,
          due-IsTaken tasks run.1
              (λ key due. joined-present redis laws key schedule tasks s due done),
        )
