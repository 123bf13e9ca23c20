-- ===== src/Sentry/Access/Recorded.antt =====
-- What a request that was let through leaves behind: the keys of its limits.
use adex_validator_stack_rus.Prelude.{
  ℕ, zero, suc, ◌≡◌, refl, sym, ap, ◌∙◌, subst, ◌≢◌, ◌⊎◌, inl, inr, Bool, true, false, ◌||◌, Option,
  some, List, [], ◌∷◌, map, arith, ltb, if◌then◌else◌, Option-cases, any, Result, ok, err,
  or_default, Result-cases,
}
use Prim.Native.String.{String}
use adex_validator_stack_rus.Campaign.{Campaign}
use adex_validator_stack_rus.Sentry.Payout.{Session, Event}
use adex_validator_stack_rus.Sentry.Access.Defs.{
  RateLimit, SubmissionRule, AccessError, LimitStore, forbidden_referrer_of, forbidden_country,
  applicable, default_rules, is_unlimited, Task, checking, writing, finished, refused, task_of,
  advance, step_at, run_tasks, all_finished, joined, check_access, campaign_is_expired,
  forbidden_referrer,
}
use adex_validator_stack_rus.Sentry.Access.Limits.{
  IsPresent, LimitLaws, IsWaiting, step_here, step_there, run_inv, step_at-present,
  joined-IsWaiting, unfinished_joined,
}

-- One of the rules has still to write a key.
unfoldable pub IsDue : String → List Task → Type 0
IsDue key [] = ⊥
IsDue key (t ∷ ts) =
    (((n : ℕ) × (t ≡ checking key n)) ⊎ ((n : ℕ) × (t ≡ writing key n))) ⊎ IsDue key ts

-- The rules that apply to a request.
unfoldable pub rules_of :
    Option String → Option (List SubmissionRule) → String → RateLimit → List SubmissionRule
unfolding applicable
rules_of auth allow creator limit =
    applicable (or_default "" auth) (or_default (default_rules creator limit) allow)

-- What they will ask of Redis.
unfoldable pub tasks_of :
    (ℕ → String)
    → Session
    → Option String
    → Option (List SubmissionRule)
    → String
    → RateLimit
    → Campaign
    → List Event
    → List Task
unfolding task_of rules_of
tasks_of hex session auth allow creator limit c events =
    map (task_of hex c events (or_default "" auth) session) (rules_of auth allow creator limit)

module _ (redis : LimitStore) (laws : LimitLaws redis) where
  advance-IsDue :
      (key : String) (t t' : Task) (ts : List Task) (s s' : redis.Store)
      → ((n : ℕ) × (t ≡ checking key n)) ⊎ ((n : ℕ) × (t ≡ writing key n))
      → advance redis t s ≡ (ok t', s')
      → IsDue key (t' ∷ ts) ⊎ IsPresent redis key s'
  unfolding advance IsDue
  advance-IsDue key t t' ts s s' (inl (n, e)) h =
      let moved = ap (λ u. advance redis u s) (sym e) ∙ h in
      elim (Option-cases (redis.exists key s)) [
        | inl f ↦ absurd (ground arith)
        | inr (true, f) ↦ absurd (ground arith)
        | inr (false, f) ↦ inl (inl (inr (n, ground arith)))
      ]
  advance-IsDue key t t' ts s s' (inr (n, e)) h =
      let moved = ap (λ u. advance redis u s) (sym e) ∙ h in
      elim (Option-cases (redis.set_ex key (redis.seconds n) s)) [
        | inl f ↦ absurd (ground arith)
        | inr (s2, f) ↦ inr (
            subst (IsPresent redis key) {x = s2} {y = s'} (ground arith)
              (laws.set_ex_present key (redis.seconds n) s s2 f))
      ]

  step_at-IsDue :
      (key : String) (n : ℕ) (ts ts' : List Task) (s s' : redis.Store)
      → IsDue key ts
      → step_at redis n ts s ≡ (ok ts', s')
      → IsDue key ts' ⊎ IsPresent redis key s'
  unfolding IsDue
  step_at-IsDue key n [] ts' s s' w h = absurd w
  step_at-IsDue key zero (t ∷ ts) ts' s s' w h =
      let (t', moved, e) = step_here redis laws t ts ts' s s' h in
      elim w [
        | inl here ↦ elim (advance-IsDue key t t' ts s s' here moved) [
          | inl still ↦ inl (subst (IsDue key) {x = t' ∷ ts} {y = ts'} e still)
          | inr there ↦ inr there
        ]
        | inr later ↦ inl (subst (IsDue key) {x = t' ∷ ts} {y = ts'} e (inr later))
      ]
  step_at-IsDue key (suc n) (t ∷ ts) ts' s s' w h =
      let (rest, moved, e) = step_there redis laws n t ts ts' s s' h in
      elim w [
        | inl here ↦ inl (subst (IsDue key) {x = t ∷ rest} {y = ts'} e (inl here))
        | inr later ↦ elim (step_at-IsDue key n ts rest s s' later moved) [
          | inl still ↦ inl (subst (IsDue key) {x = t ∷ rest} {y = ts'} e (inr still))
          | inr there ↦ inr there
        ]
      ]

  run_tasks-present :
      (key : String) (ns : List ℕ) (ts ts' : List Task) (s s' : redis.Store)
      → IsPresent redis key s
      → run_tasks redis ns ts s ≡ (ok ts', s')
      → IsPresent redis key s'
  unfolding run_tasks
  run_tasks-present key [] ts ts' s s' p h = subst (IsPresent redis key) (ap (λ q. q.1) h) p
  run_tasks-present key (n ∷ ns) ts ts' s s' p h =
      let (mid, s2, first, then_rest) = run_inv redis laws n ns ts ts' s s' h in
      run_tasks-present key ns mid ts' s2 s' (step_at-present redis laws key n ts mid s s2 p first)
        then_rest

  run_tasks-IsDue :
      (key : String) (ns : List ℕ) (ts ts' : List Task) (s s' : redis.Store)
      → IsDue key ts
      → run_tasks redis ns ts s ≡ (ok ts', s')
      → IsDue key ts' ⊎ IsPresent redis key s'
  unfolding run_tasks
  run_tasks-IsDue key [] ts ts' s s' w h = inl (subst (IsDue key) (ground arith) w)
  run_tasks-IsDue key (n ∷ ns) ts ts' s s' w h =
      let (mid, s2, first, then_rest) = run_inv redis laws n ns ts ts' s s' h in
      elim (step_at-IsDue key n ts mid s s2 w first) [
        | inl still ↦ run_tasks-IsDue key ns mid ts' s2 s' still then_rest
        | inr there ↦ inr (run_tasks-present key ns mid ts' s2 s' there then_rest)
      ]

  due_unfinished : (key : String) (ts : List Task) → IsDue key ts → all_finished redis ts ≢ true
  unfolding IsDue
  due_unfinished key [] w h = w
  due_unfinished key (finished ∷ ts) (inl (inl (n, e))) h = absurd (ground arith)
  due_unfinished key (finished ∷ ts) (inl (inr (n, e))) h = absurd (ground arith)
  due_unfinished key (finished ∷ ts) (inr w) h = due_unfinished key ts w h
  due_unfinished key (checking k n ∷ ts) w h = ground arith
  due_unfinished key (writing k n ∷ ts) w h = ground arith
  due_unfinished key (refused e ∷ ts) w h = ground arith

  waiting-IsDue : (key : String) (ts : List Task) → IsWaiting key ts → IsDue key ts
  unfolding IsDue IsWaiting
  waiting-IsDue key [] w = absurd w
  waiting-IsDue key (t ∷ ts) (inl here) = inl (inl here)
  waiting-IsDue key (t ∷ ts) (inr later) = inr (waiting-IsDue key ts later)

  pub joined-present :
      (key : String) (ns : List ℕ) (ts : List Task) (s : redis.Store)
      → IsDue key ts
      → joined redis (run_tasks redis ns ts s).0 ≡ some (ok tt)
      → IsPresent redis key (run_tasks redis ns ts s).1
  joined-present key ns ts s w h = elim (Result-cases (run_tasks redis ns ts s).0) [
    | inl (ts', e) ↦
        elim (run_tasks-IsDue key ns ts ts' s (run_tasks redis ns ts s).1 w (ground arith)) [
          | inl still ↦ absurd (
              unfinished_joined redis laws ts' (due_unfinished key ts' still)
                (ap (joined redis) (sym e) ∙ h))
          | inr there ↦ there
        ]
    | inr (inl (f, e)) ↦ absurd (ground arith)
    | inr (inr e) ↦ absurd (ground arith)
  ]

  abbrev Reply : Type 0
  Reply = Option (Result AccessError (Unit {0}))

  -- What passes the tests before the limits was let through by the limits.
  past_tests :
      (a b u : Bool) (e f : AccessError) (s : redis.Store) (x : Reply × redis.Store)
      → u ≡ false
      → (if a
          then (some (err e), s)
          else if b
          then (some (err f), s)
          else if u
          then (some (ok tt), s)
          else x).0
        ≡ some (ok tt)
      → (x.0 ≡ some (ok tt))
        × ((if a
              then (some (err e), s)
              else if b
              then (some (err f), s)
              else if u
              then (some (ok tt), s)
              else x).1
            ≡ x.1)
  past_tests true b u e f s x l h = absurd (ground arith)
  past_tests false true u e f s x l h = absurd (ground arith)
  past_tests false false true e f s x l h = absurd (ground arith)
  past_tests false false false e f s x l h = (h, refl)

  module _ (hex : ℕ → String) (now : ℕ) (session : Session) (auth : Option String)
      (allow : Option (List SubmissionRule)) (creator : String) (limit : RateLimit) (c : Campaign)
      (events : List Event) where
    abbrev tasks : List Task
    tasks = tasks_of hex session auth allow creator limit c events

    limits_passed :
        (schedule : List ℕ) (s : redis.Store)
        → any is_unlimited (rules_of auth allow creator limit) ≡ false
        → (check_access redis hex now schedule session auth allow creator limit c events s).0
          ≡ some (ok tt)
        → (joined redis (run_tasks redis schedule tasks s).0 ≡ some (ok tt))
          × ((check_access redis hex now schedule session auth allow creator limit c events s).1
              ≡ (run_tasks redis schedule tasks s).1)
    unfolding check_access tasks_of rules_of
    limits_passed schedule s limited h =
        past_tests (ltb c.active.to now)
          (forbidden_country session || forbidden_referrer_of session)
          (any is_unlimited (rules_of auth allow creator limit)) campaign_is_expired
          forbidden_referrer s
          (joined redis (run_tasks redis schedule tasks s).0, (run_tasks redis schedule tasks s).1)
          limited h

    -- A request none of whose rules is without a limit, and one of whose rules has its key in
    -- Redis, is not let through, in whatever order the commands of its rules are carried out.
    pub check_access_limited :
        (schedule : List ℕ) (key : String) (s : redis.Store)
        → any is_unlimited (rules_of auth allow creator limit) ≡ false
        → IsWaiting key (tasks_of hex session auth allow creator limit c events)
        → IsPresent redis key s
        → (check_access redis hex now schedule session auth allow creator limit c events s).0
          ≢ some (ok tt)
    check_access_limited schedule key s limited w p h =
        joined-IsWaiting redis laws key schedule tasks s p w (limits_passed schedule s limited h).0

    -- A request that was let through, and none of whose rules is without a limit, leaves the key
    -- of each of its limits in Redis, so that a second one like it is not let through as long as
    -- the key is there.
    pub check_access_once :
        (schedule again : List ℕ) (key : String) (s s' : redis.Store)
        → any is_unlimited (rules_of auth allow creator limit) ≡ false
        → IsWaiting key (tasks_of hex session auth allow creator limit c events)
        → check_access redis hex now schedule session auth allow creator limit c events s
          ≡ (some (ok tt), s')
        → IsPresent redis key s'
          × ((check_access redis hex now again session auth allow creator limit c events s').0
              ≢ some (ok tt))
    check_access_once schedule again key s s' limited w h =
        let (passed, same) = limits_passed schedule s limited (ap (λ q. q.0) h) in
        let there : IsPresent redis key s' =
          subst (IsPresent redis key) (sym same ∙ ap (λ q. q.1) h)
            (joined-present key schedule tasks s (waiting-IsDue key tasks w) passed) in
        (there, check_access_limited again key s' limited w there)
