-- ===== src/Tests/Requests.antt =====
-- The theorems on access, on the route of the events and on concurrent payments at concrete data.
use adex_validator_stack_rus.Prelude.{
  All, false, sym, ℕ, ◌+◌, ◌/◌, ◌≤◌, ◌≡◌, refl, ap, ◌≢◌, inl, inr, none, some, List, [], ◌∷◌, arith,
  Bool-cases, any, plus_nat, clamp, ok,
}
use Prim.Native.String.{String}
use text.Mathlib.Text.{◌==◌ as ◌=ˢ◌}
use text.Mathlib.TextPositions.{eq_refl}
use text.Mathlib.TextEquality.{eq_iff}
use adex_validator_stack_rus.Campaign.{campaign_leader, campaign_follower, find}
use adex_validator_stack_rus.Sentry.Access.{
  forbidden_referrer_of, forbidden_country, LimitStore, RateLimit, check_access,
}
use adex_validator_stack_rus.Sentry.Access.Limits.{IsPresent, LimitLaws, IsWaiting}
use adex_validator_stack_rus.Sentry.Access.Recorded.{tasks_of, rules_of, check_access_once}
use adex_validator_stack_rus.Sentry.Access.Passed.{
  IsApart, IsFree, LimitAnswers, IsTaken, in_turn, check_access_passes,
}
use adex_validator_stack_rus.Sentry.Submission.{
  answer, Context, World, process_events, spend_with, after_access,
}
use adex_validator_stack_rus.Sentry.Submission.Admitted.{IsAdmitted, process_events_sound}
use adex_validator_stack_rus.Sentry.Concurrent.Defs.{Request}
use adex_validator_stack_rus.Sentry.Concurrent.Defs.{run as run_requests}
use adex_validator_stack_rus.Sentry.Concurrent.Budget.{
  took, covered, sum_of, waiting, remaining_of, run-budget,
}
use adex_validator_stack_rus.Tests.Memory.{memory, memory_laws}
use adex_validator_stack_rus.Tests.Events.{db, state, delta}
use adex_validator_stack_rus.Tests.Targeting.{
  whole, arithmetic, texts, greedy, priced_campaign, seen, session, spent, pays_for_one,
}

-- The keys that are set.
abbrev Keys : Type 0
Keys = List String

abbrev limits : LimitStore
limits = record {
  Store = Keys;
  exists = λ k s. some (any (λ j. j =ˢ k) s);
  set_ex = λ k n s. some (k ∷ s);
  seconds = λ ms. (ms + 999) / 1000;
}

-- A key that was just set is there; one that was there stays.
present : (k : String) (s s' : Keys) → some (k ∷ s) ≡ some s' → IsPresent limits k s'
present k s s' e h = let same = eq_refl k in ground arith

kept :
    (j k : String) (s s' : Keys)
    → some (k ∷ s) ≡ some s'
    → IsPresent limits j s
    → IsPresent limits j s'
kept j k s s' e p h = elim (Bool-cases (any (λ i. i =ˢ j) s)) [
  | inl there ↦ ground arith
  | inr absent ↦ p (ap (λ b. some b) absent)
]

limits_laws : LimitLaws limits
limits_laws = record {
  set_ex_present = λ k n s s' e. present k s s' e;
  set_ex_keeps = λ j k n s s' e h. kept j k s s' e h;
}

-- A key that is absent stays so when another one is set.
others :
    (j k : String) (s s' : Keys)
    → j ≢ k
    → some (k ∷ s) ≡ some s'
    → some (any (λ i. i =ˢ j) s) ≡ some false
    → some (any (λ i. i =ˢ j) s') ≡ some false
others j k s s' apart e h = elim (Bool-cases (k =ˢ j)) [
  | inl same ↦ absurd (apart (sym ((eq_iff k j).0 same)))
  | inr unlike ↦ ground arith
]

limits_answers : LimitAnswers limits
limits_answers = record {
  sets = λ k n s. (k ∷ s, refl);
  set_ex_others = λ j k n s s' apart e h. others j k s s' apart e h;
}

abbrev ip_limit : RateLimit
ip_limit = record { limit_type = "ip"; time_frame = 1500 }

abbrev hex : ℕ → String
hex n = "05"

abbrev key : String
key = "adexRateLimit:05:"

access_granted :
    check_access limits hex 1000
      (in_turn 1)
      session
      none
      none
      "creator"
      ip_limit
      priced_campaign
      (seen ∷ [])
      []
    ≡ (some (ok tt), key ∷ [])
unfolding check_access in_turn
access_granted = refl

waits :
    IsWaiting key (tasks_of hex session none none "creator" ip_limit priced_campaign (seen ∷ []))
unfolding IsWaiting tasks_of rules_of
waits = inl (1500, refl)

check_access_once_example :
    IsPresent limits key (key ∷ [])
    × ((check_access limits hex 1000
          (in_turn 1)
          session
          none
          none
          "creator"
          ip_limit
          priced_campaign
          (seen ∷ [])
          (key ∷ [])).0
        ≢ some (ok tt))
unfolding rules_of
check_access_once_example =
    check_access_once limits limits_laws hex 1000 session none none "creator" ip_limit
      priced_campaign (seen ∷ []) (in_turn 1) (in_turn 1) key [] (key ∷ []) refl waits
      access_granted

free :
    IsFree limits (tasks_of hex session none none "creator" ip_limit priced_campaign (seen ∷ [])) []
unfolding IsFree IsApart tasks_of rules_of
free = (refl, tt, tt)

check_access_passes_example :
    (keys : Keys) × (check_access limits hex 1000
        (in_turn 1)
        session
        none
        none
        "creator"
        ip_limit
        priced_campaign
        (seen ∷ [])
        []
      ≡ (some (ok tt), keys))
    × All
        (IsTaken limits keys)
        (tasks_of hex session none none "creator" ip_limit priced_campaign (seen ∷ []))
unfolding rules_of forbidden_country forbidden_referrer_of
check_access_passes_example =
    check_access_passes limits limits_answers limits_laws hex 1000 session none none "creator"
      ip_limit priced_campaign (seen ∷ []) [] (omega arith) refl refl refl free

abbrev context : Context whole
context = record {
  arithmetic = arithmetic;
  texts = texts;
  decoder = greedy;
  hex = hex;
  now = 1000;
  database = db;
  session = session;
  auth = none;
  allow = none;
  creator = "creator";
  ip_rate_limit = ip_limit;
}

abbrev before : World limits memory
before = record { keys = []; paying = state }

abbrev later : World limits memory
later = record { keys = key ∷ []; paying = spent }

processed :
    process_events whole limits memory context (in_turn 1) priced_campaign (seen ∷ []) before
    ≡ (some (ok ((seen, 8, 20) ∷ [])), later)
unfolding process_events check_access after_access spend_with in_turn campaign_leader
    campaign_follower find
processed =
    ap (λ q. (answer whole limits memory context q.0, record { keys = key ∷ []; paying = q.1 }))
      pays_for_one

process_events_sound_example :
    IsAdmitted whole limits memory context
      (in_turn 1)
      priced_campaign
      (seen ∷ [])
      before
      later
      ((seen, 8, 20) ∷ [])
process_events_sound_example =
    process_events_sound whole limits memory context (in_turn 1) priced_campaign (seen ∷ []) before
      later ((seen, 8, 20) ∷ []) processed

abbrev request : Request
request = record { spending = 30; delta = delta }

-- Two requests that both find 50 enough for 30.
abbrev interleaved : List ℕ
interleaved = 0 ∷ 1 ∷ 0 ∷ 1 ∷ 0 ∷ 1 ∷ []

run-budget_example :
    let (ps, s') =
      run_requests memory db 5 interleaved
        (waiting memory memory_laws db 5 (request ∷ request ∷ []))
        state in
    (plus_nat (remaining_of memory memory_laws db 5 s') (sum_of took ps)
      ≡ remaining_of memory memory_laws db 5 state)
    × (sum_of covered ps ≤ clamp (remaining_of memory memory_laws db 5 state))
run-budget_example = run-budget memory memory_laws db 5 interleaved (request ∷ request ∷ []) state
