-- ===== src/Sentry/Access/Limits.antt =====
-- Rate limits hold in whatever order the commands of the rules reach Redis.
use adex_validator_stack_rus.Prelude.{
  ℕ, zero, suc, ◌≡◌, sym, ap, ◌∙◌, subst, ◌≢◌, ◌⊎◌, inl, inr, true, false, some, List, [], ◌∷◌,
  arith, Option-cases, ok, Result-cases,
}
use Prim.Native.String.{String}
use adex_validator_stack_rus.Sentry.Access.Defs.{
  LimitStore, Task, checking, writing, finished, refused, advance, step_at, run_tasks, all_finished,
  joined,
}

-- A key is not known to be absent; `SETEX` makes it so, and takes no key away.
abbrev pub IsPresent : (redis : LimitStore) → String → redis.Store → Type 0
IsPresent redis key s = redis.exists key s ≢ some false

pub record LimitLaws (redis : LimitStore) : Type 0 where
  pub set_ex_present :
      (key : String) (n : ℕ) (s s' : redis.Store)
      → redis.set_ex key n s ≡ some s'
      → IsPresent redis key s'
  pub set_ex_keeps :
      (other key : String) (n : ℕ) (s s' : redis.Store)
      → redis.set_ex key n s ≡ some s'
      → IsPresent redis other s
      → IsPresent redis other s'

-- One of the rules has still to check a key.
abbrev IsChecking : String → Task → Type 0
IsChecking key t = (time : ℕ) × (t ≡ checking key time)

unfoldable pub IsWaiting : String → List Task → Type 0
IsWaiting key [] = ⊥
IsWaiting key (t ∷ ts) = ((time : ℕ) × (t ≡ checking key time)) ⊎ IsWaiting key ts

module _ (redis : LimitStore) (laws : LimitLaws redis) where
  advance-present :
      (key : String) (t t' : Task) (s s' : redis.Store)
      → IsPresent redis key s
      → advance redis t s ≡ (ok t', s')
      → IsPresent redis key s'
  unfolding advance
  advance-present key (checking k n) t' s s' p h = elim (Option-cases (redis.exists k s)) [
    | inl e ↦ absurd (ground arith)
    | inr (true, e) ↦ absurd (ground arith)
    | inr (false, e) ↦ subst (IsPresent redis key) (ground arith) p
  ]
  advance-present key (writing k n) t' s s' p h =
      elim (Option-cases (redis.set_ex k (redis.seconds n) s)) [
        | inl e ↦ absurd (ground arith)
        | inr (s2, e) ↦
            subst (IsPresent redis key) (ground arith)
              (laws.set_ex_keeps key k (redis.seconds n) s s2 e p)
      ]
  advance-present key finished t' s s' p h = subst (IsPresent redis key) (ground arith) p
  advance-present key (refused e) t' s s' p h = absurd (ground arith)

  -- A rule whose key is present does not get past its check.
  advance_blocked :
      (key : String) (n : ℕ) (t' : Task) (s s' : redis.Store)
      → IsPresent redis key s
      → advance redis (checking key n) s ≢ (ok t', s')
  unfolding advance
  advance_blocked key n t' s s' p h = elim (Option-cases (redis.exists key s)) [
    | inl e ↦ ground arith
    | inr (true, e) ↦ ground arith
    | inr (false, e) ↦ p e
  ]

  pub step_here :
      (t : Task) (ts ts' : List Task) (s s' : redis.Store)
      → step_at redis zero (t ∷ ts) s ≡ (ok ts', s')
      → (t' : Task) × (advance redis t s ≡ (ok t', s')) × (t' ∷ ts ≡ ts')
  unfolding step_at
  step_here t ts ts' s s' h = elim (Result-cases (advance redis t s).0) [
    | inl (t', e) ↦ (t', ground arith, ground arith)
    | inr bad ↦ absurd (ground (arith, bad))
  ]

  pub step_there :
      (n : ℕ) (t : Task) (ts ts' : List Task) (s s' : redis.Store)
      → step_at redis (suc n) (t ∷ ts) s ≡ (ok ts', s')
      → (rest : List Task) × (step_at redis n ts s ≡ (ok rest, s')) × (t ∷ rest ≡ ts')
  unfolding step_at
  step_there n t ts ts' s s' h = elim (Result-cases (step_at redis n ts s).0) [
    | inl (rest, e) ↦ (rest, ground arith, ground arith)
    | inr bad ↦ absurd (ground (arith, bad))
  ]

  pub step_at-present :
      (key : String) (n : ℕ) (ts ts' : List Task) (s s' : redis.Store)
      → IsPresent redis key s
      → step_at redis n ts s ≡ (ok ts', s')
      → IsPresent redis key s'
  unfolding step_at
  step_at-present key n [] ts' s s' p h = subst (IsPresent redis key) (ap (λ q. q.1) h) p
  step_at-present key zero (t ∷ ts) ts' s s' p h =
      let (t', moved, e) = step_here t ts ts' s s' h in advance-present key t t' s s' p moved
  step_at-present key (suc n) (t ∷ ts) ts' s s' p h =
      let (rest, moved, e) = step_there n t ts ts' s s' h in
      step_at-present key n ts rest s s' p moved

  step_at-IsWaiting :
      (key : String) (n : ℕ) (ts ts' : List Task) (s s' : redis.Store)
      → IsPresent redis key s
      → IsWaiting key ts
      → step_at redis n ts s ≡ (ok ts', s')
      → IsPresent redis key s' × IsWaiting key ts'
  unfolding IsWaiting
  step_at-IsWaiting key n [] ts' s s' p w h = absurd w
  step_at-IsWaiting key zero (t ∷ ts) ts' s s' p w h =
      let (t', moved, e) = step_here t ts ts' s s' h in
      let kept = advance-present key t t' s s' p moved in
      elim w [
        | inl (n, c) ↦
            absurd (advance_blocked key n t' s s' p (ap (λ u. advance redis u s) (sym c) ∙ moved))
        | inr later ↦ (kept, subst (IsWaiting key) {x = t' ∷ ts} {y = ts'} e (inr later))
      ]
  step_at-IsWaiting key (suc n) (t ∷ ts) ts' s s' p w h =
      let (rest, moved, e) = step_there n t ts ts' s s' h in
      elim w [
        | inl here ↦ (
          step_at-present key n ts rest s s' p moved,
          subst (IsWaiting key) {x = t ∷ rest} {y = ts'} e (inl here),
        )
        | inr later ↦
            let (kept, still) = step_at-IsWaiting key n ts rest s s' p later moved in
            (kept, subst (IsWaiting key) {x = t ∷ rest} {y = ts'} e (inr still))
      ]

  pub run_inv :
      (n : ℕ) (ns : List ℕ) (ts ts' : List Task) (s s' : redis.Store)
      → run_tasks redis (n ∷ ns) ts s ≡ (ok ts', s')
      → (mid : List Task) × (s2 : redis.Store) × (step_at redis n ts s ≡ (ok mid, s2))
        × (run_tasks redis ns mid s2 ≡ (ok ts', s'))
  unfolding run_tasks
  run_inv n ns ts ts' s s' h = elim (Result-cases (step_at redis n ts s).0) [
    | inl (mid, e) ↦ (mid, (step_at redis n ts s).1, ground arith, ground arith)
    | inr bad ↦ absurd (ground (arith, bad))
  ]

  run_tasks-IsWaiting :
      (key : String) (ns : List ℕ) (ts ts' : List Task) (s s' : redis.Store)
      → IsPresent redis key s
      → IsWaiting key ts
      → run_tasks redis ns ts s ≡ (ok ts', s')
      → IsWaiting key ts'
  unfolding run_tasks
  run_tasks-IsWaiting key [] ts ts' s s' p w h = subst (IsWaiting key) (ground arith) w
  run_tasks-IsWaiting key (n ∷ ns) ts ts' s s' p w h =
      let (mid, s2, first, then_rest) = run_inv n ns ts ts' s s' h in
      let (kept, still) = step_at-IsWaiting key n ts mid s s2 p w first in
      run_tasks-IsWaiting key ns mid ts' s2 s' kept still then_rest

  -- A rule that waits has not finished.
  waiting_unfinished :
      (key : String) (ts : List Task) → IsWaiting key ts → all_finished redis ts ≢ true
  unfolding IsWaiting
  waiting_unfinished key [] w h = w
  waiting_unfinished key (finished ∷ ts) (inl (n, e)) h = absurd (ground arith)
  waiting_unfinished key (finished ∷ ts) (inr w) h = waiting_unfinished key ts w h
  waiting_unfinished key (checking k n ∷ ts) w h = ground arith
  waiting_unfinished key (writing k n ∷ ts) w h = ground arith
  waiting_unfinished key (refused e ∷ ts) w h = ground arith

  pub unfinished_joined :
      (ts : List Task) → all_finished redis ts ≢ true → joined redis (ok ts) ≢ some (ok tt)
  unfinished_joined ts h e = ground arith

  pub joined-IsWaiting :
      (key : String) (ns : List ℕ) (ts : List Task) (s : redis.Store)
      → IsPresent redis key s
      → IsWaiting key ts
      → joined redis (run_tasks redis ns ts s).0 ≢ some (ok tt)
  joined-IsWaiting key ns ts s p w h = elim (Result-cases (run_tasks redis ns ts s).0) [
    | inl (ts', e) ↦
        let still =
          run_tasks-IsWaiting key ns ts ts' s (run_tasks redis ns ts s).1 p w (ground arith) in
        unfinished_joined ts' (waiting_unfinished key ts' still) (ap (joined redis) (sym e) ∙ h)
    | inr (inl (f, e)) ↦ ground arith
    | inr (inr e) ↦ ground arith
  ]
