-- ===== src/Worker/FollowerRules/Transition.antt =====
-- What an accepted transition means.
use adex_validator_stack_rus.Prelude.{
  ℕ, ◌≤◌, ◌≡◌, refl, ◌↔◌, inl, inr, true, some, [], ◌∷◌, arith, ◌==◌, Bool-cases, Option-cases,
}
use adex_validator_stack_rus.Prelude.U64
use adex_validator_stack_rus.UnifiedNum.{UnifiedNum}
use adex_validator_stack_rus.UnifiedNum.Sum.{sum-eq-fits}
use adex_validator_stack_rus.BalancesMap.{UnifiedMap, get, values}
use adex_validator_stack_rus.BalancesMap.Lookup.{IsSorted, Above, get-Above}
use adex_validator_stack_rus.BalancesMap.Total.{sum_values}
use adex_validator_stack_rus.Worker.FollowerRules.Monotone.{Dominates, IsKept, total_mono}
use adex_validator_stack_rus.Worker.FollowerRules.Defs.{kept, is_valid_transition, prev_checks}

kept_sound : (next : UnifiedMap) (k v : ℕ) → kept next (k, v) ≡ true → IsKept next k v
kept_sound next k v h = elim (Option-cases (get k next)) [
  | inl absent ↦ ground arith
  | inr (w, e) ↦ (w, e, ground arith)
]

kept_complete : (next : UnifiedMap) (k v : ℕ) → IsKept next k v → kept next (k, v) ≡ true
kept_complete next k v (w, e, l) = ground arith

prev_checks_sound : (next prev : UnifiedMap) → prev_checks next prev ≡ true → Dominates next prev
unfolding prev_checks get
prev_checks_sound next [] h k v e = cc
prev_checks_sound next ((j, w) ∷ prev) h k v e = elim (Bool-cases (kept next (j, w))) [
  | inl head ↦ elim (Bool-cases (k == j)) [
    | inl same ↦ kept_sound next k v (ground arith)
    | inr other ↦ prev_checks_sound next prev (ground arith) k v (ground arith)
  ]
  | inr bad ↦ absurd (ground arith)
]

Dominates-tail :
    (next prev : UnifiedMap) (j w : ℕ)
    → Above j prev
    → Dominates next ((j, w) ∷ prev)
    → Dominates next prev
unfolding get
Dominates-tail next prev j w a d k v e = d k v (ground (arith, get-Above j k prev))

prev_checks_complete :
    (next prev : UnifiedMap) → IsSorted prev → Dominates next prev → prev_checks next prev ≡ true
unfolding prev_checks get
prev_checks_complete next [] s d = refl
prev_checks_complete next ((j, w) ∷ prev) s d = ground (
  arith,
  kept_complete next j w (d j w (ground arith)),
  prev_checks_complete next prev s.1 (Dominates-tail next prev j w s.0 d),
)

-- Between maps in the order of their keys, a transition is accepted exactly when the new balances
-- fit 64 bits and what the spenders deposited, and keep every previous entry at no lower a balance.
-- That the sum does not fall follows.
pub is_valid_transition_iff :
    (all_spenders_sum : UnifiedNum) (prev next : UnifiedMap)
    → IsSorted prev
    → IsSorted next
    → (is_valid_transition all_spenders_sum prev next ≡ some true) ↔ (
        Dominates next prev
        × (sum_values next ≤ all_spenders_sum)
        × (sum_values next ≤ U64.max_value))
unfolding is_valid_transition
is_valid_transition_iff a prev next s t = (
  λ h. elim (Bool-cases (prev_checks next prev)) [
    | inl good ↦ (
      prev_checks_sound next prev good,
      ground (arith, sum-eq-fits (values prev), sum-eq-fits (values next)),
      ground (arith, sum-eq-fits (values prev), sum-eq-fits (values next)),
    )
    | inr bad ↦ absurd (ground (arith, sum-eq-fits (values prev), sum-eq-fits (values next)))
  ],
  λ h. ground (
    arith,
    sum-eq-fits (values prev),
    sum-eq-fits (values next),
    prev_checks_complete next prev s h.0,
    total_mono prev next s t (prev_checks_complete next prev s h.0),
  ),
)

Dominates-trans :
    (next mid prev : UnifiedMap) → Dominates next mid → Dominates mid prev → Dominates next prev
Dominates-trans next mid prev d c k v e =
    let (w, at_mid, le_mid) = c k v e in
    let (x, at_next, le_next) = d k w at_mid in (x, at_next, omega arith)

-- Two accepted transitions in a row, between maps in the order of their keys, are an accepted
-- transition.
pub is_valid_transition_trans :
    (a b : UnifiedNum) (prev mid next : UnifiedMap)
    → IsSorted prev
    → IsSorted mid
    → IsSorted next
    → is_valid_transition a prev mid ≡ some true
    → is_valid_transition b mid next ≡ some true
    → is_valid_transition b prev next ≡ some true
is_valid_transition_trans a b prev mid next s t u h k =
    let first = (is_valid_transition_iff a prev mid s t).0 h in
    let second = (is_valid_transition_iff b mid next t u).0 k in
    (is_valid_transition_iff b prev next s u).1
      (Dominates-trans next mid prev second.0 first.0, second.1, second.2)
