-- ===== src/Sentry/Events/Costs.antt =====
-- What the events cost adds up to what is spent and to what is written to the accounting.
use adex_validator_stack_rus.Prelude.{
  refl, ℕ, ◌+◌, ◌≡◌, inl, inr, List, [], ◌∷◌, arith, Option-cases, ok, Result-cases,
}
use adex_validator_stack_rus.UnifiedNum.{sum, checked_add}
use adex_validator_stack_rus.UnifiedNum.Sum.{sum_exact}
use adex_validator_stack_rus.BalancesMap.{Address}
use adex_validator_stack_rus.BalancesMap.Total.{sum_values}
use adex_validator_stack_rus.Balances.{Balances, new, spend}
use adex_validator_stack_rus.Balances.Spend.{IsChecked, new-IsChecked, spend-IsChecked}
use adex_validator_stack_rus.Sentry.Events.Defs.{Cost, spend_event, spend_events}

-- The cost of one event, and of all.
abbrev pub cost : Cost → ℕ
cost c = c.amount + (c.leader_fee + c.follower_fee)

abbrev pub cost_of_all : List Cost → ℕ
cost_of_all [] = 0
cost_of_all (c ∷ cs) = cost c + cost_of_all cs

-- The balances are checked, and the spenders' sum is what was spent.
abbrev pub IsSpent : ℕ × Balances → Type 0
IsSpent (spending, b) = IsChecked b × (sum_values b.spenders ≡ spending)

pub new-IsSpent : IsSpent (0, new)
unfolding new
new-IsSpent = (new-IsChecked, refl)

module _ (creator leader follower : Address) where
  spend_event_lem :
      (acc acc' : ℕ × Balances) (c : Cost)
      → IsSpent acc
      → spend_event creator leader follower acc c ≡ ok acc'
      → IsSpent acc' × (acc'.0 ≡ acc.0 + cost c)
  unfolding spend_event
  spend_event_lem (n, b) acc' c s h =
      let b1 : Balances = (spend creator leader c.leader_fee b).0 in
      let b2 : Balances = (spend creator follower c.follower_fee b1).0 in
      elim (Option-cases (sum (c.amount ∷ c.leader_fee ∷ c.follower_fee ∷ []))) [
        | inl e ↦ absurd (ground arith)
        | inr (x, e) ↦ elim (Option-cases (checked_add n x)) [
          | inl d ↦ absurd (ground arith)
          | inr (y, d) ↦ elim (Result-cases (spend creator leader c.leader_fee b).1) [
            | inr bad ↦ absurd (ground (arith, bad))
            | inl (u1, r1) ↦ elim (Result-cases (spend creator follower c.follower_fee b1).1) [
              | inr bad ↦ absurd (ground (arith, bad))
              | inl (u2, r2) ↦ elim (Result-cases (spend creator c.earner c.amount b2).1) [
                | inr bad ↦ absurd (ground (arith, bad))
                | inl (u3, r3) ↦
                    let (k1, m1) = spend-IsChecked creator leader c.leader_fee b s.0 r1 in
                    let (k2, m2) = spend-IsChecked creator follower c.follower_fee b1 k1 r2 in
                    let (k3, m3) = spend-IsChecked creator c.earner c.amount b2 k2 r3 in
                    let exact = sum_exact (c.amount ∷ c.leader_fee ∷ c.follower_fee ∷ []) e in
                    let same = s.1 in ground arith
              ]
            ]
          ]
        ]
      ]

  -- What is spent for events is the sum of their costs, and balances in which the payer spent
  -- just that, and the others earned it.
  pub spend_events_lem :
      (cs : List Cost) (acc acc' : ℕ × Balances)
      → IsSpent acc
      → spend_events creator leader follower acc cs ≡ ok acc'
      → IsSpent acc' × (acc'.0 ≡ acc.0 + cost_of_all cs)
  unfolding spend_events
  spend_events_lem [] acc acc' s h = ground arith
  spend_events_lem (c ∷ cs) acc acc' s h =
      elim (Result-cases (spend_event creator leader follower acc c)) [
        | inr bad ↦ absurd (ground (arith, bad))
        | inl (mid, e) ↦
            let (k, n) = spend_event_lem acc mid c s e in
            let (l, m) = spend_events_lem cs mid acc' k (ground arith) in (l, omega (arith, n, m))
      ]
