-- ===== src/Sentry/Channels/Payout.antt =====
-- What a payout to earners takes from whom.
use adex_validator_stack_rus.Prelude.{
  ℕ, ◌+◌, ◌-◌, ◌≤◌, ◌<◌, ◌≡◌, refl, subst, inl, inr, false, some, List, [], ◌∷◌, map, arith,
  Option-cases, length, all, total, ok, Result-cases,
}
use adex_validator_stack_rus.Prelude.U64
use adex_validator_stack_rus.Sentry.CampaignRemaining.{CampaignId, get_multiple}
use adex_validator_stack_rus.Sentry.CampaignRemaining.Effects.{left, get_multiple_lem}
use adex_validator_stack_rus.Sentry.Routes.Tables.{campaign_ids}
use adex_validator_stack_rus.Sentry.Routes.Pages.{fetch_campaign_ids_for_channel}
use adex_validator_stack_rus.Sentry.Routes.Paging.{all_pages_lem}
use adex_validator_stack_rus.BalancesMap.{is_empty}
use adex_validator_stack_rus.Sentry.Channels.Defs.{channel_remaining_sum, channel_payout}
use adex_validator_stack_rus.UnifiedNum.{UnifiedNum, sum}
use adex_validator_stack_rus.UnifiedNum.Sum.{sum_exact}
use adex_validator_stack_rus.BalancesMap.{Address, UnifiedMap, get, get_or_zero, values}
use adex_validator_stack_rus.BalancesMap.Total.{sum_values}
use adex_validator_stack_rus.Balances.{Balances, new, spend, credit}
use adex_validator_stack_rus.Balances.Spend.{IsChecked, spend-IsChecked, new-IsChecked}
use adex_validator_stack_rus.BalancesMap.Lookup.{get-insert}
use adex_validator_stack_rus.Channel.{Channel}
use adex_validator_stack_rus.Sentry.Redis.{Redis, RedisLaws}
use adex_validator_stack_rus.Sentry.Accounting.{get_accounting, spend_amount}
use adex_validator_stack_rus.Sentry.Accounting.Rows.{
  spend_amount-IsChecked, spend_amount_ok_entries,
}
use adex_validator_stack_rus.Sentry.Routes.Tables.{Api, State}
use adex_validator_stack_rus.Sentry.Channels.Defs.{
  spend_payouts, available_for_payout, fetch_spendable, pay_from_accounting,
}

-- A successful `spend` adds the amount to the payer's entry.
spend-payer :
    (uid payee : Address) (amount : UnifiedNum) (b : Balances)
    → (spend uid payee amount b).1 ≡ ok tt
    → get_or_zero uid (spend uid payee amount b).0.spenders ≡ get_or_zero uid b.spenders + amount
unfolding spend credit
spend-payer uid payee amount b h =
    ground (arith, get-insert uid uid (get_or_zero uid b.spenders + amount) b.spenders)

-- Payouts keep balances checked, and all of them are spent by the payer.
spend_payouts_lem :
    (uid : Address) (payouts : UnifiedMap) (b b' : Balances)
    → IsChecked b
    → spend_payouts uid payouts b ≡ ok b'
    → IsChecked b'
      × (sum_values b'.spenders ≡ sum_values b.spenders + sum_values payouts)
      × (get_or_zero uid b'.spenders ≡ get_or_zero uid b.spenders + sum_values payouts)
unfolding spend_payouts
spend_payouts_lem uid [] b b' c h = (subst IsChecked (ground arith) c, ground arith, ground arith)
spend_payouts_lem uid ((payee, amount) ∷ payouts) b b' c h =
    elim (Result-cases (spend uid payee amount b).1) [
      | inr bad ↦ absurd (ground (arith, bad))
      | inl (u, e) ↦
          let (checked, moved) = spend-IsChecked uid payee amount b c e in
          let payer = spend-payer uid payee amount b e in
          let (all, sums, entries) =
            spend_payouts_lem uid payouts (spend uid payee amount b).0 b' checked (ground arith) in
          (all, omega (arith, moved, sums), omega (arith, payer, entries))
    ]

new_lem : (uid : Address) → (sum_values new.spenders ≡ 0) × (get_or_zero uid new.spenders ≡ 0)
unfolding new get
new_lem uid = (refl, refl)

module _ (redis : Redis) (laws : RedisLaws redis) (api : Api) (channel : Channel) (uid : Address)
    (payouts : UnifiedMap) where
  -- What holds after a payout: the payer could cover it, and the rows have changed by it.
  pub record IsPayout (s s' : State redis) (deposited : UnifiedNum) : Type 0 where
    pub spendable : get uid s.tables.spendables ≡ some deposited
    pub covered :
        get_or_zero uid s.tables.accounting.spenders + sum_values payouts
        ≤ deposited + get_or_zero uid s.tables.accounting.earners
    pub balanced : IsChecked s'.tables.accounting
    pub payer_spent :
        get_or_zero uid s'.tables.accounting.spenders
        ≡ get_or_zero uid s.tables.accounting.spenders + sum_values payouts
    pub total_spent :
        sum_values s'.tables.accounting.spenders
        ≡ sum_values s.tables.accounting.spenders + sum_values payouts

  available_inv :
      (d e n : ℕ) (a : UnifiedNum)
      → available_for_payout d e n ≡ some a
      → (n ≤ d + e) × (a ≡ d + e - n)
  unfolding available_for_payout
  available_inv d e n a h = ground arith

  pay_from_accounting_inv :
      (s s' : State redis)
      → IsChecked s.tables.accounting
      → pay_from_accounting redis api uid payouts s ≡ (ok tt, s')
      → (d : UnifiedNum) × IsPayout s s' d
  unfolding pay_from_accounting fetch_spendable get_accounting
  pay_from_accounting_inv s s' c h = elim (Option-cases (get uid s.tables.spendables)) [
    | inl e ↦ absurd (ground arith)
    | inr (d, e) ↦
        elim (Option-cases (
          available_for_payout d (get_or_zero uid s.tables.accounting.earners)
            (get_or_zero uid s.tables.accounting.spenders))) [
              | inl f ↦ absurd (ground arith)
              | inr (a, f) ↦ elim (Option-cases (sum (values payouts))) [
                | inl g ↦ absurd (ground arith)
                | inr (n, g) ↦ elim (Result-cases (spend_payouts uid payouts new)) [
                  | inr bad ↦ absurd (ground (arith, bad))
                  | inl (b, p) ↦
                      elim (Result-cases (spend_amount api.accounting b s.tables.accounting).0) [
                        | inr bad ↦ absurd (ground (arith, bad))
                        | inl (results, q) ↦
                            let left_over =
                              available_inv d (get_or_zero uid s.tables.accounting.earners)
                                (get_or_zero uid s.tables.accounting.spenders) a f in
                            let exact = sum_exact (values payouts) g in
                            let zero_spent = new_lem uid in
                            let (delta, sums, entries) =
                              spend_payouts_lem uid payouts new b new-IsChecked p in
                            let (balanced, moved) =
                              spend_amount-IsChecked api.accounting b s.tables.accounting delta c
                                q in
                            let grown =
                              spend_amount_ok_entries api.accounting b s.tables.accounting uid
                                delta.ordered q in
                            let rows : (spend_amount api.accounting b s.tables.accounting).1
                                ≡ s'.tables.accounting =
                              ground arith in
                            (
                              d,
                              record {
                                spendable = e;
                                covered = ground arith;
                                balanced = subst IsChecked rows balanced;
                                payer_spent = ground arith;
                                total_spent = ground arith;
                              },
                            )
                      ]
                ]
              ]
            ]
  ]

  channel_remaining_sum_inv :
      (s s' : State redis) (n : ℕ)
      → 0 < api.campaigns_find
      → length (campaign_ids channel s.tables.campaigns) + api.campaigns_find ≤ U64.max_value
      → channel_remaining_sum redis api channel s ≡ (ok n, s')
      → (n ≡ total (map (left redis laws s.store) (campaign_ids channel s.tables.campaigns)))
        × (s' ≡ s)
  unfolding channel_remaining_sum fetch_campaign_ids_for_channel
  channel_remaining_sum_inv s s' n limit few h =
      let ids : List CampaignId = campaign_ids channel s.tables.campaigns in
      let whole = all_pages_lem ids api.campaigns_find limit few in
      elim (Result-cases (get_multiple redis ids s.store).0) [
        | inr bad ↦ absurd (ground (arith, bad))
        | inl (amounts, g) ↦
            let store : redis.Store = (get_multiple redis ids s.store).1 in
            let (same, read) =
              get_multiple_lem redis laws ids s.store store amounts (ground arith) in
            elim (Option-cases (sum amounts)) [
              | inl f ↦ absurd (ground arith)
              | inr (m, f) ↦ let exact = sum_exact amounts f in (ground arith, ground arith)
            ]
      ]

  -- Over a balanced accounting, a payout succeeds only if there is something to pay, no campaign of
  -- the channel has budget left, and what the payer has spent and pays is at most what it deposited
  -- and earned; then all of it is added to what the payer has spent, and the accounting stays
  -- balanced. The limit of a page is above zero, and the campaigns and it fit 64 bits.
  pub channel_payout_sound :
      (s s' : State redis)
      → 0 < api.campaigns_find
      → length (campaign_ids channel s.tables.campaigns) + api.campaigns_find ≤ U64.max_value
      → IsChecked s.tables.accounting
      → channel_payout redis api channel uid payouts s ≡ (ok tt, s')
      → (d : UnifiedNum) × IsPayout s s' d
        × (is_empty payouts ≡ false)
        × (total (map (left redis laws s.store) (campaign_ids channel s.tables.campaigns)) ≡ 0)
  unfolding channel_payout
  channel_payout_sound s s' limit few c h =
      elim (Result-cases (channel_remaining_sum redis api channel s).0) [
        | inr bad ↦ absurd (ground (arith, bad))
        | inl (n, e) ↦
            let s1 : State redis = (channel_remaining_sum redis api channel s).1 in
            let (sum, same) = channel_remaining_sum_inv s s1 n limit few (ground arith) in
            let (d, paid) = pay_from_accounting_inv s s' c (ground arith) in
            (d, paid, ground arith, ground arith)
      ]
