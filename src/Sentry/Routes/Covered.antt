-- ===== src/Sentry/Routes/Covered.antt =====
-- What holds when the budgets left of a channel were changed by a difference.
use adex_validator_stack_rus.Prelude.{
  ℕ, ◌+◌, ◌≤◌, ◌<◌, ◌≡◌, sym, ap, ◌∙◌, subst, inl, inr, some, List, map, arith, ltb, Bool-cases,
  Option-cases, length, total, ℤ, or_zero, ok, Result-cases,
}
use adex_validator_stack_rus.Prelude.U64
use adex_validator_stack_rus.UnifiedNum.{checked_sub}
use adex_validator_stack_rus.Sentry.Routes.Budget.{modify_covered}
use adex_validator_stack_rus.UnifiedNum.{UnifiedNum, BigNum, sum, from_precision}
use adex_validator_stack_rus.UnifiedNum.Sum.{sum_exact}
use adex_validator_stack_rus.Campaign.{Campaign}
use adex_validator_stack_rus.Sentry.Redis.{Redis, RedisLaws}
use adex_validator_stack_rus.Sentry.CampaignRemaining.{CampaignId, get_multiple}
use adex_validator_stack_rus.Sentry.CampaignRemaining.Effects.{left, get_multiple_lem}
use adex_validator_stack_rus.Sentry.Accounting.{get_accounting}
use adex_validator_stack_rus.Sentry.Routes.Tables.{Api, State, campaign_ids}
use adex_validator_stack_rus.Sentry.Routes.Pages.{fetch_campaign_ids_for_channel}
use adex_validator_stack_rus.Sentry.Routes.Paging.{all_pages_lem}
use adex_validator_stack_rus.Sentry.Routes.Budget.{
  DeltaBudget, apply_delta, change_if_covered, latest_spendable, modify_budget,
  update_latest_spendable,
}
use adex_validator_stack_rus.Sentry.Routes.Created.{spent, update_latest_spendable_inv}
use adex_validator_stack_rus.Sentry.Routes.Modified.{changed, change_remaining_lem}

covered_of : (p d rem n : ℕ) → checked_sub d p ≡ some rem → n ≤ rem → p + n ≤ d
covered_of p d rem n h k = ground arith

store_of : {A B : Type 0} {a b : A} (f : A → B) {y : B} → a ≡ b → y ≡ f a → y ≡ f b
store_of f e h = h ∙ ap f e

module _ (redis : Redis) (laws : RedisLaws redis) (api : Api) (precision : ℕ)
    (campaign : Campaign) where
  -- The budgets left of the campaigns of the channel.
  abbrev pub left_of_channel : State redis → ℕ
  left_of_channel s =
      total (map (left redis laws s.store) (campaign_ids campaign.channel s.tables.campaigns))

  -- The budgets left after the change fit the deposit `d`, and Redis has changed by `delta`.
  pub record IsRebudgeted (delta : DeltaBudget UnifiedNum) (d n : UnifiedNum) (s s' : State redis)
      : Type 0 where
    pub deposited :
        (raw : BigNum) × (api.get_deposit campaign.channel campaign.creator ≡ some raw)
        × (from_precision raw precision ≡ some d)
    pub sum_changed : apply_delta delta (left_of_channel s) ≡ some n
    pub covered : spent redis laws api campaign s + n ≤ d
    pub budget_changed :
        laws.value campaign.id s'.store
        ≡ some (changed delta (or_zero (laws.value campaign.id s.store)))

  change_if_covered_inv :
      (delta : DeltaBudget UnifiedNum) (remaining n : UnifiedNum) (s s' : State redis) (r : ℤ)
      → change_if_covered redis campaign delta remaining n s ≡ (ok r, s')
      → (n ≤ remaining)
        × (laws.value campaign.id s'.store
            ≡ some (changed delta (or_zero (laws.value campaign.id s.store))))
  unfolding change_if_covered
  change_if_covered_inv delta remaining n s s' r h = elim (Bool-cases (ltb remaining n)) [
    | inl over ↦ absurd (ground arith)
    | inr fits ↦
        let (reply, after) =
          change_remaining_lem redis laws campaign delta s.store s'.store r (ground arith) in
        let here = after campaign.id in (ground arith, ground arith)
  ]

  left_same :
      (s t : State redis)
      → s.store ≡ t.store
      → s.tables.campaigns ≡ t.tables.campaigns
      → left_of_channel s ≡ left_of_channel t
  left_same s t e f = ground arith

  sum_inv :
      (delta : DeltaBudget UnifiedNum) (rem : UnifiedNum) (s s' : State redis) (r : ℤ)
      → 0 < api.campaigns_find
      → length (campaign_ids campaign.channel s.tables.campaigns) + api.campaigns_find
        ≤ U64.max_value
      → modify_covered redis api campaign delta rem s ≡ (ok r, s')
      → (n m : UnifiedNum) × (m ≡ left_of_channel s)
        × (apply_delta delta m ≡ some n)
        × (mid : State redis) × (mid.store ≡ s.store)
        × (change_if_covered redis campaign delta rem n mid ≡ (ok r, s'))
  unfolding modify_covered fetch_campaign_ids_for_channel
  sum_inv delta rem s s' r limit few h =
      let ids : List CampaignId = campaign_ids campaign.channel s.tables.campaigns in
      let whole = all_pages_lem ids api.campaigns_find limit few in
      elim (Result-cases (get_multiple redis ids s.store).0) [
        | inr bad ↦ absurd (ground (arith, bad))
        | inl (amounts, g) ↦
            let store' : redis.Store = (get_multiple redis ids s.store).1 in
            let (same, read) =
              get_multiple_lem redis laws ids s.store store' amounts (ground arith) in
            elim (Option-cases (sum amounts)) [
              | inl f ↦ absurd (ground arith)
              | inr (m, f) ↦
                  let exact = sum_exact amounts f in
                  elim (Option-cases (apply_delta delta m)) [
                    | inl k ↦ absurd (ground arith)
                    | inr (n, k) ↦
                        let mid : State redis = record { store = store'; tables = s.tables } in
                        (n, m, ground arith, k, mid, same, ground arith)
                  ]
            ]
      ]

  after_spendable :
      (delta : DeltaBudget UnifiedNum) (s s1 s' : State redis) (raw : BigNum) (d rem : UnifiedNum)
      (r : ℤ)
      → 0 < api.campaigns_find
      → length (campaign_ids campaign.channel s1.tables.campaigns) + api.campaigns_find
        ≤ U64.max_value
      → api.get_deposit campaign.channel campaign.creator ≡ some raw
      → from_precision raw precision ≡ some d
      → s1.store ≡ s.store
      → s1.tables.campaigns ≡ s.tables.campaigns
      → checked_sub d (spent redis laws api campaign s) ≡ some rem
      → modify_covered redis api campaign delta rem s1 ≡ (ok r, s')
      → (e n : UnifiedNum) × IsRebudgeted delta e n s s'
  after_spendable delta s s1 s' raw d rem r limit few deposit converted store campaigns t h =
      let (n, m, total_left, applied, mid, same_store, rest) =
        sum_inv delta rem s1 s' r limit few h in
      let (fits, reply) = change_if_covered_inv delta rem n mid s' r rest in
      (
        d,
        n,
        record {
          deposited = (raw, deposit, converted);
          sum_changed =
              subst (λ x. apply_delta delta x ≡ some n)
                (total_left ∙ left_same s1 s store campaigns) applied;
          covered = covered_of (spent redis laws api campaign s) d rem n t fits;
          budget_changed =
              store_of (λ st. some (changed delta (or_zero (laws.value campaign.id st))))
                (same_store ∙ store) reply;
        },
      )

  pub modify_budget_inv :
      (delta : DeltaBudget UnifiedNum) (s s' : State redis) (r : ℤ)
      → 0 < api.campaigns_find
      → length (campaign_ids campaign.channel s.tables.campaigns) + api.campaigns_find
        ≤ U64.max_value
      → modify_budget redis api precision campaign delta s ≡ (ok r, s')
      → (d n : UnifiedNum) × IsRebudgeted delta d n s s'
  unfolding modify_budget get_accounting
  modify_budget_inv delta s s' r limit few h =
      elim (Result-cases
        (update_latest_spendable redis latest_spendable api precision campaign.channel
          campaign.creator s).0) [
            | inr bad ↦ absurd (ground (arith, bad))
            | inl (d, e) ↦
                let s1 : State redis =
                  (update_latest_spendable redis latest_spendable api precision campaign.channel
                    campaign.creator s).1 in
                let (raw, deposit, converted, store, campaigns, rows) =
                  update_latest_spendable_inv redis laws api campaign latest_spendable precision s
                    s1 d (ground arith) in
                elim (Option-cases (checked_sub d (spent redis laws api campaign s))) [
                  | inl short ↦ absurd (ground arith)
                  | inr (rem, t) ↦
                      (after_spendable delta s s1 s' raw d rem r limit
                        (subst
                          (λ cs.
                            length (campaign_ids campaign.channel cs) + api.campaigns_find
                            ≤ U64.max_value)
                          (sym campaigns) few)
                        deposit converted store campaigns t (ground arith))
                ]
          ]
