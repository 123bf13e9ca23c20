-- ===== src/Sentry/Routes/Created.antt =====
-- What holds when a campaign was created.
use adex_validator_stack_rus.Prelude.{
  ℕ, ◌+◌, ◌-◌, ◌≤◌, ◌<◌, ◌≡◌, inl, inr, false, none, some, List, [], ◌∷◌, ◌++◌, map, arith,
  Option-cases, length, total, pos, ok, or_default, Result-cases,
}
use adex_validator_stack_rus.Prelude.U64
use adex_validator_stack_rus.Prelude.U64
use adex_validator_stack_rus.Campaign.{ChainOf, validate}
use adex_validator_stack_rus.Sentry.Routes.Create.{create_admitted, create_campaign}
use adex_validator_stack_rus.Sentry.Routes.Tables.{insert_channel}
use adex_validator_stack_rus.Sentry.Routes.Paging.{all_pages_lem}
use adex_validator_stack_rus.UnifiedNum.{UnifiedNum, BigNum, sum, from_precision}
use adex_validator_stack_rus.UnifiedNum.Sum.{sum_exact}
use adex_validator_stack_rus.BalancesMap.{Address, get}
use adex_validator_stack_rus.Campaign.{Campaign}
use adex_validator_stack_rus.Sentry.Redis.{Redis, RedisLaws}
use adex_validator_stack_rus.Sentry.CampaignRemaining.{CampaignId, get_multiple, set_initial}
use adex_validator_stack_rus.Sentry.CampaignRemaining.Effects.{
  left, get_multiple_lem, set_initial_lem,
}
use adex_validator_stack_rus.Sentry.Accounting.{get_accounting}
use adex_validator_stack_rus.Sentry.Routes.Tables.{
  Api, State, campaign_ids, has_id, insert_campaign, update_spendable, bad_request,
}
use adex_validator_stack_rus.Sentry.Routes.Pages.{all_pages, fetch_campaign_ids_for_channel}
use adex_validator_stack_rus.Sentry.Routes.Budget.{update_latest_spendable}
use adex_validator_stack_rus.Sentry.Routes.Create.{
  fetch_ids, total_remaining, campaigns_remaining_sum, inserted_result, insert_created,
}

module _ (redis : Redis) (laws : RedisLaws redis) (api : Api) (campaign : Campaign) where
  -- What the creator has spent in the channel.
  abbrev pub spent : State redis → ℕ
  spent s = or_default 0 (get campaign.creator s.tables.accounting.spenders)

  -- The spendable is the deposit at eight decimals; campaigns and accounting are unchanged.
  pub update_latest_spendable_inv :
      {E : Type 0} (failure : E) (precision : ℕ) (s s' : State redis) (d : ℕ)
      → update_latest_spendable redis failure api precision campaign.channel campaign.creator s
        ≡ (ok d, s')
      → (raw : BigNum) × (api.get_deposit campaign.channel campaign.creator ≡ some raw)
        × (from_precision raw precision ≡ some d)
        × (s'.store ≡ s.store)
        × (s'.tables.campaigns ≡ s.tables.campaigns)
        × (s'.tables.accounting ≡ s.tables.accounting)
  unfolding update_latest_spendable update_spendable
  update_latest_spendable_inv failure precision s s' d h =
      elim (Option-cases (api.get_deposit campaign.channel campaign.creator)) [
        | inl e ↦ absurd (ground arith)
        | inr (raw, e) ↦ elim (Option-cases (from_precision raw precision)) [
          | inl f ↦ absurd (ground arith)
          | inr (n, f) ↦ (raw, e, ground arith, ground arith, ground arith, ground arith)
        ]
      ]

  total_remaining_inv :
      (precision : ℕ) (s s' : State redis) (n : ℕ)
      → total_remaining redis api precision campaign s ≡ (ok n, s')
      → (raw : BigNum) × (d : ℕ) × (api.get_deposit campaign.channel campaign.creator ≡ some raw)
        × (from_precision raw precision ≡ some d)
        × (spent s ≤ d)
        × (n ≡ d - spent s)
        × (s'.store ≡ s.store)
        × (s'.tables.campaigns ≡ s.tables.campaigns)
  unfolding total_remaining get_accounting
  total_remaining_inv precision s s' n h =
      elim (Result-cases
        (update_latest_spendable redis bad_request api precision campaign.channel campaign.creator
          s).0) [
            | inr bad ↦ absurd (ground (arith, bad))
            | inl (d, e) ↦
                let s1 : State redis =
                  (update_latest_spendable redis bad_request api precision campaign.channel
                    campaign.creator s).1 in
                let (raw, deposit, converted, store, campaigns, rows) =
                  update_latest_spendable_inv bad_request precision s s1 d (ground arith) in
                (raw, d, deposit, converted, ground arith, ground arith, ground arith, ground arith)
          ]

  campaigns_remaining_sum_inv :
      (s s' : State redis) (n : ℕ)
      → campaigns_remaining_sum redis api campaign s ≡ (ok n, s')
      → (ids : List CampaignId) × (all_pages
            (campaign_ids campaign.channel s.tables.campaigns)
            api.campaigns_find
          ≡ ok ids)
        × (n ≡ total (map (left redis laws s.store) ids) + campaign.budget)
        × (s' ≡ s)
  unfolding campaigns_remaining_sum fetch_ids fetch_campaign_ids_for_channel
  campaigns_remaining_sum_inv s s' n h =
      elim (Result-cases
        (all_pages (campaign_ids campaign.channel s.tables.campaigns) api.campaigns_find)) [
          | inr bad ↦ absurd (ground (arith, bad))
          | inl (ids, e) ↦ elim (Result-cases (get_multiple redis ids s.store).0) [
            | inr bad ↦ absurd (ground (arith, bad))
            | inl (amounts, g) ↦
                let store : redis.Store = (get_multiple redis ids s.store).1 in
                let (same, read) =
                  get_multiple_lem redis laws ids s.store store amounts (ground arith) in
                elim (Option-cases (sum amounts)) [
                  | inl f ↦ absurd (ground arith)
                  | inr (m, f) ↦
                      let exact = sum_exact amounts f in (ids, e, ground arith, ground arith)
                ]
          ]
        ]

  insert_created_inv :
      (s s' : State redis) (c : Campaign)
      → insert_created redis api campaign s ≡ (ok c, s')
      → (c ≡ campaign)
        × (laws.value campaign.id s.store ≡ none)
        × (laws.value campaign.id s'.store ≡ some (pos campaign.budget))
        × (has_id campaign.id s.tables.campaigns ≡ false)
        × (s'.tables.campaigns ≡ s.tables.campaigns ++ campaign ∷ [])
  unfolding insert_created insert_campaign inserted_result
  insert_created_inv s s' c h =
      elim (Result-cases (set_initial redis campaign.id campaign.budget s.store).0) [
        | inr bad ↦ absurd (ground (arith, bad))
        | inl (b, e) ↦
            let store : redis.Store = (set_initial redis campaign.id campaign.budget s.store).1 in
            let (was, after) =
              set_initial_lem redis laws campaign.id campaign.budget s.store store b
                (ground arith) in
            let here = after campaign.id in
            elim (Option-cases (laws.value campaign.id s.store)) [
              | inr (z, d) ↦ absurd (ground arith)
              | inl d ↦ (ground arith, d, ground arith, ground arith, ground arith)
            ]
      ]

  -- A created campaign: who asked, that it was admitted, that the budgets fit the deposit `d`, and
  -- what was set and inserted.
  pub record IsCreated (uid : Address) (chain : ChainOf) (d : UnifiedNum) (s s' : State redis)
      : Type 0 where
    pub by_creator : uid ≡ campaign.creator
    pub admitted : validate campaign api.config api.whoami api.now ≡ ok chain
    pub deposited :
        (raw : BigNum) × (api.get_deposit campaign.channel campaign.creator ≡ some raw)
        × (from_precision raw chain.token.precision ≡ some d)
    pub covered :
        spent s
          + (total
                (map (left redis laws s.store) (campaign_ids campaign.channel s.tables.campaigns))
              + campaign.budget)
        ≤ d
    pub was_absent : laws.value campaign.id s.store ≡ none
    pub budget_set : laws.value campaign.id s'.store ≡ some (pos campaign.budget)
    pub row_absent : has_id campaign.id s.tables.campaigns ≡ false
    pub row_inserted : s'.tables.campaigns ≡ s.tables.campaigns ++ campaign ∷ []

  create_admitted_inv :
      (precision : ℕ) (s s' : State redis) (c : Campaign)
      → 0 < api.campaigns_find
      → length (campaign_ids campaign.channel s.tables.campaigns) + api.campaigns_find
        ≤ U64.max_value
      → create_admitted redis api precision campaign s ≡ (ok c, s')
      → (s1 : State redis) × (raw : BigNum) × (d : UnifiedNum) × (api.get_deposit campaign.channel
            campaign.creator
          ≡ some raw)
        × (from_precision raw precision ≡ some d)
        × (spent s
              + (total (
                    map
                      (left redis laws s.store)
                      (campaign_ids campaign.channel s.tables.campaigns))
                  + campaign.budget)
            ≤ d)
        × (s1.store ≡ s.store)
        × (s1.tables.campaigns ≡ s.tables.campaigns)
        × (insert_created redis api campaign s1 ≡ (ok c, s'))
  unfolding create_admitted insert_channel
  create_admitted_inv precision s s' c limit few h =
      let s0 : State redis = record {
        store = s.store;
        tables = (insert_channel api campaign.channel s.tables).1;
      } in
      elim (Result-cases (total_remaining redis api precision campaign s0).0) [
        | inr bad ↦ absurd (ground (arith, bad))
        | inl (n, e) ↦
            let s1 : State redis = (total_remaining redis api precision campaign s0).1 in
            let (raw, d, deposit, converted, paid, rest, store, campaigns) =
              total_remaining_inv precision s0 s1 n (ground arith) in
            elim (Result-cases (campaigns_remaining_sum redis api campaign s1).0) [
              | inr bad ↦ absurd (ground (arith, bad))
              | inl (m, f) ↦
                  let s2 : State redis = (campaigns_remaining_sum redis api campaign s1).1 in
                  let (ids, pages, sum, same) =
                    campaigns_remaining_sum_inv s1 s2 m (ground arith) in
                  let whole =
                    all_pages_lem (campaign_ids campaign.channel s.tables.campaigns)
                      api.campaigns_find limit few in
                  let kept : s1.tables.campaigns ≡ s.tables.campaigns = ground arith in
                  let rows : s0.tables.accounting ≡ s.tables.accounting = ground arith in
                  let all : ids ≡ campaign_ids campaign.channel s.tables.campaigns = ground arith in
                  (s1, raw, d, deposit, converted, ground arith, store, kept, ground arith)
            ]
      ]

  -- A campaign is created only for its creator, once it is admitted, and only if what its creator
  -- has spent, the budgets left of all campaigns of the channel, and its own budget together are
  -- at most the deposit; then its budget left is its budget, where there was none, and its row is
  -- added. The limit of a page is above zero, and the campaigns and it fit 64 bits.
  pub create_campaign_sound :
      (uid : Address) (s s' : State redis) (c : Campaign)
      → 0 < api.campaigns_find
      → length (campaign_ids campaign.channel s.tables.campaigns) + api.campaigns_find
        ≤ U64.max_value
      → create_campaign redis api uid campaign s ≡ (ok c, s')
      → (chain : ChainOf) × (d : UnifiedNum) × (c ≡ campaign) × IsCreated uid chain d s s'
  unfolding create_campaign
  create_campaign_sound uid s s' c limit few h =
      elim (Result-cases (validate campaign api.config api.whoami api.now)) [
        | inr bad ↦ absurd (ground (arith, bad))
        | inl (chain, e) ↦
            let (s1, raw, d, deposit, converted, covered, store, campaigns, inserted) =
              create_admitted_inv chain.token.precision s s' c limit few (ground arith) in
            let (same, absent, set, fresh, row) = insert_created_inv s1 s' c inserted in
            (
              chain,
              d,
              same,
              record {
                by_creator = ground arith;
                admitted = e;
                deposited = (raw, deposit, converted);
                covered = covered;
                was_absent = ground arith;
                budget_set = set;
                row_absent = ground arith;
                row_inserted = ground arith;
              },
            )
      ]
