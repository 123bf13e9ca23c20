-- ===== src/Sentry/Analytics/Recorded.antt =====
-- What recording the paid events adds to the analytics.
use adex_validator_stack_rus.Prelude.{
  ℕ, ◌+◌, ◌≤◌, ◌≡◌, refl, sym, ap, ◌∙◌, inl, inr, Bool, true, false, ◌&&◌, some, List, [], ◌∷◌, map,
  arith, leb, Bool-cases, Option-cases, length, all, total, Build, returns,
}
use adex_validator_stack_rus.Prelude.U64
use adex_validator_stack_rus.UnifiedNum.{UnifiedNum}
use adex_validator_stack_rus.BalancesMap.{Address}
use adex_validator_stack_rus.Sentry.Accounting.{bigint_max}
use adex_validator_stack_rus.Sentry.Payout.{Event}
use adex_validator_stack_rus.Sentry.Analytics.Defs.{
  AnalyticsKey, AnalyticsRow, integer_max, same_key, same_event, upsert_analytics, update_analytics,
  update_all, add_to_batch, batch_of, record_events, record_with_retries,
}

abbrev pub Paid : Type 0
Paid = List (Event × Address × UnifiedNum)

-- What all rows, and all payouts, sum up to.
abbrev pub amounts : List AnalyticsRow → ℕ
amounts rows = total (map (λ (r : AnalyticsRow). r.amount) rows)

abbrev pub counts : List AnalyticsRow → ℕ
counts rows = total (map (λ (r : AnalyticsRow). r.count) rows)

abbrev pub payouts : Paid → ℕ
payouts events = total (map (λ (p : Event × Address × UnifiedNum). p.2) events)

upsert_analytics_sums :
    (u : AnalyticsRow) (rows rows' : List AnalyticsRow)
    → upsert_analytics u rows ≡ some rows'
    → (amounts rows' ≡ amounts rows + u.amount) × (counts rows' ≡ counts rows + u.count)
unfolding upsert_analytics
upsert_analytics_sums u [] rows' h =
    elim (Bool-cases (leb u.amount bigint_max && leb u.count integer_max)) [
      | inl e ↦ grind arith
      | inr e ↦ absurd (ground arith)
    ]
upsert_analytics_sums u (r ∷ rs) rows' h = elim (Bool-cases (same_key r.key u.key)) [
  | inl same ↦
      elim (Bool-cases
        (leb (r.amount + u.amount) bigint_max && leb (r.count + u.count) integer_max)) [
          | inl e ↦
              let sums : AnalyticsRow = record {
                key = r.key;
                amount = r.amount + u.amount;
                count = r.count + u.count;
              } in
              let same_rows : rows' ≡ sums ∷ rs = ground arith in
              (omega (arith, ap amounts same_rows), omega (arith, ap counts same_rows))
          | inr e ↦ absurd (ground arith)
        ]
  | inr other ↦ elim (Option-cases (upsert_analytics u rs)) [
    | inl e ↦ absurd (ground arith)
    | inr (rs', e) ↦
        let (a, c) = upsert_analytics_sums u rs rs' e in
        let same_rows : rows' ≡ r ∷ rs' = ground arith in
        (omega (arith, a, ap amounts same_rows), omega (arith, c, ap counts same_rows))
  ]
]

update_analytics_sums :
    (reached : Bool) (u : AnalyticsRow) (rows rows' : List AnalyticsRow)
    → update_analytics reached u rows ≡ (true, rows')
    → (amounts rows' ≡ amounts rows + u.amount) × (counts rows' ≡ counts rows + u.count)
unfolding update_analytics
update_analytics_sums false u rows rows' h = absurd (ground arith)
update_analytics_sums true u rows rows' h = elim (Option-cases (upsert_analytics u rows)) [
  | inl e ↦ absurd (ground arith)
  | inr (rows'', e) ↦ let sums = upsert_analytics_sums u rows rows'' e in ground arith
]

-- An update adds its amount or nothing.
update_analytics_grows :
    (reached : Bool) (u : AnalyticsRow) (rows : List AnalyticsRow)
    → (amounts rows ≤ amounts (update_analytics reached u rows).1)
      × (amounts (update_analytics reached u rows).1 ≤ amounts rows + u.amount)
unfolding update_analytics
update_analytics_grows false u rows = (omega arith, omega arith)
update_analytics_grows true u rows = elim (Option-cases (upsert_analytics u rows)) [
  | inl e ↦ ground arith
  | inr (rows', e) ↦ let sums = upsert_analytics_sums u rows rows' e in ground arith
]

update_all_sums :
    (reaches : AnalyticsKey → Bool) (us rows rows' : List AnalyticsRow)
    → update_all reaches us rows ≡ (true, rows')
    → (amounts rows' ≡ amounts rows + amounts us) × (counts rows' ≡ counts rows + counts us)
unfolding update_all
update_all_sums reaches [] rows rows' h =
    let same : rows ≡ rows' = ground arith in
    (omega (arith, ap amounts same), omega (arith, ap counts same))
update_all_sums reaches (u ∷ us) rows rows' h =
    let one = update_analytics (reaches u.key) u rows in
    let done : one.0 ≡ true = ground arith in
    let next : update_all reaches us one.1 ≡ (true, rows') = ground arith in
    let first = update_analytics_sums (reaches u.key) u rows one.1 (ground arith) in
    let rest = update_all_sums reaches us one.1 rows' next in
    (omega (arith, first, rest), omega (arith, first, rest))

update_all_grows :
    (reaches : AnalyticsKey → Bool) (us rows : List AnalyticsRow)
    → (amounts rows ≤ amounts (update_all reaches us rows).1)
      × (amounts (update_all reaches us rows).1 ≤ amounts rows + amounts us)
unfolding update_all
update_all_grows reaches [] rows = (omega arith, omega arith)
update_all_grows reaches (u ∷ us) rows =
    let one = update_analytics_grows (reaches u.key) u rows in
    let rest = update_all_grows reaches us (update_analytics (reaches u.key) u rows).1 in
    (omega (arith, one, rest), omega (arith, one, rest))

abbrev Batch : Type 0
Batch = List (Event × AnalyticsRow)

abbrev updates : Batch → List AnalyticsRow
updates batch = map (λ (b : Event × AnalyticsRow). b.1) batch

module _ (build : Build) (key : Event → AnalyticsKey) where
  add_to_batch_sums :
      (e : Event) (amount : UnifiedNum) (batch : Batch)
      → amounts (updates batch) + amount ≤ U64.max_value
      → (batch' : Batch) × (add_to_batch build key e amount batch ≡ returns batch')
        × (amounts (updates batch') ≡ amounts (updates batch) + amount)
        × (counts (updates batch') ≡ counts (updates batch) + 1)
  unfolding add_to_batch
  add_to_batch_sums e amount [] h = (_, refl, omega arith, omega arith)
  add_to_batch_sums e amount ((d, u) ∷ batch) h = elim (Bool-cases (same_event d e)) [
    | inl same ↦ (
      (d, record { key = u.key; amount = u.amount + amount; count = u.count + 1 }) ∷ batch,
      ground arith,
      omega arith,
      omega arith,
    )
    | inr other ↦
        let (batch', r, a, c) = add_to_batch_sums e amount batch (omega (arith, h)) in
        ((d, u) ∷ batch', ground arith, omega (arith, a), omega (arith, c))
  ]

  batch_of_sums :
      (events : Paid) (batch : Batch)
      → amounts (updates batch) + payouts events ≤ U64.max_value
      → (batch' : Batch) × (batch_of build key events batch ≡ returns batch')
        × (amounts (updates batch') ≡ amounts (updates batch) + payouts events)
        × (counts (updates batch') ≡ counts (updates batch) + length events)
  unfolding batch_of
  batch_of_sums [] batch h = (batch, refl, omega arith, omega arith)
  batch_of_sums ((e, earner, amount) ∷ events) batch h =
      let (one, r, a, c) = add_to_batch_sums e amount batch (omega (arith, h)) in
      let (all, t, b, d) = batch_of_sums events one (omega (arith, h, a)) in
      (all, ground arith, omega (arith, a, b), omega (arith, c, d))

  record_events_lem :
      (reaches : AnalyticsKey → Bool) (events : Paid) (rows : List AnalyticsRow)
      → payouts events ≤ U64.max_value
      → (done : Bool) × (rows' : List AnalyticsRow) × (record_events build key reaches events rows
          ≡ returns (done, rows'))
        × (done ≡ true
            → (amounts rows' ≡ amounts rows + payouts events)
              × (counts rows' ≡ counts rows + length events))
        × (amounts rows ≤ amounts rows')
        × (amounts rows' ≤ amounts rows + payouts events)
  unfolding record_events
  record_events_lem reaches events rows h =
      let (batch, r, a, c) = batch_of_sums events [] (omega (arith, h)) in
      let all = update_all reaches (updates batch) rows in
      let grows = update_all_grows reaches (updates batch) rows in
      (
        all.0,
        all.1,
        ground arith,
        λ e.
            let sums = update_all_sums reaches (updates batch) rows all.1 (ground arith) in
            (omega (arith, sums, a), omega (arith, sums, c)),
        omega (arith, grows),
        omega (arith, grows, a),
      )

  -- If every update of the paid events got through, and their payouts together fit 64 bits, the
  -- amounts of all rows grow by exactly the payouts, and the counts by the number of events, however
  -- many of them fall into one row.
  pub record_events_sums :
      (reaches : AnalyticsKey → Bool) (events : Paid) (rows rows' : List AnalyticsRow)
      → payouts events ≤ U64.max_value
      → record_events build key reaches events rows ≡ returns (true, rows')
      → (amounts rows' ≡ amounts rows + payouts events)
        × (counts rows' ≡ counts rows + length events)
  record_events_sums reaches events rows rows' h e =
      let (done, found, r, sums, low, high) = record_events_lem reaches events rows h in
      let same : returns (done, found) ≡ returns (true, rows') = sym r ∙ e in
      let (a, c) = sums (ground arith) in
      let rows_same : found ≡ rows' = ground arith in
      (sym (ap amounts rows_same) ∙ a, sym (ap counts rows_same) ∙ c)

  -- Where a first attempt to record the events fails and a second one succeeds, what the first one
  -- wrote stays: the amounts of all rows end above what they were by the payouts and by all that the
  -- first attempt added to them.
  pub record_with_retries_twice :
      (first second : AnalyticsKey → Bool) (attempts : List (AnalyticsKey → Bool)) (events : Paid)
      (rows rows' rows'' : List AnalyticsRow)
      → payouts events ≤ U64.max_value
      → record_events build key first events rows ≡ returns (false, rows')
      → record_events build key second events rows' ≡ returns (true, rows'')
      → (record_with_retries build key (first ∷ second ∷ attempts) events rows ≡ returns rows'')
        × (amounts rows ≤ amounts rows')
        × (amounts rows'' ≡ amounts rows' + payouts events)
  unfolding record_with_retries
  record_with_retries_twice first second attempts events rows rows' rows'' h e f =
      let (done, found, r, sums, low, high) = record_events_lem first events rows h in
      let same : returns (done, found) ≡ returns (false, rows') = sym r ∙ e in
      let rows_same : found ≡ rows' = ground arith in
      let (a, c) = record_events_sums second events rows' rows'' h f in
      (ground arith, omega (arith, low, ap amounts rows_same), a)
