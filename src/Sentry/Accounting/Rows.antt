-- ===== src/Sentry/Accounting/Rows.antt =====
-- What an update does to the rows of a channel.
use adex_validator_stack_rus.Prelude.{
  ℕ, ◌+◌, ◌≡◌, inl, inr, Bool, true, ◌&&◌, some, List, [], ◌∷◌, arith, leb, ◌==◌, if◌then◌else◌,
  Bool-cases, Option-cases, ok,
}
use adex_validator_stack_rus.UnifiedNum.{UnifiedNum}
use adex_validator_stack_rus.BalancesMap.{Address, UnifiedMap, get, get_or_zero}
use adex_validator_stack_rus.BalancesMap.Lookup.{IsSorted, get-insert, get-Above, insert-IsSorted}
use adex_validator_stack_rus.BalancesMap.Total.{sum_values, total-insert}
use adex_validator_stack_rus.Balances.{Balances}
use adex_validator_stack_rus.Balances.Spend.{IsOrdered, IsChecked}
use adex_validator_stack_rus.Sentry.Accounting.Defs.{spend_amount, Database, earner, spender}
use adex_validator_stack_rus.Sentry.Accounting.Defs.{
  Database, spend_amount, bigint_max, upsert, upsert_all,
}

-- What an update adds to a row: nothing where its query does not get through or overflows.
abbrev pub added : Bool → ℕ → ℕ → ℕ
added reached before amount = if reached && leb (before + amount) bigint_max then amount else 0

upsert_entries :
    (i a : Address) (reached : Bool) (n : UnifiedNum) (rows : UnifiedMap)
    → get_or_zero i (upsert reached a n rows).1
      ≡ get_or_zero i rows + (if i == a then added reached (get_or_zero a rows) n else 0)
unfolding upsert
upsert_entries i a reached n rows = ground (arith, get-insert i a (get_or_zero a rows + n) rows)

upsert_total :
    (a : Address) (reached : Bool) (n : UnifiedNum) (rows : UnifiedMap)
    → IsSorted rows
    → IsSorted (upsert reached a n rows).1
      × (sum_values (upsert reached a n rows).1
          ≡ sum_values rows + added reached (get_or_zero a rows) n)
unfolding upsert
upsert_total a reached n rows s = ground (
  arith,
  total-insert a (get_or_zero a rows + n) rows s,
  insert-IsSorted a (get_or_zero a rows + n) rows s,
)

-- Every row is updated on its own, whatever becomes of the others.
upsert_all_entries :
    (i : Address) (reached : Address → Bool) (delta rows : UnifiedMap)
    → IsSorted delta
    → get_or_zero i (upsert_all reached delta rows).1
      ≡ get_or_zero i rows + added (reached i) (get_or_zero i rows) (get_or_zero i delta)
unfolding upsert_all get
upsert_all_entries i reached [] rows s = ground arith
upsert_all_entries i reached ((a, n) ∷ delta) rows s =
    let rows' : UnifiedMap = (upsert (reached a) a n rows).1 in
    let rest = upsert_all_entries i reached delta rows' s.1 in
    let here = upsert_entries i a (reached a) n rows in
    let absent = get-Above a a delta (omega arith) s.0 in
    elim (Bool-cases (i == a)) [
      | inl same ↦ let e : i ≡ a = ground arith in ground arith
      | inr other ↦ ground arith
    ]

upsert_all_ok :
    (reached : Address → Bool) (delta rows : UnifiedMap) (results : List UnifiedNum)
    → IsSorted rows
    → (upsert_all reached delta rows).0 ≡ some results
    → IsSorted (upsert_all reached delta rows).1
      × (sum_values (upsert_all reached delta rows).1 ≡ sum_values rows + sum_values delta)
unfolding upsert_all upsert
upsert_all_ok reached [] rows results s h = ground arith
upsert_all_ok reached ((a, n) ∷ delta) rows results s h =
    let rows' : UnifiedMap = (upsert (reached a) a n rows).1 in
    let (sorted, sum) = upsert_total a (reached a) n rows s in
    elim (Option-cases (upsert_all reached delta rows').0) [
      | inl failed ↦ absurd (ground arith)
      | inr (rest, e) ↦ ground (arith, upsert_all_ok reached delta rows' rest sorted e)
    ]

-- Once the database is connected, each row grows by its own amount, whether or not the updates of
-- other rows fail; a row whose query does not get through, or would overflow, stays as it is.
pub spend_amount_entries :
    (db : Database) (delta rows : Balances) (i : Address)
    → IsOrdered delta
    → db.connected ≡ true
    → (get_or_zero i (spend_amount db delta rows).1.earners
        ≡ get_or_zero i rows.earners
          + added (db.reaches earner i) (get_or_zero i rows.earners) (get_or_zero i delta.earners))
      × (get_or_zero i (spend_amount db delta rows).1.spenders
          ≡ get_or_zero i rows.spenders
            + added
                (db.reaches spender i)
                (get_or_zero i rows.spenders)
                (get_or_zero i delta.spenders))
unfolding spend_amount
spend_amount_entries db delta rows i o c =
    let earners =
      upsert_all_entries i (db.reaches earner) delta.earners rows.earners o.earners_sorted in
    let spenders =
      upsert_all_entries i (db.reaches spender) delta.spenders rows.spenders o.spenders_sorted in
    ground arith

-- A successful update with balances whose sides agree keeps the two sides of the rows in
-- agreement: both grow by what was spent.
pub spend_amount-IsChecked :
    (db : Database) (delta rows : Balances) {results : List UnifiedNum × List UnifiedNum}
    → IsChecked delta
    → IsChecked rows
    → (spend_amount db delta rows).0 ≡ ok results
    → IsChecked (spend_amount db delta rows).1
      × (sum_values (spend_amount db delta rows).1.spenders
          ≡ sum_values rows.spenders + sum_values delta.spenders)
unfolding spend_amount
spend_amount-IsChecked db delta rows {results} d r h = elim (Bool-cases db.connected) [
  | inr lost ↦ absurd (ground arith)
  | inl connected ↦
      elim (Option-cases (upsert_all (db.reaches earner) delta.earners rows.earners).0) [
        | inl failed ↦ absurd (ground arith)
        | inr (earned, e) ↦
            elim (Option-cases (upsert_all (db.reaches spender) delta.spenders rows.spenders).0) [
              | inl failed ↦ absurd (ground arith)
              | inr (spent, p) ↦
                  let left =
                    upsert_all_ok (db.reaches earner) delta.earners rows.earners earned
                      r.ordered.earners_sorted e in
                  let right =
                    upsert_all_ok (db.reaches spender) delta.spenders rows.spenders spent
                      r.ordered.spenders_sorted p in
                  let before = r.balanced in let moved = d.balanced in ground arith
            ]
      ]
]

-- Where every update succeeds, each row has grown by its amount.
upsert_all_ok_entries :
    (i : Address) (reached : Address → Bool) (delta rows : UnifiedMap) (results : List UnifiedNum)
    → IsSorted delta
    → (upsert_all reached delta rows).0 ≡ some results
    → get_or_zero i (upsert_all reached delta rows).1 ≡ get_or_zero i rows + get_or_zero i delta
unfolding upsert_all upsert get
upsert_all_ok_entries i reached [] rows results s h = ground arith
upsert_all_ok_entries i reached ((a, n) ∷ delta) rows results s h =
    let rows' : UnifiedMap = (upsert (reached a) a n rows).1 in
    let here = get-insert i a (get_or_zero a rows + n) rows in
    let absent = get-Above a a delta (omega arith) s.0 in
    elim (Option-cases (upsert_all reached delta rows').0) [
      | inl failed ↦ absurd (ground arith)
      | inr (rest, e) ↦
          let later = upsert_all_ok_entries i reached delta rows' rest s.1 e in
          elim (Bool-cases (i == a)) [
            | inl same ↦ let e : i ≡ a = ground arith in ground arith
            | inr other ↦ ground arith
          ]
    ]

-- A successful update has added every amount to its row, on both sides.
pub spend_amount_ok_entries :
    (db : Database) (delta rows : Balances) {results : List UnifiedNum × List UnifiedNum}
    (i : Address)
    → IsOrdered delta
    → (spend_amount db delta rows).0 ≡ ok results
    → (get_or_zero i (spend_amount db delta rows).1.earners
        ≡ get_or_zero i rows.earners + get_or_zero i delta.earners)
      × (get_or_zero i (spend_amount db delta rows).1.spenders
          ≡ get_or_zero i rows.spenders + get_or_zero i delta.spenders)
unfolding spend_amount
spend_amount_ok_entries db delta rows {results} i o h = elim (Bool-cases db.connected) [
  | inr lost ↦ absurd (ground arith)
  | inl connected ↦
      elim (Option-cases (upsert_all (db.reaches earner) delta.earners rows.earners).0) [
        | inl failed ↦ absurd (ground arith)
        | inr (earned, e) ↦
            elim (Option-cases (upsert_all (db.reaches spender) delta.spenders rows.spenders).0) [
              | inl failed ↦ absurd (ground arith)
              | inr (spent, p) ↦
                  let left =
                    upsert_all_ok_entries i (db.reaches earner) delta.earners rows.earners earned
                      o.earners_sorted e in
                  let right =
                    upsert_all_ok_entries i (db.reaches spender) delta.spenders rows.spenders spent
                      o.spenders_sorted p in
                  ground arith
            ]
      ]
]
