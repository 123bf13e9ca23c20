-- ===== src/Sentry/Accounting/Defs.antt =====
-- The rows of one channel are two maps by address, one for each `Side`: every statement of the
-- source names the channel. The timestamps of a row are left out.
use adex_validator_stack_rus.Prelude.{
  ℕ, ◌+◌, Bool, ◌&&◌, Option, none, some, List, [], ◌∷◌, leb, if◌then◌else◌, ok, err, ok_or,
  bind_option,
}
use adex_validator_stack_rus.Prelude.Actions.{Action}
use adex_validator_stack_rus.UnifiedNum.{UnifiedNum}
use adex_validator_stack_rus.BalancesMap.{Address, UnifiedMap, get, get_or_zero, insert}
use adex_validator_stack_rus.Balances.{Balances}

-- `accounting::Side`
pub data Side : Type 0 where
  earner spender : Side

-- `PoolError`: no connection, no prepared statement, or a failed query.
pub data PoolError : Type 0 where
  backend : PoolError

-- What the database answers: whether there is a connection that prepares the statement, and
-- whether the query for a row gets through.
pub record Database : Type 0 where
  pub connected : Bool
  pub reaches : Side → Address → Bool

-- The largest `bigint`.
abbrev pub bigint_max : ℕ
bigint_max = 9223372036854775807

-- The row of an address and a side, where there is one.
abbrev pub rows_of : Side → Balances → UnifiedMap
rows_of earner rows = rows.earners
rows_of spender rows = rows.spenders

-- `get_accounting`
unfoldable pub get_accounting :
    Database → Address → Side → Action Balances PoolError (Option UnifiedNum)
get_accounting db address side rows =
    if db.connected && db.reaches side address
    then (ok (get address (rows_of side rows)), rows)
    else (err backend, rows)

-- `UPDATE_ACCOUNTING_STATEMENT`: the amount is inserted, or added to the row that is there. An
-- amount that is no `bigint` fails, and so does a sum that is none.
unfoldable pub upsert : Bool → Address → UnifiedNum → UnifiedMap → Option UnifiedNum × UnifiedMap
upsert reached address amount rows =
    if reached && leb (get_or_zero address rows + amount) bigint_max
    then (
      some (get_or_zero address rows + amount),
      insert address (get_or_zero address rows + amount) rows,
    )
    else (none, rows)

-- `update_accounting`
unfoldable pub update_accounting :
    Database → Address → Side → UnifiedNum → Action Balances PoolError UnifiedNum
unfolding upsert
update_accounting db address earner amount rows =
    let (row, earners') =
      upsert (db.connected && db.reaches earner address) address amount rows.earners in
    (ok_or backend row, record rows { earners = earners' })
update_accounting db address spender amount rows =
    let (row, spenders') =
      upsert (db.connected && db.reaches spender address) address amount rows.spenders in
    (ok_or backend row, record rows { spenders = spenders' })

-- One more result of `collect::<Result<Vec<_>, _>>()`.
abbrev pub collect : Option UnifiedNum → Option (List UnifiedNum) → Option (List UnifiedNum)
collect none rest = none
collect (some n) none = none
collect (some n) (some rest) = some (n ∷ rest)

-- `join_all`: the query of every row runs, also where one fails.
unfoldable pub upsert_all :
    (Address → Bool) → UnifiedMap → UnifiedMap → Option (List UnifiedNum) × UnifiedMap
unfolding upsert
upsert_all reached [] rows = (some [], rows)
upsert_all reached ((address, amount) ∷ delta) rows =
    let (row, rows') = upsert (reached address) address amount rows in
    let (rest, rows'') = upsert_all reached delta rows' in (collect row rest, rows'')

-- `spend_amount`
unfoldable pub spend_amount :
    Database → Balances → Action Balances PoolError (List UnifiedNum × List UnifiedNum)
unfolding upsert_all
spend_amount db delta rows =
    if db.connected
    then (let (earned, earners') = upsert_all (db.reaches earner) delta.earners rows.earners in
        let (spent, spenders') = upsert_all (db.reaches spender) delta.spenders rows.spenders in
        (
          (ok_or backend (bind_option earned λ e. bind_option spent λ s. some (e, s))),
          record { earners = earners'; spenders = spenders' },
        ))
    else (err backend, rows)
