-- ===== src/Sentry/Channels/Pages.antt =====
-- `get_all_spendables_for_channel` of sentry/src/db/spendable.rs, and its page of a request.
use adex_validator_stack_rus.Prelude.{
  ℕ, ◌/◌, Option, none, some, List, ◌==◌, if◌then◌else◌, length, take, Outcome, returns, panics,
}
use adex_validator_stack_rus.Prelude.U64
use adex_validator_stack_rus.Sentry.Routes.Pages.{drop, total_pages}

-- What is on a page, and its `Pagination`.
pub record Page (A : Type 0) : Type 0 where
  pub items : List A
  pub total_pages : ℕ
  pub page : ℕ

module _ {A : Type 0} where
  -- The query with `LIMIT .. OFFSET ..` over the rows in the order of their creation, and the
  -- pagination; a limit of 0 panics.
  unfoldable pub get_all_spendables_for_channel : List A → ℕ → ℕ → Outcome (Page A)
  unfolding total_pages
  get_all_spendables_for_channel rows skip limit = elim (total_pages (length rows) limit) [
    | panics ↦ panics
    | returns pages ↦
        if limit == 0
        then panics
        else returns (record {
          items = take limit (drop skip rows);
          total_pages = pages;
          page = skip / limit;
        })
  ]

  -- What a request for a page is answered, `none` where it fails.
  unfoldable pub requested : List A → ℕ → ℕ → Option (Page A)
  unfolding get_all_spendables_for_channel
  requested rows limit page = elim (U64.checked_mul page limit) [
    | none ↦ none
    | some skip ↦ elim (get_all_spendables_for_channel rows skip limit) [
      | panics ↦ none
      | returns p ↦ some p
    ]
  ]
