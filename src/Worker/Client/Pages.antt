-- ===== src/Worker/Client/Pages.antt =====
-- The pages that get_all_spenders, all_channels and all_campaigns join; a request is a parameter.
use adex_validator_stack_rus.Prelude.{
  ℕ, zero, suc, ◌-◌, Option, none, some, List, [], ◌++◌, ltb, if◌then◌else◌, bind_option,
}
use adex_validator_stack_rus.BalancesMap.{Map, from_iter}
use adex_validator_stack_rus.Sentry.Channels.Pages.{Page}

module _ {A : Type 0} (fetch_page : ℕ → Option (Page A)) where
  -- `try_join_all` of the pages `i`, `i + 1`, .., `n` of them.
  unfoldable pub join_pages : ℕ → ℕ → Option (List A)
  join_pages i zero = some []
  join_pages i (suc n) = elim (fetch_page i) [
    | none ↦ none
    | some p ↦ bind_option (join_pages (suc i) n) λ rest. some (p.items ++ rest)
  ]

  -- `all_channels` and `all_campaigns`
  unfoldable pub all_items : Option (List A)
  unfolding join_pages
  all_items = elim (fetch_page 0) [
    | none ↦ none
    | some first ↦
        if ltb first.total_pages 2
        then some first.items
        else bind_option (join_pages 1 (first.total_pages - 1)) λ rest. some (first.items ++ rest)
  ]

-- `get_all_spenders`; the spenders of a page are given by their entries.
unfoldable pub get_all_spenders : {V : Type 0} → (ℕ → Option (Page (ℕ × V))) → Option (Map V)
unfolding all_items from_iter
get_all_spenders fetch_page = bind_option (all_items fetch_page) λ xs. some (from_iter xs [])
