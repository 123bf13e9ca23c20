-- ===== src/Worker/Client/Spenders.antt =====
-- The limits of spenders that the worker gets from the server.
use adex_validator_stack_rus.Prelude.{
  ℕ, zero, suc, ◌+◌, ◌-◌, ◌≤◌, ◌<◌, ◌≡◌, refl, ap, inl, inr, Option, none, some, List, [], ◌∷◌,
  ◌++◌, map, arith, ltb, Bool-cases, Option-cases, length, total,
}
use adex_validator_stack_rus.Prelude.U64
use adex_validator_stack_rus.BalancesMap.{Address, Map, insert, from_iter}
use adex_validator_stack_rus.UnifiedNum.{UnifiedNum}
use adex_validator_stack_rus.Sentry.Channels.Pages.{Page, requested}
use adex_validator_stack_rus.Sentry.Channels.Spenders.{
  SpenderLimits, States, spender_info, limits_of,
}
use adex_validator_stack_rus.Worker.Client.Pages.{join_pages, all_items, get_all_spenders}
use adex_validator_stack_rus.Worker.Client.Paging.{all_items-requested}

module _ {A B : Type 0} (f : A → B) where
  abbrev map_page : Option (Page A) → Option (Page B)
  map_page none = none
  map_page (some p) =
      some (record { items = map f p.items; total_pages = p.total_pages; page = p.page })

  map-append : (xs ys : List A) → map f (xs ++ ys) ≡ map f xs ++ map f ys
  map-append [] ys = refl
  map-append (x ∷ xs) ys = ap (λ zs. f x ∷ zs) (map-append xs ys)

  join_pages-map :
      (fetch : ℕ → Option (Page A)) (i n : ℕ) (xs : List A)
      → join_pages fetch i n ≡ some xs
      → join_pages (λ k. map_page (fetch k)) i n ≡ some (map f xs)
  unfolding join_pages
  join_pages-map fetch i zero xs h = ground arith
  join_pages-map fetch i (suc n) xs h = elim (Option-cases (fetch i)) [
    | inl missing ↦ absurd (ground arith)
    | inr (p, found) ↦ elim (Option-cases (join_pages fetch (suc i) n)) [
      | inl missing ↦ absurd (ground arith)
      | inr (ys, joined) ↦
          let rest = join_pages-map fetch (suc i) n ys joined in
          let both = map-append p.items ys in ground (arith, rest, both)
    ]
  ]

  all_items-map :
      (fetch : ℕ → Option (Page A)) (xs : List A)
      → all_items fetch ≡ some xs
      → all_items (λ k. map_page (fetch k)) ≡ some (map f xs)
  unfolding all_items
  all_items-map fetch xs h = elim (Option-cases (fetch 0)) [
    | inl missing ↦ absurd (ground arith)
    | inr (p, found) ↦ elim (Bool-cases (ltb p.total_pages 2)) [
      | inl one ↦ ground arith
      | inr more ↦ elim (Option-cases (join_pages fetch 1 (p.total_pages - 1))) [
        | inl missing ↦ absurd (ground arith)
        | inr (ys, joined) ↦
            let rest = join_pages-map fetch 1 (p.total_pages - 1) ys joined in
            let both = map-append p.items ys in ground (arith, rest, both)
      ]
    ]
  ]

-- The entry of a row in the answer of `get_all_spender_limits`.
abbrev pub entry_of : States → Address × UnifiedNum → Address × SpenderLimits
entry_of states (uid, total) = (uid, spender_info states uid total)

-- The answer to the request for a page of spenders.
abbrev pub answered :
    States → List (Address × UnifiedNum) → ℕ → ℕ → Option (Page (Address × SpenderLimits))
answered states rows limit i = map_page (entry_of states) (requested rows limit i)

from_iter-entries :
    (states : States) (rows : List (Address × UnifiedNum)) (m : Map SpenderLimits)
    → from_iter (map (entry_of states) rows) m ≡ limits_of states rows m
unfolding from_iter limits_of
from_iter-entries states [] m = refl
from_iter-entries states ((uid, total) ∷ rows) m =
    from_iter-entries states rows (insert uid (spender_info states uid total) m)

-- With a limit above zero, and as long as the number of spendables and the limit together fit 64
-- bits, the worker's `get_all_spenders` succeeds and has the limits of every spendable of the
-- channel, as the server would report them all on one page.
pub get_all_spenders-limits :
    (states : States) (rows : List (Address × UnifiedNum)) (limit : ℕ)
    → 0 < limit
    → length rows + limit ≤ U64.max_value
    → get_all_spenders (answered states rows limit) ≡ some (limits_of states rows [])
unfolding get_all_spenders
get_all_spenders-limits states rows limit h k =
    let items =
      all_items-map (entry_of states) (requested rows limit) rows
        (all_items-requested rows limit h k) in
    rw items (ap some (from_iter-entries states rows []))
