-- ===== src/Worker/Client/Paging.antt =====
-- The pages that the client joins are all rows of the server.
use adex_validator_stack_rus.Prelude.{
  ℕ, zero, suc, ◌+◌, ◌-◌, ◌*◌, ◌/◌, ◌≤◌, ◌<◌, ◌≡◌, refl, sym, ap, ◌∙◌, subst, inl, inr, true, false,
  Option, some, List, [], ◌∷◌, ◌++◌, arith, ltb, Bool-cases, length, take, returns,
}
use adex_validator_stack_rus.Prelude.U64
use adex_validator_stack_rus.Sentry.Routes.Pages.{drop, total_pages}
use adex_validator_stack_rus.Sentry.Routes.Paging.{
  take_all, drop_nil, take-drop, drop-length, ++_nil, pages_bounds,
}
use adex_validator_stack_rus.Sentry.Channels.Pages.{Page, get_all_spendables_for_channel, requested}
use adex_validator_stack_rus.Worker.Client.Pages.{join_pages, all_items}

module _ {A : Type 0} (rows : List A) (limit pages : ℕ) where
  abbrev page_at : ℕ → Page A
  page_at i = record {
    items = take limit (drop (i * limit) rows);
    total_pages = pages;
    page = i * limit / limit;
  }

  requested_lem :
      (i : ℕ)
      → 0 < limit
      → i * limit ≤ U64.max_value
      → total_pages (length rows) limit ≡ returns pages
      → requested rows limit i ≡ some (page_at i)
  unfolding requested get_all_spendables_for_channel
  requested_lem i h k e = ground arith

  join_pages_lem :
      (i n : ℕ)
      → 0 < limit
      → length rows ≤ (i + n) * limit
      → (i + n) * limit ≤ U64.max_value
      → total_pages (length rows) limit ≡ returns pages
      → join_pages (requested rows limit) i n ≡ some (drop (i * limit) rows)
  unfolding join_pages
  join_pages_lem i zero l h k e = ap some (sym (drop-length (i * limit) rows (omega (arith, h))))
  join_pages_lem i (suc n) l h k e =
      let rest = join_pages_lem (suc i) n l (omega (arith, h)) (omega (arith, k)) e in
      let fits : i * limit ≤ U64.max_value = grind arith in
      let here = requested_lem i l fits e in
      let split = take-drop limit (i * limit) rows in
      let next : i * limit + limit ≡ suc i * limit = omega arith in
      let same = ap (λ (m : ℕ). drop m rows) next in
      rw (here, join_pages)
        (rw rest (ap some (ap (λ zs. take limit (drop (i * limit) rows) ++ zs) (sym same) ∙ split)))

first_items :
    {A : Type 0}
    → (rows : List A) (limit pages : ℕ) → (page_at rows limit pages 0).items ≡ take limit rows
first_items rows limit pages =
    let start : 0 * limit ≡ 0 = omega arith in ap (λ (m : ℕ). take limit (drop m rows)) start

total_pages_lem :
    (n limit : ℕ) → 0 < n → 0 < limit → total_pages n limit ≡ returns (1 + (n - 1) / limit)
unfolding total_pages
total_pages_lem n limit h k = ground arith

all_items_one :
    {A : Type 0}
    → (fetch : ℕ → Option (Page A)) (p : Page A) → fetch 0 ≡ some p
    → ltb p.total_pages 2 ≡ true
    → all_items fetch ≡ some p.items
unfolding all_items
all_items_one fetch p e h = ground arith

all_items_more :
    {A : Type 0}
    → (fetch : ℕ → Option (Page A)) (p : Page A) (rest : List A) → fetch 0 ≡ some p
    → ltb p.total_pages 2 ≡ false
    → join_pages fetch 1 (p.total_pages - 1) ≡ some rest
    → all_items fetch ≡ some (p.items ++ rest)
unfolding all_items
all_items_more fetch p rest e h r = ground arith

-- With a limit above zero, and as long as the number of rows and the limit together fit 64 bits,
-- the pages that the client requests and joins are exactly the rows of the server, each once and
-- in order: no request fails, and none is missing.
pub all_items-requested :
    {A : Type 0}
    → (rows : List A) (limit : ℕ) → 0 < limit
    → length rows + limit ≤ U64.max_value
    → all_items (requested rows limit) ≡ some rows
unfolding total_pages
all_items-requested {A} [] limit h k =
    let first = requested_lem [] limit 1 0 h (omega arith) refl in
    all_items_one (requested [] limit) (page_at [] limit 1 0) first refl
    ∙ ap some (
        first_items [] limit 1
        ∙ sym (++_nil (take limit []))
        ∙ ap (λ zs. take limit [] ++ zs) (sym (drop_nil {A = A} limit))
        ∙ take_all {A = A} limit [])
all_items-requested {A} (x ∷ rows) limit h k =
    let all : List A = x ∷ rows in
    let n : ℕ = (length all - 1) / limit in
    let bounds = pages_bounds (length all) limit (omega arith) h in
    let joined = take_all limit all in
    let count = total_pages_lem (length all) limit (omega arith) h in
    let first = requested_lem all limit (1 + n) 0 h (omega arith) count in
    elim (Bool-cases (ltb (1 + n) 2)) [
      | inl one ↦
          let rest = drop-length limit all (ground (arith, bounds)) in
          all_items_one (requested all limit) (page_at all limit (1 + n) 0) first one
          ∙ ap some (
              first_items all limit (1 + n)
              ∙ sym (++_nil (take limit all))
              ∙ ap (λ zs. take limit all ++ zs) (sym rest)
              ∙ joined)
      | inr more ↦
          let rest =
            join_pages_lem all limit (1 + n) 1 n h (omega (arith, bounds))
              (omega (arith, bounds, k)) count in
          let start : drop (1 * limit) all ≡ drop limit all =
            ap (λ (m : ℕ). drop m all) (omega arith) in
          let less : n ≡ 1 + n - 1 = omega arith in
          all_items_more (requested all limit) (page_at all limit (1 + n) 0) (drop (1 * limit) all)
            first more
            (subst (λ m. join_pages (requested all limit) 1 m ≡ some (drop (1 * limit) all)) less
              rest)
          ∙ ap some (
              ap (λ zs. zs ++ drop (1 * limit) all) (first_items all limit (1 + n))
              ∙ ap (λ zs. take limit all ++ zs) start
              ∙ joined)
    ]
