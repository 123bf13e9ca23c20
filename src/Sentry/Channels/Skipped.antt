-- ===== src/Sentry/Channels/Skipped.antt =====
-- What the pages of channels hold when a channel is inserted again between two requests.
use adex_validator_stack_rus.Prelude.{
  ℕ, zero, suc, ◌+◌, ◌-◌, ◌*◌, ◌/◌, ◌≤◌, ◌≡◌, refl, sym, ap, ◌∙◌, subst, inl, inr, true, none, List,
  [], ◌∷◌, ◌++◌, map, arith, ◌==◌, Bool-cases, length, take, IsIn, returns, ok,
}
use adex_validator_stack_rus.Prelude.U64
use adex_validator_stack_rus.Channel.{Channel}
use adex_validator_stack_rus.Sentry.Routes.Tables.{same_channel}
use adex_validator_stack_rus.Sentry.Routes.Pages.{drop, total_pages}
use adex_validator_stack_rus.Sentry.Channels.Pages.{Page, get_all_spendables_for_channel}
use adex_validator_stack_rus.Sentry.Channels.Listing.{
  ChannelRow, ChannelListQuery, insert_listed, channels_where, list_channels, channel_list,
}

-- The request for a page of all channels.
abbrev pub all_at : ℕ → ChannelListQuery
all_at i = record { page = i; validator = none; chains = [] }

abbrev pub channels : List ChannelRow → List Channel
channels rows = map (λ (r : ChannelRow). r.channel) rows

channels_where_all : (rows : List ChannelRow) → channels_where none [] rows ≡ channels rows
unfolding channels_where
channels_where_all [] = refl
channels_where_all (r ∷ rows) = ap (λ cs. r.channel ∷ cs) (channels_where_all rows)

channels-append :
    (rows others : List ChannelRow) → channels (rows ++ others) ≡ channels rows ++ channels others
channels-append [] others = refl
channels-append (r ∷ rows) others = ap (λ cs. r.channel ∷ cs) (channels-append rows others)

-- The channels of a table whose first row was inserted again.
channels_again :
    (x y : ChannelRow) (xs ys : List ChannelRow)
    → channels ((xs ++ y ∷ ys) ++ x ∷ []) ≡ channels xs ++ y.channel ∷ channels (ys ++ x ∷ [])
channels_again x y [] ys = refl
channels_again x y (z ∷ xs) ys = ap (λ cs. z.channel ∷ cs) (channels_again x y xs ys)

same_channel_refl : (c : Channel) → same_channel c c ≡ true
unfolding same_channel
same_channel_refl c = ground arith

module _ {A : Type 0} where
  abbrev taken_page : List A → ℕ → ℕ → ℕ → Page A
  taken_page rows skip limit pages = record {
    items = take (suc limit) (drop skip rows);
    total_pages = pages;
    page = skip / suc limit;
  }

  -- What is on the page of a limit above zero.
  page_items :
      (rows : List A) (skip limit : ℕ)
      → (p : Page A) × (get_all_spendables_for_channel rows skip (suc limit) ≡ returns p)
        × (p.items ≡ take (suc limit) (drop skip rows))
  unfolding get_all_spendables_for_channel total_pages
  page_items rows skip limit = elim (Bool-cases (length rows == 0)) [
    | inl empty ↦ (taken_page rows skip limit 1, ground arith, refl)
    | inr more ↦
        (taken_page rows skip limit (1 + (length rows - 1) / suc limit), ground arith, refl)
  ]

  take-append : (xs ys : List A) → take (length xs) (xs ++ ys) ≡ xs
  take-append [] ys = refl
  take-append (x ∷ xs) ys = ap (λ zs. x ∷ zs) (take-append xs ys)

  drop-append : (xs : List A) (y : A) (ys : List A) → drop (suc (length xs)) (xs ++ y ∷ ys) ≡ ys
  drop-append [] y ys = refl
  drop-append (x ∷ xs) y ys = drop-append xs y ys

  take-IsIn : (n : ℕ) (y : A) (xs : List A) → IsIn y (take n xs) → IsIn y xs
  take-IsIn zero y xs h = absurd h
  take-IsIn (suc n) y [] h = absurd h
  take-IsIn (suc n) y (x ∷ xs) (inl e) = inl e
  take-IsIn (suc n) y (x ∷ xs) (inr h) = inr (take-IsIn n y xs h)

  append_take-IsIn : (n : ℕ) (y : A) (xs ys : List A) → IsIn y (xs ++ take n ys) → IsIn y (xs ++ ys)
  append_take-IsIn n y [] ys h = take-IsIn n y ys h
  append_take-IsIn n y (x ∷ xs) ys (inl e) = inl e
  append_take-IsIn n y (x ∷ xs) ys (inr h) = inr (append_take-IsIn n y xs ys h)

  left-IsIn : (y : A) (xs ys : List A) → IsIn y xs → IsIn y (xs ++ ys)
  left-IsIn y [] ys h = absurd h
  left-IsIn y (x ∷ xs) ys (inl e) = inl e
  left-IsIn y (x ∷ xs) ys (inr h) = inr (left-IsIn y xs ys h)

  right-IsIn : (y : A) (xs ys : List A) → IsIn y ys → IsIn y (xs ++ ys)
  right-IsIn y [] ys h = h
  right-IsIn y (x ∷ xs) ys h = inr (right-IsIn y xs ys h)

channel_list_page :
    (rows : List ChannelRow) (limit i : ℕ)
    → i * suc limit ≤ U64.max_value
    → (p : Page Channel) × (channel_list true (suc limit) rows (all_at i) ≡ ok p)
      × (p.items ≡ take (suc limit) (drop (i * suc limit) (channels rows)))
unfolding channel_list list_channels
channel_list_page rows limit i h =
    let (p, found, items) = page_items (channels_where none [] rows) (i * suc limit) limit in
    (
      p,
      ground arith,
      items ∙ ap (λ cs. take (suc limit) (drop (i * suc limit) cs)) (channels_where_all rows),
    )

-- A channel whose row is right behind the first page is on neither of the two pages, if the first
-- channel of the first page is inserted again between the two requests, although the row is in the
-- table all the time. The page limit is that of the server, and no other row has the channel.
pub channel_list_skips :
    (x y : ChannelRow) (xs ys : List ChannelRow)
    → suc (length (channels xs)) ≤ U64.max_value
    → ¬ IsIn y.channel (channels (x ∷ xs) ++ channels (ys ++ x ∷ []))
    → (first second : Page Channel) × (channel_list true
          (suc (length (channels xs)))
          (x ∷ xs ++ y ∷ ys)
          (all_at 0)
        ≡ ok first)
      × (channel_list true
            (suc (length (channels xs)))
            (insert_listed x (x ∷ xs ++ y ∷ ys))
            (all_at 1)
          ≡ ok second)
      × (¬ IsIn y.channel (first.items ++ second.items))
      × IsIn y (insert_listed x (x ∷ xs ++ y ∷ ys))
unfolding insert_listed
channel_list_skips x y xs ys h other =
    let n : ℕ = length (channels xs) in
    let again : insert_listed x (x ∷ xs ++ y ∷ ys) ≡ (xs ++ y ∷ ys) ++ x ∷ [] =
      ground (arith, same_channel_refl x.channel) in
    let (p, found, items) = channel_list_page (x ∷ xs ++ y ∷ ys) n 0 (omega arith) in
    let (q, next, others) = channel_list_page ((xs ++ y ∷ ys) ++ x ∷ []) n 1 (omega (arith, h)) in
    let start : 0 * suc n ≡ 0 = omega arith in
    let front : p.items ≡ channels (x ∷ xs) =
      items
      ∙ ap (λ m. take (suc n) (drop m (channels (x ∷ xs ++ y ∷ ys)))) start
      ∙ ap (take (suc n)) (channels-append (x ∷ xs) (y ∷ ys))
      ∙ take-append (channels (x ∷ xs)) (channels (y ∷ ys)) in
    let one : 1 * suc n ≡ suc n = omega arith in
    let back : q.items ≡ take (suc n) (channels (ys ++ x ∷ [])) =
      others
      ∙ ap (λ m. take (suc n) (drop m (channels ((xs ++ y ∷ ys) ++ x ∷ [])))) one
      ∙ ap (λ cs. take (suc n) (drop (suc n) cs)) (channels_again x y xs ys)
      ∙ ap (take (suc n)) (drop-append (channels xs) y.channel (channels (ys ++ x ∷ []))) in
    (
      p,
      q,
      found,
      rw again next,
      λ i. other (
          append_take-IsIn (suc n) y.channel (channels (x ∷ xs)) (channels (ys ++ x ∷ [])) (
            subst (IsIn y.channel)
              (ap (λ cs. cs ++ q.items) front ∙ ap (λ cs. channels (x ∷ xs) ++ cs) back) i)),
      subst (IsIn y) (sym again)
          (left-IsIn y (xs ++ y ∷ ys) (x ∷ []) (right-IsIn y xs (y ∷ ys) (inl refl))),
    )
