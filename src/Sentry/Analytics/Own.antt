-- ===== src/Sentry/Analytics/Own.antt =====
-- Whose rows a request that is made as a publisher or as an advertiser can see.
use adex_validator_stack_rus.Prelude.{
  ℕ, min, ◌≡◌, refl, ap, inl, inr, Bool, true, false, not, ◌&&◌, Option, none, some, List, [], ◌∷◌,
  arith, leb, ◌==◌, if◌then◌else◌, Bool-cases, any, all, take, err,
}
use adex_validator_stack_rus.Sentry.Analytics.Defs.{AnalyticsRow}
use adex_validator_stack_rus.Sentry.Analytics.Query.{
  cast_max, FetchedAnalytics, DateField, AuthenticateAs, as_advertiser, as_publisher,
  AnalyticsQuery, AllowedKey, campaign_id, ad_unit, ad_slot, ad_slot_type, advertiser, publisher,
  hostname, country, os_name, forbidden_segment, forbidden_key, Fetching, all_keys, key_value,
  column, is_value, in_query, grouped, reply_of, fetch_analytics, get_analytics, with_chain,
  segment_allowed, contains_allowed, is_some,
}

-- The rows of the one that the request is made as.
abbrev pub is_own : AuthenticateAs → AnalyticsRow → Bool
is_own (as_publisher p) r = p == r.key.publisher
is_own (as_advertiser a) r = a == r.key.advertiser

unfoldable pub only : (AnalyticsRow → Bool) → List AnalyticsRow → List AnalyticsRow
only o [] = []
only o (r ∷ rs) = let rest = only o rs in if o r then r ∷ rest else rest

grouped-only :
    (date_trunc : DateField → ℕ → ℕ) (q : AnalyticsQuery) (p o : AnalyticsRow → Bool)
    (rows : List AnalyticsRow)
    → ((r : AnalyticsRow) → p r ≡ true → o r ≡ true)
    → grouped date_trunc q p rows ≡ grouped date_trunc q p (only o rows)
unfolding grouped only
grouped-only date_trunc q p o [] h = refl
grouped-only date_trunc q p o (r ∷ rows) h =
    let rest = grouped-only date_trunc q p o rows h in
    elim (Bool-cases (o r)) [
      | inl mine ↦ ground arith
      | inr other ↦ elim (Bool-cases (p r)) [
        | inl taken ↦ let e = h r taken in absurd (ground arith)
        | inr left ↦ ground arith
      ]
    ]

and_left : (a b : Bool) → (a && b) ≡ true → a ≡ true
and_left true b h = refl
and_left false b h = h

first_test : (a b c d e : Bool) → (a && b && c && d && e) ≡ true → a ≡ true
first_test a b c d e h = and_left a _ (and_left _ _ (and_left _ _ (and_left _ _ h)))

all-at : (p : AllowedKey → Bool) (k : AllowedKey) → all p all_keys ≡ true → p k ≡ true
all-at p campaign_id h = ground arith
all-at p ad_unit h = ground arith
all-at p ad_slot h = ground arith
all-at p ad_slot_type h = ground arith
all-at p advertiser h = ground arith
all-at p publisher h = ground arith
all-at p hostname h = ground arith
all-at p country h = ground arith
all-at p os_name h = ground arith

in_query-is_own :
    (q : AnalyticsQuery) (auth : AuthenticateAs) (r : AnalyticsRow)
    → in_query q (some auth) all_keys r ≡ true
    → is_own auth r ≡ true
unfolding in_query key_value column
in_query-is_own q (as_publisher p) r h =
    all-at (λ k. is_value (key_value q (some (as_publisher p)) k) (column k r.key)) publisher
      (first_test _ _ _ _ _ h)
in_query-is_own q (as_advertiser a) r h =
    all-at (λ k. is_value (key_value q (some (as_advertiser a)) k) (column k r.key)) advertiser
      (first_test _ _ _ _ _ h)

-- On the routes for a publisher and for an advertiser, whatever the query asks for, the answer is
-- the one that would be given if the table held no rows but those of the one who is authenticated.
pub get_analytics-is_own :
    (date_trunc : DateField → ℕ → ℕ) (analytics_find : ℕ) (fetching : Fetching) (chain : Option ℕ)
    (auth : AuthenticateAs) (query : AnalyticsQuery) (rows : List AnalyticsRow)
    → get_analytics date_trunc analytics_find fetching chain all_keys (some auth) query rows
      ≡ get_analytics date_trunc analytics_find fetching chain all_keys
          (some auth)
          query
          (only (is_own auth) rows)
unfolding get_analytics fetch_analytics
get_analytics-is_own date_trunc analytics_find fetching chain auth query rows =
    let q = with_chain chain query in
    ap
      (λ groups.
        if not (segment_allowed all_keys q.segment_by)
        then err forbidden_segment
        else if any (λ k. is_some (q.values k) && not (contains_allowed all_keys k)) all_keys
        then err forbidden_key
        else reply_of fetching (
            if all (λ (g : FetchedAnalytics). leb g.value (cast_max q.metric)) groups
            then some (take (min q.limit analytics_find) groups)
            else none))
      (grouped-only date_trunc q (in_query q (some auth) all_keys) (is_own auth) rows
        (in_query-is_own q auth))
