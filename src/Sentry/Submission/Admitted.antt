-- ===== src/Sentry/Submission/Admitted.antt =====
-- What a request that was answered with success has done.
use adex_validator_stack_rus.Prelude.{
  ℕ, ◌≡◌, refl, sym, ap, ◌≢◌, ◌⊎◌, inl, inr, Option, none, some, List, arith, All, Result, ok, err,
  aborts,
}
use adex_validator_stack_rus.UnifiedNum.{UnifiedNum}
use adex_validator_stack_rus.BalancesMap.{Address}
use adex_validator_stack_rus.Campaign.{Campaign, ValidatorDesc, campaign_leader, campaign_follower}
use adex_validator_stack_rus.Targeting.Values.{Numbers}
use adex_validator_stack_rus.Sentry.Redis.{Redis}
use adex_validator_stack_rus.Sentry.Payout.{Event, get_payout}
use adex_validator_stack_rus.Sentry.Payout.Bounds.{IsPriced, spend_for_events-bounds}
use adex_validator_stack_rus.Sentry.Events.{State, spend_for_events}
use adex_validator_stack_rus.Sentry.Events.{Error as EventsError}
use adex_validator_stack_rus.Sentry.Access.{LimitStore, AccessError, check_access}
use adex_validator_stack_rus.Sentry.Submission.Defs.{
  Response, bad_request, Paid, Context, World, answer, spend_with, after_access, process_events,
  response_of,
}

abbrev Reply : Type 0
Reply = Option (Result Response Paid)

not_success :
    (o : Reply) (paid : Paid)
    → (o ≡ none) ⊎ ((o ≡ some aborts) ⊎ ((r : Response) × (o ≡ some (err r))))
    → o ≢ some (ok paid)
not_success o paid (inl a) h = absurd (ground arith)
not_success o paid (inr (inl a)) h = absurd (ground arith)
not_success o paid (inr (inr (r, a))) h = absurd (ground arith)

module _ (num : Numbers) (limits : LimitStore) (redis : Redis) (x : Context num) where
  -- A request that was paid for: it passed the access check, both validators of the campaign's
  -- channel are among those of the campaign, its events were paid for with their fees, and each
  -- price lies within the bounds of the campaign.
  pub record IsAdmitted (schedule : List ℕ) (c : Campaign) (events : List Event)
      (w w' : World limits redis) (paid : Paid) : Type 0 where
    pub access :
        check_access limits x.hex x.now schedule x.session x.auth x.allow x.creator x.ip_rate_limit
          c events w.keys
        ≡ (some (ok tt), w'.keys)
    pub validators :
        (leader follower : ValidatorDesc) × (campaign_leader c ≡ some leader)
        × (campaign_follower c ≡ some follower)
        × (spend_for_events redis x.arithmetic.ratio
              (get_payout num x.arithmetic x.texts x.decoder x.now c x.session)
              x.database
              c
              events
              leader
              follower
              w.paying
            ≡ (ok paid, w'.paying))
    pub priced : All (λ (p : Event × Address × UnifiedNum). IsPriced c p.0 p.1 p.2) paid

  answer_inv :
      (r : Result EventsError Paid) (paid : Paid)
      → answer num limits redis x r ≡ some (ok paid)
      → r ≡ ok paid
  answer_inv (ok p) paid h = ground arith
  answer_inv (err e) paid h = absurd (ground arith)
  answer_inv aborts paid h = absurd (ground arith)

  abbrev packed : limits.Store → Result EventsError Paid × State redis → Reply × World limits redis
  packed keys p = (answer num limits redis x p.0, record { keys = keys; paying = p.1 })

  packed_inv :
      (keys : limits.Store) (p : Result EventsError Paid × State redis) (w' : World limits redis)
      (paid : Paid)
      → packed keys p ≡ (some (ok paid), w')
      → (w'.keys ≡ keys) × (p ≡ (ok paid, w'.paying))
  packed_inv keys p w' paid h =
      let same : p.0 ≡ ok paid = answer_inv p.0 paid (ap (λ q. q.0) h) in
      let state : p.1 ≡ w'.paying = ap (λ q. q.1.paying) h in
      (ap (λ q. q.1.keys) (sym h), λ i. (same i, state i))

  spend_with_inv :
      (l f : Option ValidatorDesc) (c : Campaign) (events : List Event) (w w' : World limits redis)
      (paid : Paid)
      → spend_with num limits redis x l f c events w ≡ (some (ok paid), w')
      → (w'.keys ≡ w.keys)
        × ((leader follower : ValidatorDesc) × (l ≡ some leader)
            × (f ≡ some follower)
            × (spend_for_events redis x.arithmetic.ratio
                  (get_payout num x.arithmetic x.texts x.decoder x.now c x.session)
                  x.database
                  c
                  events
                  leader
                  follower
                  w.paying
                ≡ (ok paid, w'.paying)))
  unfolding spend_with
  spend_with_inv none f c events w w' paid h =
      absurd (
        not_success (some (err bad_request)) paid (inr (inr (bad_request, refl))) (ap (λ q. q.0) h))
  spend_with_inv (some l) none c events w w' paid h =
      absurd (
        not_success (some (err bad_request)) paid (inr (inr (bad_request, refl))) (ap (λ q. q.0) h))
  spend_with_inv (some l) (some f) c events w w' paid h =
      let p =
        spend_for_events redis x.arithmetic.ratio
          (get_payout num x.arithmetic x.texts x.decoder x.now c x.session) x.database c events l f
          w.paying in
      let (keys, e) = packed_inv w.keys p w' paid h in (keys, (l, f, refl, refl, e))

  after_access_inv :
      (c : Campaign) (events : List Event) (s : State redis)
      (r : Option (Result AccessError (Unit {0})) × limits.Store) (w' : World limits redis)
      (paid : Paid)
      → after_access num limits redis x c events s r ≡ (some (ok paid), w')
      → (r.0 ≡ some (ok tt))
        × (spend_with num limits redis x
              (campaign_leader c)
              (campaign_follower c)
              c
              events
              (record { keys = r.1; paying = s })
            ≡ (some (ok paid), w'))
  unfolding after_access
  after_access_inv c events s (none, keys) w' paid h =
      absurd (not_success none paid (inl refl) (ap (λ q. q.0) h))
  after_access_inv c events s (some (err e), keys) w' paid h = absurd (
      not_success (some (err (response_of e))) paid (inr (inr (response_of e, refl)))
        (ap (λ q. q.0) h))
  after_access_inv c events s (some aborts, keys) w' paid h =
      absurd (not_success (some aborts) paid (inr (inl refl)) (ap (λ q. q.0) h))
  after_access_inv c events s (some (ok done), keys) w' paid h = (refl, h)

  -- A request that is answered with success passed the access check; the campaign has a leader and
  -- a follower; and its events were paid for, to their publishers, at prices within the bounds.
  pub process_events_sound :
      (schedule : List ℕ) (c : Campaign) (events : List Event) (w w' : World limits redis)
      (paid : Paid)
      → process_events num limits redis x schedule c events w ≡ (some (ok paid), w')
      → IsAdmitted schedule c events w w' paid
  unfolding process_events
  process_events_sound schedule c events w w' paid h =
      let reply =
        check_access limits x.hex x.now schedule x.session x.auth x.allow x.creator x.ip_rate_limit
          c events w.keys in
      let (granted, went) = after_access_inv c events w.paying reply w' paid h in
      let (keys, (leader, follower, l, f, spent)) =
        spend_with_inv (campaign_leader c) (campaign_follower c) c events
          (record { keys = reply.1; paying = w.paying }) w' paid went in
      record {
        access = λ i. (granted i, sym keys i);
        validators = (leader, follower, l, f, spent);
        priced =
            spend_for_events-bounds redis num x.arithmetic x.texts x.decoder x.now x.session
              x.database c events leader follower w.paying w'.paying paid spent;
      }
