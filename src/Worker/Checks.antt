-- ===== src/Worker/Checks.antt =====
-- The checks before a channel's tick.
use adex_validator_stack_rus.Prelude.{
  ℕ, ◌≤◌, ◌≡◌, refl, inl, inr, true, Option, some, List, [], ◌∷◌, arith, Bool-cases, Option-cases,
  All, ok, err, map, total, none, ◌⊎◌, ◌==◌, Result-cases,
}
use adex_validator_stack_rus.Balances.{Balances}
use adex_validator_stack_rus.BalancesMap.{Address, UnifiedMap, get_or_zero}
use adex_validator_stack_rus.Channel.{Channel, ValidatorId, Validator, find_validator}
use adex_validator_stack_rus.Worker.Messages.{MessageTypes}
use adex_validator_stack_rus.Worker.Sentry.{SentryApi}
use adex_validator_stack_rus.Worker.Follower.{Spender}
use adex_validator_stack_rus.Worker.Tick.{Action}
use adex_validator_stack_rus.Worker.Leader
use adex_validator_stack_rus.Worker.Follower.Tick as FollowerTick
use adex_validator_stack_rus.Worker.ChannelTick.{
  validation, TickStatus, TickError, leader_tick, follower_tick, leader, follower, with_timeout,
  deposits_cover, channel_tick,
}

-- No spender has spent more than it deposited.
abbrev pub Covers : UnifiedMap → List (Address × Spender) → Type 0
Covers spent = All (λ e. get_or_zero e.0 spent ≤ e.1.total_deposited)

deposits_cover-Covers :
    (spent : UnifiedMap) (spenders : List (Address × Spender))
    → (deposits_cover spent spenders ≡ true → Covers spent spenders)
      × (Covers spent spenders → deposits_cover spent spenders ≡ true)
unfolding deposits_cover
deposits_cover-Covers spent [] = (λ h. tt, λ h. refl)
deposits_cover-Covers spent (e ∷ es) =
    let (there, back) = deposits_cover-Covers spent es in
    (λ h. (ground arith, there (ground arith)), λ h. ground (arith, h.0, back h.1))

covered_total :
    (spent : UnifiedMap) (spenders : List (Address × Spender))
    → Covers spent spenders
    → total (map (λ e. get_or_zero e.0 spent) spenders)
      ≤ total (map (λ e. e.1.total_deposited) spenders)
covered_total spent [] h = omega arith
covered_total spent (e ∷ es) h = omega (arith, h.0, covered_total spent es h.1)

-- What a tick that ended without being cut off has done.
in_time :
    {E F A : Type 0} (f : TickError F → E) (cut : Option ℕ) (m : Action F A)
    (before after : List MessageTypes) (a : A)
    → with_timeout f cut m before ≡ (ok a, after)
    → m before ≡ (ok a, after)
unfolding with_timeout
in_time f none m before after a h = elim (Result-cases (m before).0) [
  | inl (b, e) ↦ ground arith
  | inr bad ↦ absurd (ground (arith, bad))
]
in_time f (some n) m before after a h = absurd (ground arith)

role_of :
    (c : Channel) (v : ValidatorId) (role : Validator ValidatorId)
    → find_validator c v ≡ some role
    → ((v ≡ c.leader) × (role ≡ Validator.leader c.leader))
      ⊎ ((v ≡ c.follower) × (role ≡ Validator.follower c.follower))
unfolding find_validator
role_of c v role h = elim (Bool-cases (c.leader == v)) [
  | inl first ↦ inl (ground arith, ground arith)
  | inr other ↦ inr (ground arith, ground arith)
]

-- The validator is the leader and has done the leader's tick, or is the follower and has done the
-- follower's tick.
abbrev pub IsTickOf :
    SentryApi
    → ValidatorId
    → List (Address × Spender)
    → Balances
    → TickStatus
    → List MessageTypes
    → List MessageTypes
    → Type 0
IsTickOf api whoami spenders accounting status before after =
    ((whoami ≡ api.channel.leader)
      × (st : Leader.TickStatus) × (status ≡ leader st)
      × (Leader.tick api accounting before ≡ (ok st, after)))
    ⊎ ((whoami ≡ api.channel.follower)
        × (st : FollowerTick.TickStatus) × (status ≡ follower st)
        × (FollowerTick.tick api spenders accounting before ≡ (ok st, after)))

-- A tick of a channel succeeds only for the leader, having done the leader's tick to its end, or for
-- the follower, having done the follower's; and only if no spender of the channel has spent, in the
-- accounting, more than it deposited, so that they have not together either.
pub channel_tick_checks :
    (api : SentryApi) (whoami : ValidatorId) (spenders : List (Address × Spender))
    (accounting : Balances) (cut : Option ℕ) (before after : List MessageTypes)
    (status : TickStatus)
    → channel_tick api whoami (some spenders) (some accounting) cut before ≡ (ok status, after)
    → IsTickOf api whoami spenders accounting status before after
      × Covers accounting.spenders spenders
      × (total (map (λ e. get_or_zero e.0 accounting.spenders) spenders)
          ≤ total (map (λ e. e.1.total_deposited) spenders))
unfolding channel_tick
channel_tick_checks api whoami spenders accounting cut before after status h =
    elim (Option-cases (find_validator api.channel whoami)) [
      | inl e ↦ absurd (ground arith)
      | inr (role, e) ↦ elim (Bool-cases (deposits_cover accounting.spenders spenders)) [
        | inr short ↦ absurd (ground arith)
        | inl cover ↦
            let covers = (deposits_cover-Covers accounting.spenders spenders).0 cover in
            (
              elim (role_of api.channel whoami role e) [
                | inl (us, led) ↦
                    let run = with_timeout leader_tick cut (Leader.tick api accounting) in
                    elim (Result-cases (run before).0) [
                      | inr bad ↦ absurd (ground (arith, bad))
                      | inl (st, r) ↦ inl (
                        us,
                        st,
                        ground arith,
                        in_time leader_tick cut (Leader.tick api accounting) before after st
                            (ground arith),
                      )
                    ]
                | inr (us, followed) ↦
                    let run =
                      with_timeout follower_tick cut (FollowerTick.tick api spenders accounting) in
                    elim (Result-cases (run before).0) [
                      | inr bad ↦ absurd (ground (arith, bad))
                      | inl (st, r) ↦ inr (
                        us,
                        st,
                        ground arith,
                        in_time follower_tick cut (FollowerTick.tick api spenders accounting) before
                            after st (ground arith),
                      )
                    ]
              ],
              covers,
              covered_total accounting.spenders spenders covers,
            )
      ]
    ]

-- Where a spender has spent more than it deposited, the tick of a validator fails before anything
-- is sent.
pub channel_tick_refuses :
    (api : SentryApi) (whoami : ValidatorId) (role : Validator ValidatorId)
    (spenders : List (Address × Spender)) (accounting : Balances) (cut : Option ℕ)
    (before : List MessageTypes)
    → find_validator api.channel whoami ≡ some role
    → ¬ Covers accounting.spenders spenders
    → channel_tick api whoami (some spenders) (some accounting) cut before
      ≡ (err validation, before)
unfolding channel_tick
channel_tick_refuses api whoami role spenders accounting cut before e short =
    let back = (deposits_cover-Covers accounting.spenders spenders).0 in
    elim (Bool-cases (deposits_cover accounting.spenders spenders)) [
      | inl cover ↦ absurd (short (back cover))
      | inr over ↦ ground arith
    ]
