-- ===== src/Worker/ChannelTick.antt =====
-- validator_worker/src/channel.rs: the checks before a channel's tick, and the choice of its role.
use adex_validator_stack_rus.Prelude.{
  take, ℕ, Bool, not, Option, none, some, List, [], ◌++◌, leb, if◌then◌else◌, all, err, ok_or,
}
use adex_validator_stack_rus.BalancesMap.{Address, UnifiedMap, get_or_zero}
use adex_validator_stack_rus.Balances.{Balances}
use adex_validator_stack_rus.Channel.{ValidatorId, Validator, find_validator}
use adex_validator_stack_rus.Worker.Tick.{Action, lift, pure, ◌>>=◌, relabel}
use adex_validator_stack_rus.Worker.Sentry.{SentryApi}
use adex_validator_stack_rus.Worker.Leader
use adex_validator_stack_rus.Worker.Follower.Tick as FollowerTick
use adex_validator_stack_rus.Worker.Follower
use adex_validator_stack_rus.Worker.Follower.{Spender}

-- `error::TickError`
pub data TickError (F : Type 0) : Type 0 where
  timed_out : TickError F
  tick : F → TickError F

-- `error::Error`
pub data Error : Type 0 where
  channel_not_intended_for_us sentry_api validation : Error
  leader_tick : TickError Leader.Error → Error
  follower_tick : TickError Follower.Error → Error

pub data TickStatus : Type 0 where
  leader : Leader.TickStatus → TickStatus
  follower : FollowerTick.TickStatus → TickStatus

-- `spender.total_deposited >= accounting.balances.spenders[spender.address]`
unfoldable pub deposits_cover : UnifiedMap → List (Address × Spender) → Bool
deposits_cover spent all_spenders =
    all (λ e. leb (get_or_zero e.0 spent) e.1.total_deposited) all_spenders

-- `timeout(..)`: `none` where the tick ends in time, `some n` where it is cut off after it has
-- handed over `n` of its messages.
unfoldable pub with_timeout :
    {E F A : Type 0} → (TickError F → E) → Option ℕ → Action F A → Action E A
with_timeout f none m sent = relabel (λ e. f (tick e)) m sent
with_timeout f (some n) m sent = (err (f timed_out), sent ++ take n (m []).1)

-- `get_all_spenders` and `get_accounting` are what Sentry answers; an accounting that is not
-- checked does not deserialize, which is a failed call.
unfoldable pub channel_tick :
    SentryApi
    → ValidatorId
    → Option (List (Address × Spender))
    → Option Balances
    → Option ℕ
    → Action Error TickStatus
unfolding deposits_cover with_timeout
channel_tick api whoami all_spenders_answer accounting_answer cut = do
  role ← lift (ok_or channel_not_intended_for_us (find_validator api.channel whoami))
  all_spenders ← lift (ok_or sentry_api all_spenders_answer)
  accounting ← lift (ok_or sentry_api accounting_answer)
  if not (deposits_cover accounting.spenders all_spenders)
      then lift (err validation)
      else elim role [
        | Validator.leader _ ↦ (do
          status ← with_timeout leader_tick cut (Leader.tick api accounting)
          pure (leader status))
        | Validator.follower _ ↦ (do
          status ← with_timeout follower_tick cut (FollowerTick.tick api all_spenders accounting)
          pure (follower status))
      ]
