-- ===== src/Sentry/CampaignRemaining/Defs.antt =====
-- The operations. A key `campaignRemaining:<id>` is the id of its campaign.
use adex_validator_stack_rus.Prelude.{
  ℕ, Bool, Option, none, some, List, [], ◌∷◌, map, ℤ, clamp, ok, err, ok_or,
}
use adex_validator_stack_rus.Prelude.Actions.{Action}
use adex_validator_stack_rus.UnifiedNum.{UnifiedNum}
use adex_validator_stack_rus.Sentry.Redis.{Redis}

-- `RedisError`
pub data RedisError : Type 0 where
  redis_error : RedisError

-- `CampaignId`
abbrev pub CampaignId : Type 0
CampaignId = ℕ

-- The pairs of two lists, as `zip` makes them.
abbrev pub zip {ℓ κ} : {A : Type ℓ} {B : Type κ} → List A → List B → List (A × B)
zip [] ys = []
zip (x ∷ xs) [] = []
zip (x ∷ xs) (y ∷ ys) = (x, y) ∷ zip xs ys

-- A value that was not found counts as 0, a negative one too.
abbrev pub clamp_opt : Option ℤ → UnifiedNum
clamp_opt none = 0
clamp_opt (some remaining) = clamp remaining

module _ (redis : Redis) where
  unfoldable pub set_initial : CampaignId → UnifiedNum → Action redis.Store RedisError Bool
  set_initial campaign amount s = elim (redis.setnx campaign amount s) [
    | none ↦ (err redis_error, s)
    | some (was_set, s') ↦ (ok was_set, s')
  ]

  unfoldable pub get_remaining_opt : CampaignId → Action redis.Store RedisError (Option ℤ)
  get_remaining_opt campaign s = (ok_or redis_error (redis.get campaign s), s)

  -- `MGET` is not called on no key.
  unfoldable pub get_multiple : List CampaignId → Action redis.Store RedisError (List UnifiedNum)
  get_multiple [] s = (ok [], s)
  get_multiple (c ∷ cs) s = elim (redis.mget (c ∷ cs) s) [
    | none ↦ (err redis_error, s)
    | some replies ↦ (ok (map clamp_opt replies), s)
  ]

  unfoldable pub get_multiple_with_ids :
      List CampaignId → Action redis.Store RedisError (List (CampaignId × UnifiedNum))
  get_multiple_with_ids [] s = (ok [], s)
  get_multiple_with_ids (c ∷ cs) s = elim (redis.mget (c ∷ cs) s) [
    | none ↦ (err redis_error, s)
    | some replies ↦ (ok (zip (c ∷ cs) (map clamp_opt replies)), s)
  ]

  unfoldable pub increase_by : CampaignId → UnifiedNum → Action redis.Store RedisError ℤ
  increase_by campaign amount s = elim (redis.incrby campaign amount s) [
    | none ↦ (err redis_error, s)
    | some (remaining, s') ↦ (ok remaining, s')
  ]

  unfoldable pub decrease_by : CampaignId → UnifiedNum → Action redis.Store RedisError ℤ
  decrease_by campaign amount s = elim (redis.decrby campaign amount s) [
    | none ↦ (err redis_error, s)
    | some (remaining, s') ↦ (ok remaining, s')
  ]

  -- The reply is converted after the command has run.
  unfoldable pub getset_remaining_to_zero : CampaignId → Action redis.Store RedisError ℕ
  getset_remaining_to_zero campaign s = elim (redis.getset campaign 0 s) [
    | none ↦ (err redis_error, s)
    | some (old, s') ↦ (ok_or redis_error (redis.parse_u64 old), s')
  ]
