-- ===== src/Channel.antt =====
-- primitives/src/channel.rs, and `Validator` of primitives/src/validator.rs.
use adex_validator_stack_rus.Prelude.{ℕ, Option, none, some, ◌==◌, if◌then◌else◌}
use adex_validator_stack_rus.BalancesMap.{Address}

-- `ValidatorId` wraps an `Address`.
abbrev pub ValidatorId : Type 0
ValidatorId = Address

-- `struct Channel`; the nonce is an unsigned number of 256 bits.
pub record Channel : Type 0 where
  pub leader : ValidatorId
  pub follower : ValidatorId
  pub guardian : Address
  pub token : Address
  pub nonce : ℕ

-- `enum Validator<T>`
pub data Validator {ℓ} (T : Type ℓ) : Type ℓ where
  leader follower : T → Validator T

-- `Validator::into_inner`
unfoldable pub into_inner {ℓ} : {T : Type ℓ} → Validator T → T
into_inner (leader v) = v
into_inner (follower v) = v

-- `Channel::find_validator`: who we are in the channel, the leader first.
unfoldable pub find_validator : Channel → ValidatorId → Option (Validator ValidatorId)
find_validator c v =
    if c.leader == v
    then some (leader c.leader)
    else if c.follower == v
    then some (follower c.follower)
    else none
