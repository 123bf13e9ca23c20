-- ===== src/Worker/FollowerRules.antt =====
-- validator_worker/src/core/follower_rules.rs: when a follower accepts a proposed state.
mod Defs
pub mod Monotone
pub mod Transition
pub mod Health
unfoldable pub use Defs.*
