-- ===== src/Worker/Follower.antt =====
-- validator_worker/src/follower.rs: one tick of the follower of a channel.
mod Defs
pub mod Tick
pub mod Approval
pub mod Rejection
pub mod Answered
unfoldable pub use Defs.*
