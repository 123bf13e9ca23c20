-- ===== src/Worker/Leader.antt =====
-- validator_worker/src/leader.rs: one tick of the leader of a channel.
mod Defs
pub mod Proposal
unfoldable pub use Defs.*
