-- ===== src/Sentry/Channels.antt =====
-- sentry/src/routes/channel.rs: the accounting of a channel, payouts to earners, leaves, and the
-- limits of spenders.
mod Defs
pub mod Payout
pub mod Accountings
pub mod Pages
pub mod Spenders
pub mod SpenderLimits
pub mod Listing
pub mod Skipped
unfoldable pub use Defs.*
