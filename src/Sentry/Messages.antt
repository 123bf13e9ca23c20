-- ===== src/Sentry/Messages.antt =====
-- The validator messages of a channel: sentry/src/db/validator_message.rs, and the routes of
-- sentry/src/routes/channel.rs that post, list and look them up.
mod Defs
pub mod Served
pub mod Listing
unfoldable pub use Defs.*
