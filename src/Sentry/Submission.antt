-- ===== src/Sentry/Submission.antt =====
-- The route that takes events: process_events of sentry/src/routes/campaign.rs.
pub mod Defs
pub mod Admitted
unfoldable pub use Defs.*
