-- ===== src/Sentry/Analytics.antt =====
-- Analytics: sentry/src/analytics.rs, sentry/src/db/analytics.rs, sentry/src/routes/analytics.rs and
-- primitives/src/analytics.rs.
mod Defs
pub mod Recorded
pub mod Query
pub mod Own
unfoldable pub use Defs.*
