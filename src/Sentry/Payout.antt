-- ===== src/Sentry/Payout.antt =====
-- What an event pays: sentry/src/payout.rs, `Session` of sentry/src/application.rs, and `Event` of
-- primitives/src/sentry.rs.
pub mod Defs
pub mod Bounds
unfoldable pub use Defs.*
pub mod Shown
