-- ===== src/Sentry/Access.antt =====
-- Who may submit events: sentry/src/access.rs and primitives/src/event_submission.rs.
pub mod Defs
pub mod Limits
pub mod Recorded
pub mod Passed
unfoldable pub use Defs.*
