-- ===== src/Sentry/Accounting.antt =====
-- sentry/src/db/accounting.rs: the rows of a channel that say who earned and who spent how much.
mod Defs
pub mod Rows
unfoldable pub use Defs.*
