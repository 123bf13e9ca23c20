-- ===== src/Sentry/Slot.antt =====
-- sentry/src/routes/units_for_slot.rs: the campaigns and ad units for an ad slot.
mod Defs
pub mod Offered
pub mod Listed
pub mod Campaigns
pub mod Answered
unfoldable pub use Defs.*
