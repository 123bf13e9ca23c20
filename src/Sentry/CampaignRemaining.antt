-- ===== src/Sentry/CampaignRemaining.antt =====
-- `CampaignRemaining` of sentry/src/db/campaign.rs: the budget that a campaign has left, in Redis.
mod Defs
pub mod Effects
unfoldable pub use Defs.*
