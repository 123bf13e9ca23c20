-- ===== src/Campaign.antt =====
-- primitives/src/campaign.rs and primitives/src/campaign_validator.rs: a campaign, its validators,
-- and the checks of a new campaign.
mod Defs
mod Validation
pub mod Whitelist
pub mod Lookup
pub mod Validate
pub mod Modify
unfoldable pub use Defs.*
unfoldable pub use Validation.*
