-- ===== src/Sentry/Routes.antt =====
-- sentry/src/routes/campaign.rs: creating, modifying and closing a campaign.
pub mod Tables
pub mod Pages
pub mod Paging
pub mod Budget
pub mod Create
pub mod Close
pub mod Created
pub mod Modified
pub mod Covered
pub mod Difference
pub mod Rebudgeted
