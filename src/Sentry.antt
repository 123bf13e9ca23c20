-- ===== src/Sentry.antt =====
-- sentry/src: the REST server that takes events, spends the budgets of campaigns for them, and
-- keeps the accounting of each channel.
pub mod Redis
pub mod CampaignRemaining
pub mod Accounting
pub mod Payout
pub mod Slot
pub mod Analytics
pub mod Events
pub mod Routes
pub mod Messages
pub mod Channels
pub mod Access
pub mod Submission
pub mod Concurrent
