-- ===== src/Sentry/Events.antt =====
-- `insert_events` of sentry/src/routes/campaign.rs, and the fee of sentry/src/spender.rs: what the
-- events of a campaign cost, and how it is taken from the budget and written to the accounting.
mod Defs
pub mod Costs
pub mod Spending
unfoldable pub use Defs.*
