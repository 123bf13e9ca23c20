-- ===== src/Sentry/Concurrent.antt =====
-- Requests that pay for events of one campaign at the same time: the three steps of the payment in
-- sentry/src/routes/campaign.rs (the check of the budget, its decrease, and the accounting), taken
-- in any order that keeps the steps of each request in theirs.
pub mod Defs
pub mod Effects
pub mod Budget
