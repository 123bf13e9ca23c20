-- ===== src/Lib.antt =====
-- The validator stack of AdEx: an off-chain payment channel in which a leader and a follower
-- keep the balances of spenders and earners, and the server that spends the budgets of campaigns
-- for the events of their ads.
--
-- The parts, and the files that model them (paths are from the root of the repository):
--   * primitives/src/unified_num.rs, balances_map.rs and balances.rs: UnifiedNum, BalancesMap and
--     Balances. An amount is a number of 64 bits at eight decimals, kept as a natural number with
--     the checks of the code; `Ratio<u64>` of the `num` crate is the parameter `RatioOps`.
--   * primitives/src/channel.rs and validator.rs: Channel, and Worker/Messages.
--   * primitives/src/campaign.rs, campaign_validator.rs, and ModifyCampaign of sentry.rs: Campaign.
--     Ad units, rules and the rules of submission stand in it as text, and are decoded by
--     parameters where an event is priced or admitted.
--   * primitives/src/merkle_tree.rs, adapter/src/util.rs and validator_worker/src/lib.rs:
--     StateRoot. A hash is a number; Keccak, ABI encoding and the `merkletree` crate are the
--     parameter `Hashing`.
--   * validator_worker/src/core/follower_rules.rs: Worker/FollowerRules. The plain subtraction
--     depends on the build: debug panics, release wraps around.
--   * validator_worker/src/follower.rs, leader.rs, heartbeat.rs and channel.rs: Worker/Follower,
--     Worker/Leader, Worker/Heartbeat and Worker/ChannelTick. A tick is an action on the log of the
--     messages propagated; what it reads from Sentry, the adapter, the configuration and the clock
--     is the record `SentryApi`. A timeout cuts the log at any point.
--   * validator_worker/src/sentry_interface.rs: Worker/Client, the validators collected from the
--     campaigns, the propagation of messages, and the pages of spenders (Spenders) and of channels
--     (Channels), which Pages joins; URLs, tokens, and sending and requesting are parameters.
--   * sentry/src/db/campaign.rs: Sentry/CampaignRemaining, over Sentry/Redis, which states the
--     documented behaviour of the commands of Redis.
--   * sentry/src/db/accounting.rs: Sentry/Accounting, the rows of one channel.
--   * sentry/src/routes/campaign.rs and spender.rs: Sentry/Events (spend_for_events) and
--     Sentry/Routes (creating, modifying and closing a campaign), actions on Redis and on the
--     tables of Postgres. A query fails as a parameter says; what was changed before an error
--     stays changed. There the payout of an event (`get_payout`) is an argument.
--   * primitives/src/targeting/eval.rs, input.rs and field.rs, and targeting.rs: Targeting. Values
--     are the values of the rules, Rules the rules and functions, Eval their evaluation, Input and
--     Fields what they read, Multiple several rules in a row. The numbers of JSON (`Numbers`), the
--     product and the conversion of floating point (`Arithmetic`) and the texts of addresses
--     (`Texts`) are parameters.
--   * sentry/src/payout.rs: Sentry/Payout. `Decoder` reads the rules and ad units of a campaign.
--   * sentry/src/access.rs and primitives/src/event_submission.rs: Sentry/Access. Each rule is a
--     task that sends two commands to Redis; `try_join_all` is any order of those commands, given
--     as a list of positions; a schedule that ends before a rule does gives no answer.
--     `LimitStore` states what the commands of Redis do to the keys of the limits.
--   * process_events of sentry/src/routes/campaign.rs: Sentry/Submission, the access check, then
--     the payment with the payout that the rules give.
--   * spend_for_events under concurrent requests: Sentry/Concurrent. Each request is a state
--     machine of three steps (the check of the budget, taking it, writing the accounting), and a
--     schedule is a list of positions.
--   * sentry/src/routes/channel.rs: Sentry/Channels, the accounting that the worker reads, payouts
--     to earners, leaves, the limits of spenders (Spenders, Pages), and the listing of channels
--     (Listing), whose rows are in the order of their date, which sentry/src/db/channel.rs renews.
--   * sentry/src/db/validator_message.rs, and the routes on validator messages of
--     sentry/src/routes/channel.rs: Sentry/Messages. A table is a list of rows, the newest first.
--   * sentry/src/routes/units_for_slot.rs: Sentry/Slot. `SlotDecoder` reads the rules and ad units;
--     the platform's answer, the parsed headers and the clock are arguments.
--   * sentry/src/analytics.rs, sentry/src/db/analytics.rs, sentry/src/routes/analytics.rs and
--     primitives/src/analytics.rs: Sentry/Analytics. Which updates reach the database, what the
--     query comes to and `date_trunc` are arguments; the retries are a list, one entry for each
--     attempt.
--
-- The server spends for events into the accounting; the leader proposes that accounting as a state;
-- the follower compares the proposal with its own accounting and with the state approved last, and
-- approves or rejects it, and the server answers what was approved last. Every loop is over a list,
-- a number of pages, a rule or a schedule; none runs on fuel. Prelude holds what the modules share,
-- and Tests runs the theorems at concrete data.
--
-- Not modelled: reading rules from JSON, the HTTP layers with their authentication, the adapters
-- for Ethereum and the ad view manager, which are input and output.
pub mod Prelude
pub mod UnifiedNum
pub mod BalancesMap
pub mod Balances
pub mod Channel
pub mod Campaign
pub mod StateRoot
pub mod Targeting
pub mod Sentry
pub mod Worker
pub mod Tests
