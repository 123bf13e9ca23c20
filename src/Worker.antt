-- ===== src/Worker.antt =====
-- validator_worker/src: the worker that proposes, approves or rejects the state of a channel.
pub mod FollowerRules
pub mod Messages
pub mod Tick
pub mod Sentry
pub mod Client
pub mod Heartbeat
pub mod Follower
pub mod Leader
pub mod ChannelTick
pub mod Checks
