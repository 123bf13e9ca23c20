-- ===== src/Worker/Client.antt =====
-- validator_worker/src/sentry_interface.rs: the client of Sentry that the worker uses.
mod Defs
pub mod Pages
pub mod Paging
pub mod Propagation
pub mod Spenders
pub mod Channels
unfoldable pub use Defs.*
