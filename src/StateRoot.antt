-- ===== src/StateRoot.antt =====
-- The state root of the balances of a channel: adapter/src/util.rs (the leaves),
-- primitives/src/merkle_tree.rs (the tree) and `get_state_root_hash` of
-- validator_worker/src/lib.rs.
mod Defs
pub mod Leaves
unfoldable pub use Defs.*
