-- ===== src/Balances.antt =====
-- primitives/src/balances.rs: what each spender spent and each earner earned in a channel. The
-- marker type that tells checked balances from unchecked ones is a phantom, so both are one record
-- and `IsChecked` is the property that the checked state stands for.
mod Defs
pub mod Spend
pub mod Check
unfoldable pub use Defs.*
