-- ===== src/UnifiedNum.antt =====
-- primitives/src/unified_num.rs and primitives/src/big_num.rs: amounts with eight decimals in a
-- `u64`, and the conversion to and from the precision of a token. A `UnifiedNum(u64)` is its inner
-- number, a `BigNum` (an unbounded `BigUint`) a number; `Ratio<u64>` is a parameter (`Ratio`).
mod Defs
pub mod Sum
pub mod Precision
pub mod Ratio
unfoldable pub use Defs.*
