-- ===== src/BalancesMap.antt =====
-- primitives/src/balances_map.rs: `Map<K, V>` wraps the standard library's `BTreeMap`, here the
-- list of its entries in the order of the keys. A key such as an `Address` is the number that its
-- bytes spell in big-endian order, so that the order of keys is that of numbers.
mod Defs
pub mod Lookup
pub mod Total
unfoldable pub use Defs.*
