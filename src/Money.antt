-- ===== src/Money.antt =====
-- crates/te_core/src/money.rs: decimals in canonical form with checked arithmetic.
pub mod Digits
pub mod Rounding
pub mod Decimal
pub mod Arithmetic
pub mod Integral
pub mod Order
pub mod Canonical
pub mod FastPath
pub mod Closed
pub mod Sums
pub mod Ranking
pub mod PyRules
pub mod Literal
pub mod Representable
pub mod Spelling
