-- ===== src/Tests.antt =====
-- Runs of the modelled code at concrete inputs, and the theorems applied to them.
pub mod Money
pub mod Ledger
pub mod Oms
pub mod Mirror
pub mod Maps
pub mod Sim
pub mod Agree
pub mod Allocation
pub mod Literals
pub mod Calendar
pub mod Follow
pub mod Lifecycle
pub mod Trades
