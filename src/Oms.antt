-- ===== src/Oms.antt =====
-- The decisions of the order manager (crates/te_core/src/oms/manager.rs).
pub mod Venue
pub mod Allocation
pub mod Replace
pub mod Bracket
