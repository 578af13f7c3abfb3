-- ===== src/Sim.antt =====
-- The simulated venue's path rules (crates/te_core/src/sim).
pub mod Trailing
