-- ===== src/Ledger.antt =====
-- crates/te_core/src/ledger: the event model, the maps of the folded state, and the fold.
pub mod Errors
pub mod Dict
pub mod OMap
pub mod Model
pub mod Keys
pub mod OrderFsm
pub mod Lots
pub mod Trade
pub mod State
pub mod FillHandler
pub mod OrderHandlers
pub mod Mirror
pub mod Lifecycle
pub mod Fold
