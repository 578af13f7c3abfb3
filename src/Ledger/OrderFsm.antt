-- ===== src/Ledger/OrderFsm.antt =====
-- The order state machine (crates/te_core/src/ledger/fold.rs).
pub mod States
use trade_engine.Base.{
  Bool, true, false, ◌||◌, Result, ok, err, ◌>>=◌, ◌>>◌, err_if, not, if◌then◌else◌,
}
use trade_engine.Ledger.Errors.{LErr, R}
use trade_engine.Ledger.Model.{
  OrderState, new, submitted, accepted, partially_filled, filled, cancelled, expired, rejected,
  pending_unknown, Order, state_eq,
}

unfoldable pub allowed : OrderState → OrderState → Bool
allowed new submitted = true
allowed new cancelled = true
allowed new rejected = true
allowed submitted accepted = true
allowed submitted partially_filled = true
allowed submitted filled = true
allowed submitted rejected = true
allowed submitted cancelled = true
allowed submitted pending_unknown = true
allowed accepted partially_filled = true
allowed accepted filled = true
allowed accepted cancelled = true
allowed accepted expired = true
allowed accepted rejected = true
allowed accepted pending_unknown = true
allowed partially_filled partially_filled = true
allowed partially_filled filled = true
allowed partially_filled cancelled = true
allowed partially_filled expired = true
allowed partially_filled pending_unknown = true
allowed pending_unknown submitted = true
allowed pending_unknown accepted = true
allowed pending_unknown partially_filled = true
allowed pending_unknown filled = true
allowed pending_unknown cancelled = true
allowed pending_unknown expired = true
allowed pending_unknown rejected = true
allowed _ _ = false

unfoldable pub validate_transition : OrderState → OrderState → R (Unit {0})
unfolding allowed state_eq
validate_transition from to =
    if state_eq from to || allowed from to then ok tt else err LErr.illegal_transition

unfoldable pub transition_to : Order → OrderState → R Order
unfolding validate_transition
transition_to o to = do validate_transition o.state to; ok (record o { state = to })
