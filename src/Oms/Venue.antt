-- ===== src/Oms/Venue.antt =====
-- What the manager does with a venue's answers (crates/te_core/src/oms/manager.rs). Reasons and
-- messages are left out, so an acknowledgement is its event or action and the kind of its refusal.
pub mod Moves
use trade_engine.Base.{
  Bool, true, false, not, ◌&&◌, ◌||◌, Option, none, some, String, Result, ok, err, err_if, str_eq,
  if◌then◌else◌,
}
use trade_engine.Money.Decimal.{Money}
use trade_engine.Money.Order.{Decimals, lt, gt}
use trade_engine.Ledger.Errors.{LErr, R}
use trade_engine.Ledger.Model.{
  EventKind, order_pending, order_accepted, order_rejected, order_cancelled, order_expired,
  OrderState, new, submitted, accepted, partially_filled, filled, cancelled, expired, rejected,
  pending_unknown, state_eq,
}

-- `OrderState` in FILLED, CANCELLED, REJECTED or EXPIRED.
unfoldable pub terminal : OrderState → Bool
terminal filled = true
terminal cancelled = true
terminal rejected = true
terminal expired = true
terminal s = false

pub data CancelMode : Type 0 where
  return local venue : CancelMode

unfoldable pub cancel_mode : OrderState → Bool → R CancelMode
unfolding terminal
cancel_mode state oco =
    if terminal state
    then ok return
    else if state_eq state pending_unknown
    then (if oco then err LErr.oco_unknown else ok return)
    else if state_eq state new
    then ok local
    else ok venue

-- The event a submit acknowledgement records.
unfoldable pub submit_ack : String → R EventKind
submit_ack status =
    if str_eq status "ACCEPTED"
    then ok order_accepted
    else if str_eq status "REJECTED"
    then ok order_rejected
    else if str_eq status "PENDING"
    then ok order_pending
    else err LErr.order_management

pub data Ack : Type 0 where
  taken refused unresolved : Ack

-- `AckPlan`: the action, and the refusal raised after its events are recorded.
pub record AckPlan : Type 0 where
  pub action : Ack
  pub refusal : Option LErr

-- A status that is neither ACCEPTED nor REJECTED leaves the order pending.
unfoldable pub replace_ack : String → AckPlan
replace_ack status =
    if str_eq status "ACCEPTED"
    then record { action = taken; refusal = none }
    else if str_eq status "REJECTED"
    then record { action = refused; refusal = some LErr.order_management }
    else record { action = unresolved; refusal = none }

unfoldable pub cancel_ack : String → Bool → R AckPlan
cancel_ack status oco =
    if str_eq status "ACCEPTED"
    then ok (record { action = taken; refusal = none })
    else if str_eq status "REJECTED"
    then ok (record {
      action = refused;
      refusal = some (if oco then LErr.oco_unknown else LErr.pending_reconciliation);
    })
    else if str_eq status "PENDING"
    then ok (record { action = unresolved; refusal = if oco then some LErr.oco_unknown else none })
    else err LErr.order_management

unfoldable pub reconcile_replace : OrderState → Bool → R (Unit {0})
reconcile_replace found is_unresolved =
    err_if (is_unresolved && not (terminal found)) LErr.order_reconciliation

pub data Resolution : Type 0 where
  unchanged updated : Resolution
  recorded : EventKind → Resolution

unfoldable pub reconcile_result : OrderState → OrderState → R Resolution
reconcile_result filled state =
    if state_eq state filled then ok unchanged else err LErr.order_reconciliation
reconcile_result partially_filled state = ok unchanged
reconcile_result submitted state = ok updated
reconcile_result accepted state = ok (recorded order_accepted)
reconcile_result cancelled state = ok (recorded order_cancelled)
reconcile_result rejected state = ok (recorded order_rejected)
reconcile_result expired state = ok (recorded order_expired)
reconcile_result new state = err LErr.order_reconciliation
reconcile_result pending_unknown state = err LErr.order_reconciliation

unfoldable pub oco_check : OrderState → R (Unit {0})
oco_check state = err_if (not (terminal state)) LErr.oco_unknown

module _ ⦃d : Decimals⦄ where
  -- The venue reports more filled than the ledger records.
  unfoldable pub reconcile_fills : Money → Money → Bool
  reconcile_fills found known = gt found known

  unfoldable pub ingest_check : Money → Money → R (Unit {0})
  ingest_check found known = err_if (lt known found) LErr.order_reconciliation
