-- ===== src/Oms/Replace.antt =====
-- Replacing a working order (crates/te_core/src/oms/manager.rs). Messages are left out.
pub mod Accepted
use trade_engine.Base.{
  Bool, true, false, not, ◌&&◌, ◌||◌, Option, none, some, Result, ok, err, ◌>>=◌, ◌>>◌, err_if,
  map_err, if◌then◌else◌,
}
use trade_engine.Money.Decimal.{Money, zero_money}
use trade_engine.Money.Integral.{is_integral}
use trade_engine.Money.Order.{Decimals, lt, le}
use trade_engine.Ledger.Errors.{LErr, R, derr}
use trade_engine.Ledger.Model.{
  OrderType, stop, stop_limit, Instrument, equity, Order, OrderState, new, pending_unknown,
  state_eq, same_order,
}
use trade_engine.Oms.Venue.{terminal}

unfoldable pub is_equity : Instrument → Bool
is_equity (equity s) = true
is_equity i = false

-- An equity quantity is whole shares.
unfoldable pub quantity_check : Bool → Money → R (Unit {0})
quantity_check whole q = err_if (whole && not (is_integral q)) LErr.value

unfoldable pub replace_state : Order → R (Unit {0})
unfolding terminal
replace_state o = do
  err_if (state_eq o.state new || terminal o.state) LErr.order_management
  err_if (state_eq o.state pending_unknown) LErr.pending_reconciliation

unfoldable pub with_limit : Option Money → Order → Order
with_limit none o = o
with_limit (some p) o = record o { limit_price = some p }

unfoldable pub with_stop : Option Money → Order → Order
with_stop none o = o
with_stop (some p) o = record o { stop_price = some p }

unfoldable pub with_quantity : Option Money → Order → Order
with_quantity none o = o
with_quantity (some q) o = record o { quantity = q }

-- A NEW emulated stop that has not triggered is replaced locally, never at the venue.
unfoldable pub local_replace : Order → Bool → Bool → Bool
local_replace o is_emulated triggered =
    state_eq o.state new && is_stop o.order_type && is_emulated && not triggered
  where
    is_stop : OrderType → Bool
    is_stop stop = true
    is_stop stop_limit = true
    is_stop t = false

module _ ⦃d : Decimals⦄ where
  unfoldable pub replace_quantity : Option Money → Money → Bool → R (Unit {0})
  unfolding quantity_check
  replace_quantity none already whole = ok tt
  replace_quantity (some q) already whole = do
    err_if (lt q already || le q zero_money) LErr.value
    quantity_check whole q

  -- The order with the changes applied, and whether nothing changed.
  unfoldable pub replace_terms : Order → Option Money → Option Money → Option Money → Order × Bool
  unfolding with_quantity with_limit with_stop
  replace_terms o q limit stop_at =
      let changed = with_stop stop_at (with_limit limit (with_quantity q o)) in
      (changed, same_order changed o)

  -- A stored order may only be resubmitted unchanged; a child may shrink.
  unfoldable pub stored : Order → Order → R (Unit {0})
  stored created candidate =
      let fresh = record candidate { state = new } in
      let shrunk = record fresh { quantity = created.quantity } in
      err_if
        (not (elim created.parent_order_id [
          | none ↦ same_order fresh created
          | some parent ↦ same_order shrunk created && le fresh.quantity created.quantity
        ]))
        LErr.idempotency
