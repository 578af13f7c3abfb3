-- ===== src/Oms/Bracket.antt =====
-- The bracket that protects a filled entry (crates/te_core/src/oms/manager.rs). Messages are left
-- out.
pub mod Tightens
use trade_engine.Base.{
  ◌≡◌, Bool, true, false, not, ◌&&◌, ◌||◌, Option, none, some, List, [], ◌∷◌, any, String, Result,
  ok, err, ◌>>=◌, ◌>>◌, err_if, str_eq, if◌then◌else◌,
}
use trade_engine.Money.Decimal.{Money, zero_money}
use trade_engine.Money.Order.{Decimals, eq, lt, le, gt}
use trade_engine.Ledger.Errors.{LErr, R, add, sub}
use trade_engine.Ledger.Dict.{get, values}
use trade_engine.Ledger.Model.{
  OrderType, stop, OrderState, new, accepted, partially_filled, cancelled, filled, rejected, Order,
  Side, sell, side_eq, order_type_eq, state_eq,
}
use trade_engine.Ledger.State.{AccountState}
use trade_engine.Ledger.FillHandler.{get_or}
use trade_engine.Oms.Venue.{terminal}
use trade_engine.Oms.Replace.{is_equity, quantity_check}

unfoldable pub filled_of : AccountState → String → Money
filled_of st id = get_or zero_money (get id st.filled_quantity)

abbrev pub is_parent : String → Option String → Bool
is_parent entry none = false
is_parent entry (some p) = str_eq p entry

unfoldable pub children_of : String → List Order → List Order
children_of entry [] = []
children_of entry (o ∷ os) =
    let rest = children_of entry os in if is_parent entry o.parent_order_id then o ∷ rest else rest

-- The entry's children in folded-state order.
unfoldable pub exits : AccountState → String → List Order
unfolding children_of
exits st entry = children_of entry (values st.orders)

unfoldable pub sum_filled : AccountState → Money → List Order → R Money
unfolding filled_of
sum_filled st total [] = ok total
sum_filled st total (o ∷ os) = do t ← add total (filled_of st o.order_id); sum_filled st t os

unfoldable pub exited : AccountState → List Order → R Money
unfolding sum_filled
exited st children = sum_filled st zero_money children

unfoldable pub stop_of : List Order → Option Order
stop_of [] = none
stop_of (o ∷ os) = let rest = stop_of os in if order_type_eq o.order_type stop then some o else rest

pub data ChildPlan : Type 0 where
  keep submit local replace : ChildPlan

module _ ⦃d : Decimals⦄ where
  unfoldable pub open_of : AccountState → Order → List Order → Option Order → R (String × Money)
  open_of st entry children none = err LErr.order_management
  open_of st entry children (some s) = do
    out ← exited st children
    left ← sub (filled_of st entry.order_id) out
    err_if (le left zero_money) LErr.order_management
    err_if (not (state_eq s.state accepted || state_eq s.state partially_filled))
        LErr.order_management
    ok (s.order_id, left)

  -- The working protective stop and the open quantity.
  unfoldable pub open_stop : AccountState → Order → R (String × Money)
  unfolding open_of stop_of exits exited
  open_stop st entry =
      let children = exits st entry.order_id in
      let found = open_of st entry children (stop_of children) in
      elim entry.parent_order_id [ some p ↦ err LErr.order_management | none ↦ found ]

  -- Whether cancelling the protective stop `o` would leave open quantity unprotected.
  unfoldable pub cancel_protective : AccountState → Order → Order → R Bool
  unfolding exits exited filled_of terminal
  cancel_protective st entry o =
      let children = exits st entry.order_id in
      let checked = (do
        out ← exited st children
        ok (gt (filled_of st entry.order_id) out && not (terminal o.state))) in
      if any (λ c. order_type_eq c.order_type stop) children then checked else ok false

  unfoldable pub sized_plan : Order → Money → Money → R (ChildPlan × Option Money)
  unfolding is_equity quantity_check
  sized_plan o already q = do
    quantity_check (is_equity o.instrument) q
    total ← add already q
    let mode =
        if eq o.quantity total
        then (if state_eq o.state new then submit else keep)
        else if state_eq o.state new
        then local
        else replace
    ok (mode, some total)

  -- The action on a protective child, and its total quantity.
  unfoldable pub child_quantity : Order → Money → Money → R (ChildPlan × Option Money)
  unfolding sized_plan
  child_quantity o already q =
      let sized = sized_plan o already q in
      if state_eq o.state rejected
      then (if order_type_eq o.order_type stop then err LErr.order_management else ok (keep, none))
      else if state_eq o.state cancelled || state_eq o.state filled
      then err LErr.order_management
      else sized

  unfoldable pub move_from : Order → Option Money → Money → R Bool
  move_from o none price = err LErr.order_management
  move_from o (some current) price =
      let loosens = if side_eq o.side sell then lt price current else gt price current in
      if eq price current then ok false else if loosens then err LErr.order_management else ok true

  -- True when the stop moves; false when the price is unchanged.
  unfoldable pub move_stop : Order → Money → R Bool
  unfolding move_from
  move_stop o price = move_from o o.stop_price price
