-- ===== src/Ledger/OrderHandlers.antt =====
-- The handlers of order events (crates/te_core/src/ledger/fold.rs) and `build_emulated`
-- (crates/te_core/src/ledger/model.rs).
use trade_engine.Base.{
  Bool, true, false, not, ◌&&◌, ◌||◌, Option, none, some, List, [], ◌∷◌, String, ok, err, ◌>>=◌,
  ◌>>◌, err_if, ok_or, map_err, str_eq, if◌then◌else◌,
}
use trade_engine.Money.Decimal.{Money, zero_money}
use trade_engine.Money.Order.{Decimals, lt, le}
use trade_engine.Ledger.Errors.{LErr, R}
use trade_engine.Ledger.Dict.{get, put}
use trade_engine.Ledger.Model.{
  Order, OrderType, stop, stop_limit, OrderState, new, submitted, EmulatedOrderState, state_eq,
  same, same_order, side_eq, opt_eq, opt_dec_eq,
}
use trade_engine.Ledger.OrderFsm.{validate_transition, transition_to}
use trade_engine.Ledger.State.{AccountState}
use trade_engine.Ledger.FillHandler.{get_or}

pub record OrderStateChange : Type 0 where
  pub order_id : String
  pub reason : Option String
  pub venue_order_id : Option String

pub record OrdersCreated : Type 0 where
  pub orders : List Order
  pub fingerprint : String
  pub reason : String

pub record OrderUpdated : Type 0 where
  pub order : Order
  pub reason : String
  pub venue_order_id : Option String

unfoldable pub require_order : AccountState → String → R Order
require_order st order_id = ok_or (get order_id st.orders) LErr.fold

-- A NEW order is stored as submitted.
unfoldable pub as_submitted : Order → R Order
as_submitted o =
    let moved = transition_to o submitted in if state_eq o.state new then moved else ok o

unfoldable pub check_resubmit : Option Order → Order → R (Unit {0})
check_resubmit none o = ok tt
check_resubmit (some old) o = do
  err_if (not (str_eq old.command_id o.command_id)) LErr.fold
  err_if (not (state_eq old.state submitted)) LErr.fold

unfoldable pub on_order_submitted : AccountState → Order → R AccountState
unfolding as_submitted check_resubmit
on_order_submitted st submit = do
  o ← as_submitted submit
  check_resubmit (get o.order_id st.orders) o
  ok (record st { orders = put o.order_id o st.orders })

unfoldable pub put_venue_id : String → Option String → AccountState → AccountState
put_venue_id order_id none st = st
put_venue_id order_id (some v) st = record st {
  venue_order_ids = put order_id v st.venue_order_ids;
}

unfoldable pub on_order_state : AccountState → OrderStateChange → OrderState → R AccountState
unfolding require_order put_venue_id
on_order_state st change target = do
  o ← require_order st change.order_id
  moved ← transition_to o target
  ok (
      put_venue_id change.order_id change.venue_order_id
        (record st { orders = put change.order_id moved st.orders }))

-- The order and its venue id as the update has them.
unfoldable pub store_update : AccountState → OrderUpdated → AccountState
unfolding put_venue_id
store_update st u =
    put_venue_id u.order.order_id u.venue_order_id
      (record st { orders = put u.order.order_id u.order st.orders })

abbrev pub is_none {ℓ} : {A : Type ℓ} → Option A → Bool
is_none none = true
is_none (some a) = false

-- STOP and STOP_LIMIT.
unfoldable pub stop_kind : OrderType → Bool
stop_kind stop = true
stop_kind stop_limit = true
stop_kind t = false

module _ ⦃d : Decimals⦄ where
  unfoldable pub positive_opt : Option Money → R (Unit {0})
  positive_opt none = ok tt
  positive_opt (some m) = err_if (le m zero_money) LErr.payload

  unfoldable pub build_emulated :
      String → Option Money → Option Money → Option Money → Bool → String → R EmulatedOrderState
  unfolding positive_opt
  build_emulated order_id observed extreme stop_price triggered reason = do
    err_if (str_eq order_id "") LErr.payload
    positive_opt observed
    positive_opt extreme
    positive_opt stop_price
    err_if (str_eq reason "") LErr.payload
    ok (record {
      order_id = order_id;
      observed_price = observed;
      extreme = extreme;
      stop_price = stop_price;
      triggered = triggered;
      reason = reason;
    })

  unfoldable pub create_order : AccountState → Order → R AccountState
  create_order st o =
      let stored = ok (record st { orders = put o.order_id o st.orders }) in
      elim (get o.order_id st.orders) [
        | none ↦ stored
        | some old ↦ if same_order old o then stored else err LErr.fold
      ]

  unfoldable pub create_all : AccountState → List Order → R AccountState
  unfolding create_order
  create_all st [] = ok st
  create_all st (o ∷ os) = do st' ← create_order st o; create_all st' os

  unfoldable pub on_orders_created : AccountState → OrdersCreated → R AccountState
  unfolding create_all
  on_orders_created st created = create_all st created.orders

  unfoldable pub identity_changed : Order → Order → Bool
  identity_changed previous current =
      not (str_eq previous.account_id current.account_id)
      || not (same previous.instrument current.instrument)
      || not (side_eq previous.side current.side)
      || not (str_eq previous.command_id current.command_id)
      || not (opt_eq str_eq previous.parent_order_id current.parent_order_id)
      || not (opt_eq str_eq previous.oco_group current.oco_group)

  -- A changed stop price rebuilds an emulated stop that has not triggered.
  unfoldable pub rebuild_stop :
      AccountState → OrderUpdated → Order → Option EmulatedOrderState → R AccountState
  unfolding build_emulated stop_kind
  rebuild_stop st u previous none = ok st
  rebuild_stop st u previous (some e) =
      let current = u.order in
      let rebuilt = (do
        err_if (e.triggered || is_none current.stop_price) LErr.fold
        b ← build_emulated current.order_id e.observed_price none current.stop_price false u.reason
        ok (record st { emulated_orders = put current.order_id b st.emulated_orders })) in
      if stop_kind current.order_type && not (opt_dec_eq current.stop_price previous.stop_price)
      then rebuilt
      else ok st

  unfoldable pub on_order_updated : AccountState → OrderUpdated → R AccountState
  unfolding require_order identity_changed rebuild_stop store_update
  on_order_updated st u =
      let current = u.order in
      let stored = store_update st u in
      do
        previous ← require_order st current.order_id
        err_if (identity_changed previous current) LErr.fold
        map_err (λ e. LErr.fold) (validate_transition previous.state current.state)
        err_if (lt current.quantity (get_or zero_money (get current.order_id st.filled_quantity)))
            LErr.fold
        rebuild_stop stored u previous (get current.order_id stored.emulated_orders)
