-- ===== src/Ledger/Fold/Books.antt =====
-- Which events touch the books of an account (crates/te_core/src/ledger/fold.rs).
use trade_engine.Base.{
  ◌≡◌, refl, sym, subst, ◌∙◌, Bool, true, false, Option, none, some, List, [], ◌∷◌, String, ok, err,
  ◌⊎◌, inl, inr, if◌then◌else◌,
}
use trade_engine.Base.Int.{ℤ}
use trade_engine.Base.OnOk.{OnOk, holds, fails, OnOk-if, OnOk-ok, OnOk-of, OnOk-bind, OnOk-bind_eq}
use trade_engine.Ledger.Errors.{LErr, R}
use trade_engine.Ledger.Dict.{Dict, get, put}
use trade_engine.Money.Decimal.{Money}
use trade_engine.Ledger.Model.{
  EventKind, Instrument, OrderState, Order, Fill, EmulatedOrderState, same_order,
}
use trade_engine.Money.Order.{Decimals}
use trade_engine.Ledger.Lots.{Position}
use trade_engine.Ledger.State.{AccountState}
use trade_engine.Ledger.FillHandler.{on_fill}
use trade_engine.Ledger.OrderHandlers.{
  OrderStateChange, OrderUpdated, on_order_submitted, on_order_state, on_orders_created,
  create_order, create_all, on_order_updated, rebuild_stop, put_venue_id, store_update,
}
use trade_engine.Ledger.Lifecycle.{OptionLifecycle, on_lifecycle}
use trade_engine.Ledger.Fold.{
  Obj, signal, eod_run, risk_verdict, risk_control, created, order, updated, state_change, emulated,
  fill, cash_flow, mark, reconcile, halt_cleared, m_queued, m_refused, m_ack, m_fill, lifecycle,
  mirror_step, corporate_action, state_target, on_state_change, on_risk_verdict, on_reconcile,
  on_halt_cleared, is_signal_seen, dispatch, stamp, apply_event, Event,
}

-- The holdings of an account and the fills that made them.
pub record Books : Type 0 where
  pub positions : Dict Instrument Position
  pub fills : List Fill
  pub fill_ids : List String
  pub realized_pnl : Money
  pub filled_quantity : Dict String Money
  pub leg_filled : Dict (String × ℤ) Money

unfoldable pub books : AccountState → Books
books st = record {
  positions = st.positions;
  fills = st.fills;
  fill_ids = st.fill_ids;
  realized_pnl = st.realized_pnl;
  filled_quantity = st.filled_quantity;
  leg_filled = st.leg_filled;
}

unfoldable pub moves_books : Obj → Bool
moves_books (fill f) = true
moves_books (lifecycle n) = true
moves_books p = false

-- A result that leaves the books as they are.
abbrev SameBooks : AccountState → R AccountState → Type 0
SameBooks st r = OnOk (λ t. books t ≡ books st) r

put_venue_id-books :
    (k : String) (v : Option String) (st : AccountState) → books (put_venue_id k v st) ≡ books st
unfolding put_venue_id books
put_venue_id-books k none st = refl
put_venue_id-books k (some v) st = refl

on_order_state-books :
    (st : AccountState) (c : OrderStateChange) (target : OrderState)
    → SameBooks st (on_order_state st c target)
unfolding on_order_state books
on_order_state-books st c target = search (OnOk-bind, holds, put_venue_id-books) depth 8

on_state_change-books :
    (st : AccountState) (c : OrderStateChange) (target : Option OrderState)
    → SameBooks st (on_state_change st c target)
unfolding on_state_change books
on_state_change-books st c none = search (OnOk-bind, holds) depth 8
on_state_change-books st c (some target) = on_order_state-books st c target

module _ ⦃d : Decimals⦄ where
  create_order-books : (st : AccountState) (o : Order) → SameBooks st (create_order st o)
  unfolding create_order books
  create_order-books st o = go (get o.order_id st.orders)
    where
      go :
          (old : Option Order)
          → let stored = ok (record st { orders = put o.order_id o st.orders }) in
            SameBooks st (elim old [
              | none ↦ stored
              | some p ↦ if same_order p o then stored else err LErr.fold
            ])
      go none = holds refl
      go (some p) = OnOk-if (same_order p o) (holds refl) fails

  create_all-books : (os : List Order) (st : AccountState) → SameBooks st (create_all st os)
  unfolding create_all
  create_all-books [] st = holds refl
  create_all-books (o ∷ os) st = OnOk-bind_eq (create_order st o) λ t e.
      OnOk-of (create_all t os)
        λ u eu. OnOk-ok (create_all-books os t) eu ∙ OnOk-ok (create_order-books st o) e

  rebuild_stop-books :
      (st : AccountState) (u : OrderUpdated) (previous : Order) (o : Option EmulatedOrderState)
      → SameBooks st (rebuild_stop st u previous o)
  unfolding rebuild_stop books
  rebuild_stop-books st u previous none = holds refl
  rebuild_stop-books st u previous (some e) = search (OnOk-if, OnOk-bind, holds) depth 8

  update-books :
      (st : AccountState) (u : OrderUpdated) (previous : Order) (o : Option EmulatedOrderState)
      → SameBooks st (rebuild_stop (store_update st u) u previous o)
  unfolding store_update books
  update-books st u previous o = OnOk-of (rebuild_stop (store_update st u) u previous o) λ t e.
      OnOk-ok (rebuild_stop-books (store_update st u) u previous o) e
      ∙ put_venue_id-books u.order.order_id u.venue_order_id _

  on_order_updated-books :
      (st : AccountState) (u : OrderUpdated) → SameBooks st (on_order_updated st u)
  unfolding on_order_updated
  on_order_updated-books st u = search (OnOk-bind, update-books) depth 8

  -- An event that is neither a fill nor an option's expiry, exercise or assignment, if it is not
  -- refused, leaves the positions, the fills and their ids, the realized result and both counts
  -- of filled quantities as they were.
  pub dispatch-books :
      (st : AccountState) (k : EventKind) (p : Obj)
      → moves_books p ≡ false
      → SameBooks st (dispatch st k p)
  unfolding dispatch mirror_step moves_books books on_risk_verdict on_reconcile on_halt_cleared
      on_orders_created on_order_submitted
  dispatch-books st k signal h = OnOk-if (is_signal_seen k) (holds refl) fails
  dispatch-books st k eod_run h = holds refl
  dispatch-books st k (risk_verdict v) h = holds refl
  dispatch-books st k (risk_control c v) h = holds refl
  dispatch-books st k (created c) h = create_all-books c.orders st
  dispatch-books st k (order o) h = search (OnOk-bind, holds) depth 8
  dispatch-books st k (updated u) h = on_order_updated-books st u
  dispatch-books st k (state_change c) h = on_state_change-books st c (state_target k)
  dispatch-books st k (emulated e) h = search (OnOk-bind, holds) depth 6
  dispatch-books st k (fill f) h = cc
  dispatch-books st k (cash_flow m) h = search (OnOk-bind, holds) depth 6
  dispatch-books st k (mark i m) h = holds refl
  dispatch-books st k (reconcile n) h = holds refl
  dispatch-books st k (halt_cleared v) h = search (OnOk-bind, holds) depth 6
  dispatch-books st k (m_queued m) h = search (OnOk-bind, holds) depth 6
  dispatch-books st k (m_refused m) h = search (OnOk-bind, holds) depth 6
  dispatch-books st k (m_ack m) h = search (OnOk-bind, holds) depth 6
  dispatch-books st k (m_fill m) h = search (OnOk-bind, holds) depth 6
  dispatch-books st k (lifecycle n) h = cc
  dispatch-books st k corporate_action h = fails

stamp-books : (n : Option ℤ) (st : AccountState) → books (stamp n st) ≡ books st
unfolding stamp books
stamp-books none st = refl
stamp-books (some n) st = refl

book_cases :
    (p : Obj)
    → (moves_books p ≡ false)
      ⊎ (((f : Fill) × (p ≡ fill f)) ⊎ ((n : OptionLifecycle) × (p ≡ lifecycle n)))
unfolding moves_books
book_cases (fill f) = inr (inl (f, refl))
book_cases (lifecycle n) = inr (inr (n, refl))
book_cases p = inl refl

-- What fills and option events preserve of the books, every event does.
module _ {ℓ} ⦃d : Decimals⦄ (P : Books → Type ℓ)
    (by_fill : (st : AccountState) (f : Fill)
      → P (books st)
      → OnOk (λ t. P (books t)) (on_fill st f))
    (by_lifecycle : (st : AccountState) (n : OptionLifecycle) (k : EventKind)
      → P (books st)
      → OnOk (λ t. P (books t)) (on_lifecycle st n k)) where
  dispatch-preserves :
      (st : AccountState) (k : EventKind) (p : Obj)
      → P (books st)
      → OnOk (λ t. P (books t)) (dispatch st k p)
  unfolding dispatch
  dispatch-preserves st k p h = elim (book_cases p) [
    | inl other ↦
        OnOk-of (dispatch st k p) λ t e. subst P (sym (OnOk-ok (dispatch-books st k p other) e)) h
    | inr (inl (f, same)) ↦ rw same (by_fill st f h)
    | inr (inr (n, same)) ↦ rw same (by_lifecycle st n k h)
  ]

  pub apply_event-preserves :
      (st : AccountState) (e : Event) → P (books st) → OnOk (λ t. P (books t)) (apply_event st e)
  unfolding apply_event
  apply_event-preserves st e h = OnOk-bind_eq (dispatch st e.kind e.payload) λ t et.
      holds (
        subst P (sym (stamp-books e.seq t)) (OnOk-ok (dispatch-preserves st e.kind e.payload h) et))
