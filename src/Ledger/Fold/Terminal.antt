-- ===== src/Ledger/Fold/Terminal.antt =====
-- What fills and whole logs do to an order that has ended (crates/te_core/src/ledger/fold.rs).
use trade_engine.Base.{
  ◌≡◌, refl, sym, ap, subst, ◌∙◌, Bool, true, false, ◌||◌, Option, none, some, List, [], ◌∷◌,
  String, if◌then◌else◌, str_eq, str_eq_iff, Bool-cases, inl, inr,
}
use trade_engine.Base.Int.{ℤ}
use trade_engine.Base.OnOk.{OnOk, holds, fails, OnOk-if, OnOk-ok, OnOk-of, OnOk-bind, OnOk-bind_eq}
use trade_engine.Ledger.Dict.{Dict, get, put, get-insert}
use trade_engine.Ledger.OrderFsm.States.{is_terminal, transition_to-state}
use trade_engine.Money.Decimal.{Money}
use trade_engine.Ledger.Model.{
  EventKind, OrderState, filled, partially_filled, Order, Fill, state_eq,
}
use trade_engine.Ledger.OrderFsm.{transition_to}
use trade_engine.Money.Order.{Decimals, ge}
use trade_engine.Ledger.State.{AccountState, new_account}
use trade_engine.Ledger.FillHandler.{on_fill, move_order, settle_order, get_or}
use trade_engine.Ledger.Fold.Orders.{
  HasState, Keeps, put-HasState, found, on_order_state-Keeps, on_order_submitted-Keeps,
  create_all-Keeps, on_order_updated-Keeps,
}
use trade_engine.Ledger.Lifecycle.Settled.{on_lifecycle-keeps}
use trade_engine.Ledger.FillHandler.Within.{fill_quantity-orders}
use trade_engine.Ledger.FillHandler.Steps.{on_fill-steps}
use trade_engine.Ledger.OrderHandlers.{OrderStateChange, on_orders_created}
use trade_engine.Ledger.Fold.{
  Obj, Event, signal, eod_run, risk_verdict, risk_control, created, order, updated, state_change,
  emulated, fill, cash_flow, mark, reconcile, halt_cleared, m_queued, m_refused, m_ack, m_fill,
  lifecycle, mirror_step, corporate_action, state_target, on_state_change, on_risk_verdict,
  on_reconcile, on_halt_cleared, is_signal_seen, dispatch, stamp, apply_event, state_of, fold_step,
  fold_all,
}

-- After a step, an account's state is the new one where it is the step's account.
pub state_of-put :
    (k account : String) (st : AccountState) (states : Dict String AccountState)
    → state_of account (put k st states)
      ≡ (if str_eq k account then st else state_of account states)
unfolding state_of put
state_of-put k account st states =
    ap (get_or (new_account account)) (get-insert k account k st states)
    ∙ get_or-if (str_eq k account)
  where
    get_or-if :
        (b : Bool)
        → get_or (new_account account) (if b then some st else get account states)
          ≡ (if b then st else get_or (new_account account) (get account states))
    get_or-if true = refl
    get_or-if false = refl

module _ ⦃d : Decimals⦄ where
  module _ (id : String) (s : OrderState) (ended : is_terminal s ≡ true) where
    move_order-Keeps :
        (st : AccountState) (o : Order) (f : Fill) (total : Money)
        → HasState st.orders id s
        → (f.order_id ≡ id → o.state ≡ s)
        → Keeps id s ended (move_order st o f total)
    unfolding move_order
    move_order-Keeps st o f total h same =
        OnOk-if
          (state_eq o.state filled
            || state_eq (if ge total o.quantity then filled else partially_filled) o.state)
          (holds h)
          (OnOk-bind_eq (transition_to o (if ge total o.quantity then filled else partially_filled))
            λ m em. holds (
              put-HasState st.orders id f.order_id s m h
                (λ k. transition_to-state o _ (rw (same k) ended) em ∙ same k)))

    settle_order-Keeps :
        (st : AccountState) (o : Order) (f : Fill)
        → HasState st.orders id s
        → (f.order_id ≡ id → o.state ≡ s)
        → Keeps id s ended (settle_order st o f)
    unfolding settle_order
    settle_order-Keeps st o f h same = search (OnOk-bind, move_order-Keeps, h, same) depth 8

    on_fill-Keeps :
        (st : AccountState) (f : Fill) → HasState st.orders id s → Keeps id s ended (on_fill st f)
    on_fill-Keeps st f h = OnOk-of (on_fill st f) λ t e.
        let b = on_fill-steps st f e in
        let same : f.order_id ≡ id → b.order.state ≡ s =
          λ k. found st.orders id f.order_id s {o = b.order} h k (rw b.known) in
        let counted = OnOk-ok (fill_quantity-orders _ b.order f b.matched) b.counting in
        let kept : HasState b.counted.orders id s =
          subst (λ orders. HasState orders id s) (sym counted) h in
        let moved = OnOk-ok (settle_order-Keeps b.counted b.order f kept same) b.settled in
        subst (λ (u : AccountState). HasState u.orders id s) (sym b.result) moved

    on_state_change-Keeps :
        (st : AccountState) (c : OrderStateChange) (target : Option OrderState)
        → HasState st.orders id s
        → Keeps id s ended (on_state_change st c target)
    unfolding on_state_change
    on_state_change-Keeps st c none h = search (OnOk-bind, holds, h) depth 6
    on_state_change-Keeps st c (some target) h = on_order_state-Keeps id s ended st c target h

    dispatch-Keeps :
        (st : AccountState) (k : EventKind) (p : Obj)
        → HasState st.orders id s
        → Keeps id s ended (dispatch st k p)
    unfolding dispatch mirror_step on_risk_verdict on_reconcile on_halt_cleared on_orders_created
    dispatch-Keeps st k signal h = OnOk-if (is_signal_seen k) (holds h) fails
    dispatch-Keeps st k eod_run h = holds h
    dispatch-Keeps st k (risk_verdict v) h = holds h
    dispatch-Keeps st k (risk_control c v) h = holds h
    dispatch-Keeps st k (created c) h = create_all-Keeps id s ended c.orders st h
    dispatch-Keeps st k (order o) h = on_order_submitted-Keeps id s ended st o h
    dispatch-Keeps st k (updated u) h = on_order_updated-Keeps id s ended st u h
    dispatch-Keeps st k (state_change c) h = on_state_change-Keeps st c (state_target k) h
    dispatch-Keeps st k (emulated e) h = search (OnOk-bind, holds, h) depth 6
    dispatch-Keeps st k (fill f) h = on_fill-Keeps st f h
    dispatch-Keeps st k (cash_flow m) h = search (OnOk-bind, holds, h) depth 6
    dispatch-Keeps st k (mark i m) h = holds h
    dispatch-Keeps st k (reconcile n) h = holds h
    dispatch-Keeps st k (halt_cleared v) h = search (OnOk-bind, holds, h) depth 6
    dispatch-Keeps st k (m_queued m) h = search (OnOk-bind, holds, h) depth 6
    dispatch-Keeps st k (m_refused m) h = search (OnOk-bind, holds, h) depth 6
    dispatch-Keeps st k (m_ack m) h = search (OnOk-bind, holds, h) depth 6
    dispatch-Keeps st k (m_fill m) h = search (OnOk-bind, holds, h) depth 6
    dispatch-Keeps st k (lifecycle n) h =
        on_lifecycle-keeps (λ t. HasState t.orders id s) st n k (λ u realized. h)
    dispatch-Keeps st k corporate_action h = fails

    stamp-orders : (n : Option ℤ) (st : AccountState) → (stamp n st).orders ≡ st.orders
    unfolding stamp
    stamp-orders none st = refl
    stamp-orders (some n) st = refl

    -- An event that is applied leaves an order that has ended in its state.
    pub apply_event-Keeps :
        (st : AccountState) (e : Event)
        → HasState st.orders id s
        → Keeps id s ended (apply_event st e)
    unfolding apply_event
    apply_event-Keeps st e h = OnOk-bind_eq (dispatch st e.kind e.payload) λ t et. holds (
        subst (λ orders. HasState orders id s) (sym (stamp-orders e.seq t))
          (OnOk-ok (dispatch-Keeps st e.kind e.payload h) et))

    -- The account has the order, in the state `s`.
    abbrev pub Ended : String → Dict String AccountState → Type 0
    Ended account states = HasState (state_of account states).orders id s

    fold_step-Ended :
        (account : String) (states : Dict String AccountState) (e : Event)
        → Ended account states
        → OnOk (Ended account) (fold_step states e)
    unfolding fold_step
    fold_step-Ended account states e h =
        OnOk-bind_eq (apply_event (state_of e.account states) e) λ st est.
          holds (elim (Bool-cases (str_eq e.account account)) [
            | inl same ↦
                let here : Ended e.account states =
                  subst (λ a. Ended a states) (sym ((str_eq_iff e.account account).0 same)) h in
                rw (state_of-put e.account account st states, same)
                  (OnOk-ok (apply_event-Keeps (state_of e.account states) e here) est)
            | inr other ↦ rw (state_of-put e.account account st states, other) h
          ])

    -- An order that is FILLED, CANCELLED, EXPIRED or REJECTED in an account keeps exactly that
    -- state through every log of events that is folded to its end, whichever accounts and orders
    -- its events are of; a log that is refused has no state.
    pub fold_all-Ended :
        (account : String) (es : List Event) (states : Dict String AccountState)
        → Ended account states
        → OnOk (Ended account) (fold_all states es)
    unfolding fold_all
    fold_all-Ended account [] states h = holds h
    fold_all-Ended account (e ∷ es) states h =
        OnOk-bind_eq (fold_step states e)
          λ t et. fold_all-Ended account es t (OnOk-ok (fold_step-Ended account states e h) et)
