-- ===== src/Ledger/Fold/Mirrored.antt =====
-- The venue mirror of an account through a log (`apply_event` and `mirror_step` of
-- crates/te_core/src/ledger/fold.rs).
use trade_engine.Base.{
  ℕ, ◌≡◌, refl, sym, subst, ◌∙◌, Option, none, some, List, [], ◌∷◌, String, ok, err, if◌then◌else◌,
}
use trade_engine.Base.Int.{ℤ}
use trade_engine.Base.OnOk.{OnOk, holds, fails, OnOk-if, OnOk-ok, OnOk-of, OnOk-bind, OnOk-bind_eq}
use trade_engine.Ledger.Errors.{LErr, R}
use trade_engine.Ledger.Dict.{get, put}
use trade_engine.Ledger.Model.{EventKind, OrderState, Order, Fill, EmulatedOrderState, same_order}
use trade_engine.Money.Order.{Decimals}
use trade_engine.Ledger.State.{AccountState}
use trade_engine.Ledger.FillHandler.{
  ComboLeg, fill_leg, fill_quantity, move_order, settle_order, on_fill,
}
use trade_engine.Ledger.FillHandler.Steps.{on_fill-steps}
use trade_engine.Ledger.OrderHandlers.{
  OrderStateChange, OrderUpdated, on_order_submitted, on_order_state, on_orders_created,
  create_order, create_all, on_order_updated, rebuild_stop, put_venue_id, store_update,
}
use trade_engine.Ledger.Mirror.{
  MirrorState, MirrorQueued, MirrorRefused, MirrorAck, MirrorFill, on_queued, on_refused, on_ack,
}
use trade_engine.Ledger.Mirror.Filling
use trade_engine.Ledger.Lifecycle.Settled.{on_lifecycle-keeps}
use trade_engine.Ledger.Fold.{
  Obj, signal, eod_run, risk_verdict, risk_control, created, order, updated, state_change, emulated,
  fill, cash_flow, mark, reconcile, halt_cleared, m_queued, m_refused, m_ack, m_fill, lifecycle,
  mirror_step, corporate_action, state_target, on_state_change, on_risk_verdict, on_reconcile,
  on_halt_cleared, is_signal_seen, dispatch, stamp, apply_event, Event,
}

-- A result that leaves the mirror as it is.
abbrev SameMirror : AccountState → R AccountState → Type 0
SameMirror st r = OnOk (λ t. t.mirror ≡ st.mirror) r

put_venue_id-mirror :
    (k : String) (v : Option String) (st : AccountState) → (put_venue_id k v st).mirror ≡ st.mirror
unfolding put_venue_id
put_venue_id-mirror k none st = refl
put_venue_id-mirror k (some v) st = refl

on_state_change-mirror :
    (st : AccountState) (c : OrderStateChange) (target : Option OrderState)
    → SameMirror st (on_state_change st c target)
unfolding on_state_change on_order_state
on_state_change-mirror st c none = search (OnOk-bind, holds) depth 8
on_state_change-mirror st c (some target) = search (OnOk-bind, holds, put_venue_id-mirror) depth 8

module _ ⦃d : Decimals⦄ where
  create_order-mirror : (st : AccountState) (o : Order) → SameMirror st (create_order st o)
  unfolding create_order
  create_order-mirror st o = go (get o.order_id st.orders)
    where
      go :
          (old : Option Order)
          → let stored = ok (record st { orders = put o.order_id o st.orders }) in
            SameMirror st (elim old [
              | none ↦ stored
              | some p ↦ if same_order p o then stored else err LErr.fold
            ])
      go none = holds refl
      go (some p) = OnOk-if (same_order p o) (holds refl) fails

  create_all-mirror : (os : List Order) (st : AccountState) → SameMirror st (create_all st os)
  unfolding create_all
  create_all-mirror [] st = holds refl
  create_all-mirror (o ∷ os) st = OnOk-bind_eq (create_order st o) λ t e.
      OnOk-of (create_all t os)
        λ u eu. OnOk-ok (create_all-mirror os t) eu ∙ OnOk-ok (create_order-mirror st o) e

  rebuild_stop-mirror :
      (st : AccountState) (u : OrderUpdated) (previous : Order) (o : Option EmulatedOrderState)
      → SameMirror st (rebuild_stop (store_update st u) u previous o)
  unfolding rebuild_stop store_update
  rebuild_stop-mirror st u previous none = holds (put_venue_id-mirror _ u.venue_order_id _)
  rebuild_stop-mirror st u previous (some e) =
      search (OnOk-if, OnOk-bind, holds, put_venue_id-mirror) depth 10

  on_order_updated-mirror :
      (st : AccountState) (u : OrderUpdated) → SameMirror st (on_order_updated st u)
  unfolding on_order_updated
  on_order_updated-mirror st u = search (OnOk-bind, rebuild_stop-mirror) depth 8

  fill_quantity-mirror :
      (st : AccountState) (o : Order) (f : Fill) (l : Option (ℕ × ComboLeg))
      → SameMirror st (fill_quantity st o f l)
  unfolding fill_quantity fill_leg
  fill_quantity-mirror st o f none = search (OnOk-bind, holds) depth 8
  fill_quantity-mirror st o f (some (n, l)) = search (OnOk-bind, holds) depth 10

  settle_order-mirror :
      (st : AccountState) (o : Order) (f : Fill) → SameMirror st (settle_order st o f)
  unfolding settle_order move_order
  settle_order-mirror st o f = search (OnOk-if, OnOk-bind, holds) depth 10

  on_fill-mirror : (st : AccountState) (f : Fill) → SameMirror st (on_fill st f)
  on_fill-mirror st f = OnOk-of (on_fill st f) λ t e.
      let b = on_fill-steps st f e in
      let counted = OnOk-ok (fill_quantity-mirror _ b.order f b.matched) b.counting in
      let settled = OnOk-ok (settle_order-mirror b.counted b.order f) b.settled in
      subst (λ (u : AccountState). u.mirror ≡ st.mirror) (sym b.result) (settled ∙ counted)

stamp-mirror : (n : Option ℤ) (st : AccountState) → (stamp n st).mirror ≡ st.mirror
unfolding stamp
stamp-mirror none st = refl
stamp-mirror (some n) st = refl

module _ {ℓ} ⦃d : Decimals⦄ (P : MirrorState → Type ℓ) where
  -- The mirror of a state that is reached.
  abbrev pub OfMirror : AccountState → Type ℓ
  OfMirror st = P st.mirror

  kept : (st : AccountState) {r : R AccountState} → OfMirror st → SameMirror st r → OnOk OfMirror r
  kept st {r} h (holds e) = holds (subst P (sym e) h)
  kept st {r} h fails = fails

  mirror_step-OfMirror :
      (st : AccountState) (r : R MirrorState) → OnOk P r → OnOk OfMirror (mirror_step st r)
  unfolding mirror_step
  mirror_step-OfMirror st (ok m) (holds h) = holds h
  mirror_step-OfMirror st (err e) fails = fails

  -- What the four steps of the mirror preserve, every event does.
  module _ (by_queued : (m : MirrorState) (q : MirrorQueued) → P m → OnOk P (on_queued m q))
      (by_refused : (m : MirrorState) (r : MirrorRefused) → P m → OnOk P (on_refused m r))
      (by_ack : (m : MirrorState) (a : MirrorAck) → P m → OnOk P (on_ack m a))
      (by_fill : (m : MirrorState) (f : MirrorFill) → P m → OnOk P (Filling.on_fill m f)) where
    dispatch-OfMirror :
        (st : AccountState) (k : EventKind) (p : Obj)
        → OfMirror st
        → OnOk OfMirror (dispatch st k p)
    unfolding dispatch on_risk_verdict on_reconcile on_halt_cleared on_orders_created
        on_order_submitted
    dispatch-OfMirror st k signal h = OnOk-if (is_signal_seen k) (holds h) fails
    dispatch-OfMirror st k eod_run h = holds h
    dispatch-OfMirror st k (risk_verdict v) h = holds h
    dispatch-OfMirror st k (risk_control c v) h = holds h
    dispatch-OfMirror st k (created c) h = kept st h (create_all-mirror c.orders st)
    dispatch-OfMirror st k (order o) h = search (OnOk-bind, holds, h) depth 8
    dispatch-OfMirror st k (updated u) h = kept st h (on_order_updated-mirror st u)
    dispatch-OfMirror st k (state_change c) h =
        kept st h (on_state_change-mirror st c (state_target k))
    dispatch-OfMirror st k (emulated e) h = search (OnOk-bind, holds, h) depth 6
    dispatch-OfMirror st k (fill f) h = kept st h (on_fill-mirror st f)
    dispatch-OfMirror st k (cash_flow m) h = search (OnOk-bind, holds, h) depth 6
    dispatch-OfMirror st k (mark i m) h = holds h
    dispatch-OfMirror st k (reconcile n) h = holds h
    dispatch-OfMirror st k (halt_cleared v) h = search (OnOk-bind, holds, h) depth 6
    dispatch-OfMirror st k (m_queued q) h = mirror_step-OfMirror st _ (by_queued st.mirror q h)
    dispatch-OfMirror st k (m_refused r) h = mirror_step-OfMirror st _ (by_refused st.mirror r h)
    dispatch-OfMirror st k (m_ack a) h = mirror_step-OfMirror st _ (by_ack st.mirror a h)
    dispatch-OfMirror st k (m_fill f) h = mirror_step-OfMirror st _ (by_fill st.mirror f h)
    dispatch-OfMirror st k (lifecycle n) h = on_lifecycle-keeps OfMirror st n k (λ s realized. h)
    dispatch-OfMirror st k corporate_action h = fails

    pub apply_event-OfMirror :
        (st : AccountState) (e : Event) → OfMirror st → OnOk OfMirror (apply_event st e)
    unfolding apply_event
    apply_event-OfMirror st e h = OnOk-bind_eq (dispatch st e.kind e.payload) λ t et. holds (
        subst P (sym (stamp-mirror e.seq t)) (OnOk-ok (dispatch-OfMirror st e.kind e.payload h) et))
