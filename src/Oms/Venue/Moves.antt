-- ===== src/Oms/Venue/Moves.antt =====
-- What the manager records after a venue's answer is a move that the ledger accepts
-- (crates/te_core/src/oms/manager.rs and ledger/fold.rs).
use trade_engine.Base.{
  ◌≡◌, refl, subst, ok-injective, Bool, true, false, some, String, ok, err, ◌⊎◌, ◌↔◌, arith, str_eq,
  if◌then◌else◌,
}
use trade_engine.Ledger.Errors.{LErr}
use trade_engine.Ledger.Model.{
  EventKind, order_pending, order_accepted, order_rejected, OrderState, new, submitted, accepted,
  cancelled, rejected, partially_filled, filled, expired, pending_unknown, state_eq,
}
use trade_engine.Ledger.OrderFsm.{allowed, validate_transition}
use trade_engine.Ledger.Fold.{state_target}
use trade_engine.Oms.Venue.{
  local, venue, terminal, return, cancel_mode, submit_ack, recorded, reconcile_result,
}

-- The event moves an order that is `from` to a state that the state machine allows.
abbrev pub Moves : OrderState → EventKind → Type 0
Moves from k =
    (to : OrderState) × (state_target k ≡ some to) × (validate_transition from to ≡ ok tt)

-- Whatever acknowledgement of a submission is recognized, the event recorded for it moves an
-- order that is SUBMITTED to a state that the ledger's state machine allows.
pub submit_ack-Moves :
    (status : String) {k : EventKind} → submit_ack status ≡ ok k → Moves submitted k
unfolding submit_ack state_target validate_transition allowed state_eq
submit_ack-Moves status {k} h =
    go (str_eq status "ACCEPTED") (str_eq status "REJECTED") (str_eq status "PENDING") k h
  where
    go :
        (a r p : Bool) (k : EventKind)
        → (if a
            then ok order_accepted
            else if r
            then ok order_rejected
            else if p
            then ok order_pending
            else err LErr.order_management)
          ≡ ok k
        → Moves submitted k
    go true r p k e = subst (Moves submitted) (ok-injective e) (accepted, refl, refl)
    go false true p k e = subst (Moves submitted) (ok-injective e) (rejected, refl, refl)
    go false false true k e = subst (Moves submitted) (ok-injective e) (pending_unknown, refl, refl)
    go false false false k e = cc

-- Where a reconciliation records an event, that event moves the order to exactly the state that
-- the venue reports, and the state machine allows this from PENDING_UNKNOWN.
pub reconcile_result-Moves :
    (found state : OrderState) (k : EventKind)
    → reconcile_result found state ≡ ok (recorded k)
    → (state_target k ≡ some found) × (validate_transition pending_unknown found ≡ ok tt)
unfolding reconcile_result state_target validate_transition allowed state_eq
reconcile_result-Moves found state k h = ground arith

-- A cancel goes to the venue exactly on an order from whose state the state machine allows
-- CANCELLED and that is neither NEW nor PENDING_UNKNOWN; it is done locally exactly on a NEW one;
-- it has nothing to do exactly where CANCELLED is not allowed or a PENDING_UNKNOWN order is not
-- part of an OCO group; and it is refused as an unknown OCO order exactly on a PENDING_UNKNOWN
-- order of such a group.
pub cancel_mode-exactly :
    (state : OrderState) (oco : Bool)
    → ((cancel_mode state oco ≡ ok venue) ↔ (
        (allowed state cancelled ≡ true)
        × (state_eq state new ≡ false)
        × (state_eq state pending_unknown ≡ false)))
      × ((cancel_mode state oco ≡ ok local) ↔ (state ≡ new))
      × ((cancel_mode state oco ≡ ok return)
          ↔ ((allowed state cancelled ≡ false) ⊎ ((state ≡ pending_unknown) × (oco ≡ false))))
      × ((cancel_mode state oco ≡ err LErr.oco_unknown)
          ↔ ((state ≡ pending_unknown) × (oco ≡ true)))
unfolding cancel_mode terminal allowed state_eq
cancel_mode-exactly new oco = ground arith
cancel_mode-exactly submitted oco = ground arith
cancel_mode-exactly accepted oco = ground arith
cancel_mode-exactly partially_filled oco = ground arith
cancel_mode-exactly filled oco = ground arith
cancel_mode-exactly cancelled oco = ground arith
cancel_mode-exactly expired oco = ground arith
cancel_mode-exactly rejected oco = ground arith
cancel_mode-exactly pending_unknown true = ground arith
cancel_mode-exactly pending_unknown false = ground arith
