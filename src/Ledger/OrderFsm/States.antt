-- ===== src/Ledger/OrderFsm/States.antt =====
-- The states that end an order (`validate_transition` of crates/te_core/src/ledger/fold.rs).
use trade_engine.Base.{◌≡◌, sym, ap, ◌∙◌, Bool, true, false, ok, >>=-eq-ok, ok-injective, arith}
use trade_engine.Ledger.Model.{
  OrderState, new, submitted, accepted, partially_filled, filled, cancelled, expired, rejected,
  pending_unknown, Order, state_eq,
}
use trade_engine.Ledger.OrderFsm.{allowed, validate_transition, transition_to}

-- An order that can take no further part in trading.
unfoldable pub is_terminal : OrderState → Bool
is_terminal filled = true
is_terminal cancelled = true
is_terminal expired = true
is_terminal rejected = true
is_terminal s = false

pub state_eq→eq : (a b : OrderState) → state_eq a b ≡ true → a ≡ b
unfolding state_eq
state_eq→eq new b h = ground arith
state_eq→eq submitted b h = ground arith
state_eq→eq accepted b h = ground arith
state_eq→eq partially_filled b h = ground arith
state_eq→eq filled b h = ground arith
state_eq→eq cancelled b h = ground arith
state_eq→eq expired b h = ground arith
state_eq→eq rejected b h = ground arith
state_eq→eq pending_unknown b h = ground arith

-- From FILLED, CANCELLED, EXPIRED and REJECTED the state machine allows no other state.
pub terminal_iff :
    (from to : OrderState)
    → is_terminal from ≡ true
    → validate_transition from to ≡ ok tt
    → to ≡ from
unfolding is_terminal validate_transition allowed state_eq
terminal_iff from to t h = ground arith

pub transition_to-state :
    (o : Order) (to : OrderState) {m : Order}
    → is_terminal o.state ≡ true
    → transition_to o to ≡ ok m
    → m.state ≡ o.state
unfolding transition_to
transition_to-state o to {m} t h =
    let (u, valid, moved) = >>=-eq-ok (validate_transition o.state to) _ h in
    sym (ap (λ (p : Order). p.state) (ok-injective moved)) ∙ terminal_iff o.state to t valid

pub transition_to_target :
    (o : Order) (to : OrderState) {m : Order} → transition_to o to ≡ ok m → m.state ≡ to
unfolding transition_to
transition_to_target o to {m} h =
    let (u, valid, moved) = >>=-eq-ok (validate_transition o.state to) _ h in
    sym (ap (λ (p : Order). p.state) (ok-injective moved))
