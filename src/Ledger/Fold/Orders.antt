-- ===== src/Ledger/Fold/Orders.antt =====
-- What any event does to an order that has ended (crates/te_core/src/ledger/fold.rs).
use trade_engine.Base.{
  ◌≡◌, refl, sym, subst, ap, ◌∙◌, ok_or, err_if, Bool, true, false, not, ◌&&◌, Option, none, some,
  List, [], ◌∷◌, String, ok, err, >>=-eq-ok, ok-injective, arith, str_eq, str_eq_iff, Bool-cases,
  Option-cases, map_err, inl, inr,
}
use trade_engine.Base.OnOk.{
  OnOk, holds, OnOk-if, OnOk-if_eq, OnOk-ok, OnOk-of, OnOk-bind, OnOk-bind_eq,
}
use trade_engine.Ledger.Errors.{LErr, R}
use trade_engine.Ledger.Dict.{Dict, get, put, get-insert}
use trade_engine.Ledger.Model.{
  OrderState, submitted, Order, EmulatedOrderState, state_eq, same_order, same_terms,
}
use trade_engine.Ledger.OrderFsm.{validate_transition, transition_to}
use trade_engine.Ledger.OrderFsm.States.{
  is_terminal, state_eq→eq, terminal_iff, transition_to-state,
}
use trade_engine.Money.Decimal.{zero_money}
use trade_engine.Money.Order.{Decimals, lt}
use trade_engine.Ledger.FillHandler.{get_or}
use trade_engine.Ledger.State.{AccountState}
use trade_engine.Ledger.OrderHandlers.{
  OrderStateChange, OrderUpdated, require_order, on_order_submitted, on_order_state,
  on_order_updated, put_venue_id, store_update, as_submitted, check_resubmit, create_order,
  create_all, rebuild_stop,
}

-- The order `id` has the state `s`.
abbrev pub HasState : Dict String Order → String → OrderState → Type 0
HasState orders id s = (o : Order) × (get id orders ≡ some o) × (o.state ≡ s)

pub put-HasState :
    (orders : Dict String Order) (id k : String) (s : OrderState) (n : Order)
    → HasState orders id s
    → (k ≡ id → n.state ≡ s)
    → HasState (put k n orders) id s
unfolding put
put-HasState orders id k s n (o, g, e) h = elim (Bool-cases (str_eq k id)) [
  | inl same ↦ (n, get-insert k id k n orders ∙ rw same, h ((str_eq_iff k id).0 same))
  | inr other ↦ (o, get-insert k id k n orders ∙ rw (other, g), e)
]

-- The order found under a key that is `id` has the state `s`.
pub found :
    (orders : Dict String Order) (id k : String) (s : OrderState) {o : Order}
    → HasState orders id s
    → k ≡ id
    → ok_or (get k orders) LErr.fold ≡ ok o
    → o.state ≡ s
found orders id k s {o} (p, g, e) same h =
    let here : ok_or (get k orders) LErr.fold ≡ ok p = rw (same, g) in
    ap (λ (q : Order). q.state) (ok-injective (sym h ∙ here)) ∙ e

check_resubmit-some :
    (old o : Order) {u : Unit {0}} → check_resubmit (some old) o ≡ ok u → old.state ≡ submitted
unfolding check_resubmit
check_resubmit-some old o h =
    let (u, _, e) = >>=-eq-ok (err_if (not (str_eq old.command_id o.command_id)) LErr.fold) _ h in
    state_eq→eq old.state submitted (is_false (state_eq old.state submitted) e)
  where
    is_false : (b : Bool) {u : Unit {0}} → err_if (not b) LErr.fold ≡ ok u → b ≡ true
    is_false true e = refl
    is_false false e = cc

second_of : (a b c e : Bool) → (a && b && c && e) ≡ true → b ≡ true
second_of true true c e h = refl
second_of true false c e h = cc
second_of false b c e h = cc

same_order-state : ⦃d : Decimals⦄ (a b : Order) → same_order a b ≡ true → a.state ≡ b.state
unfolding same_order
same_order-state a b h = state_eq→eq a.state b.state (second_of (same_terms a b) _ _ _ h)

submitted_not_ended : (s : OrderState) → s ≡ submitted → is_terminal s ≡ true → ⊥
unfolding is_terminal
submitted_not_ended s h t = ground arith

module _ (id : String) (s : OrderState) (ended : is_terminal s ≡ true) where
  -- A result that leaves the order `id` as it ended.
  abbrev pub Keeps : R AccountState → Type 0
  Keeps r = OnOk (λ st. HasState st.orders id s) r

  put_venue_id-orders :
      (k : String) (v : Option String) (st : AccountState)
      → (put_venue_id k v st).orders ≡ st.orders
  unfolding put_venue_id
  put_venue_id-orders k none st = refl
  put_venue_id-orders k (some v) st = refl

  put_venue_id-HasState :
      (k : String) (v : Option String) (st : AccountState)
      → HasState st.orders id s
      → HasState (put_venue_id k v st).orders id s
  put_venue_id-HasState k v st h =
      subst (λ orders. HasState orders id s) (sym (put_venue_id-orders k v st)) h

  pub on_order_state-Keeps :
      (st : AccountState) (c : OrderStateChange) (target : OrderState)
      → HasState st.orders id s
      → Keeps (on_order_state st c target)
  unfolding on_order_state require_order
  on_order_state-Keeps st c target h =
      OnOk-bind_eq (ok_or (get c.order_id st.orders) LErr.fold) λ o eo.
        OnOk-bind_eq (transition_to o target) λ m em. holds (
          put_venue_id-HasState c.order_id c.venue_order_id _ (
            put-HasState st.orders id c.order_id s m h (λ k.
              let same = found st.orders id c.order_id s h k eo in
              transition_to-state o target (rw same ended) em ∙ same)))

  pub on_order_submitted-Keeps :
      (st : AccountState) (o : Order) → HasState st.orders id s → Keeps (on_order_submitted st o)
  unfolding on_order_submitted
  on_order_submitted-Keeps st submit h = OnOk-bind_eq (as_submitted submit) λ o eo.
      OnOk-bind_eq (check_resubmit (get o.order_id st.orders) o)
        λ u eu. holds (put-HasState st.orders id o.order_id s o h (λ k. absurd (not_again o k eu)))
    where
      not_again :
          {u : Unit {0}} (o : Order)
          → o.order_id ≡ id
          → check_resubmit (get o.order_id st.orders) o ≡ ok u
          → ⊥
      not_again o k e =
          let g : get o.order_id st.orders ≡ some h.0 = rw k h.1 in
          submitted_not_ended h.0.state (check_resubmit-some h.0 o (rw g at e)) (rw h.2 ended)

  module _ ⦃d : Decimals⦄ where
    create_order-Keeps :
        (st : AccountState) (o : Order) → HasState st.orders id s → Keeps (create_order st o)
    unfolding create_order
    create_order-Keeps st o h = elim (Option-cases (get o.order_id st.orders)) [
      | inl free ↦
          rw (free, create_order)
            (holds (put-HasState st.orders id o.order_id s o h (λ k. absurd (taken k free))))
      | inr (old, g) ↦
          rw (g, create_order)
            (OnOk-if_eq (same_order old o)
              (λ same. holds (
                put-HasState st.orders id o.order_id s o h (λ k.
                  sym (same_order-state old o same)
                  ∙ found st.orders id o.order_id s {o = old} h k (rw g))))
              (λ other. OnOk.fails))
    ]
      where
        taken : o.order_id ≡ id → get o.order_id st.orders ≡ none → ⊥
        taken k free = let g : get o.order_id st.orders ≡ some h.0 = rw k h.1 in cc

    pub create_all-Keeps :
        (os : List Order) (st : AccountState) → HasState st.orders id s → Keeps (create_all st os)
    unfolding create_all
    create_all-Keeps [] st h = holds h
    create_all-Keeps (o ∷ os) st h =
        OnOk-bind_eq (create_order st o)
          λ st' e. create_all-Keeps os st' (OnOk-ok (create_order-Keeps st o h) e)

    rebuild_stop-orders :
        (st : AccountState) (u : OrderUpdated) (previous : Order) (o : Option EmulatedOrderState)
        → OnOk (λ t. t.orders ≡ st.orders) (rebuild_stop st u previous o)
    unfolding rebuild_stop
    rebuild_stop-orders st u previous none = holds refl
    rebuild_stop-orders st u previous (some e) = search (OnOk-if, OnOk-bind, holds) depth 8

    rebuild_stop-Keeps :
        (st : AccountState) (u : OrderUpdated) (previous : Order) (o : Option EmulatedOrderState)
        → HasState st.orders id s
        → Keeps (rebuild_stop st u previous o)
    rebuild_stop-Keeps st u previous o h = OnOk-of (rebuild_stop st u previous o) λ t e.
        subst (λ orders. HasState orders id s)
          (sym (OnOk-ok (rebuild_stop-orders st u previous o) e)) h

    pub on_order_updated-Keeps :
        (st : AccountState) (u : OrderUpdated)
        → HasState st.orders id s
        → Keeps (on_order_updated st u)
    unfolding on_order_updated require_order store_update
    on_order_updated-Keeps st u h = OnOk-bind_eq (require_order st u.order.order_id) λ o eo.
        OnOk-bind _ λ identity.
          OnOk-bind_eq (map_err (λ e. LErr.fold) (validate_transition o.state u.order.state))
            λ v ev.
              OnOk-bind
                (err_if
                  (lt u.order.quantity
                    (get_or zero_money (get u.order.order_id st.filled_quantity)))
                  LErr.fold)
                λ big.
                  rebuild_stop-Keeps (store_update st u) u o
                    (get u.order.order_id (store_update st u).emulated_orders)
                    (put_venue_id-HasState u.order.order_id u.venue_order_id
                      (record st { orders = put u.order.order_id u.order st.orders })
                      (put-HasState st.orders id u.order.order_id s u.order h (λ k.
                        let same = found st.orders id u.order.order_id s h k eo in
                        terminal_iff o.state u.order.state (rw same ended) (unmapped _ ev) ∙ same)))
      where
        unmapped : (r : R (Unit {0})) {v : Unit {0}} → map_err (λ e. LErr.fold) r ≡ ok v → r ≡ ok tt
        unmapped (ok u) e = refl
        unmapped (err x) e = cc
