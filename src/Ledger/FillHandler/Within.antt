-- ===== src/Ledger/FillHandler/Within.antt =====
-- The order of a booked fill (`on_fill` of crates/te_core/src/ledger/fold.rs).
use trade_engine.Base.{
  ◌≡◌, refl, sym, ap, subst, ◌∙◌, true, false, ◌||◌, Option, none, some, [], ◌∷◌, ◌++◌, ok, ℕ,
  if◌then◌else◌, inl, ◌⊎◌, arith, str_eq_iff,
}
use trade_engine.Base.OnOk.{
  OnOk, holds, OnOk-if_eq, OnOk-ok, OnOk-of, OnOk-bind, OnOk-bind_eq, OnOk-err_if,
}
use trade_engine.Money.Decimal.{Money, zero_money}
use trade_engine.Money.Order.{Decimals, gt, ge}
use trade_engine.Ledger.Errors.{LErr}
use trade_engine.Ledger.Dict.{get, put, get-insert}
use trade_engine.Ledger.Model.{Order, OrderState, filled, partially_filled, Fill, state_eq}
use trade_engine.Ledger.OrderFsm.{transition_to}
use trade_engine.Ledger.OrderFsm.States.{state_eq→eq, transition_to_target}
use trade_engine.Ledger.State.{AccountState, set_insert}
use trade_engine.Ledger.FillHandler.{
  ComboLeg, get_or, is_dead, fill_leg, fill_quantity, move_order, settle_order, on_fill,
}
use trade_engine.Ledger.FillHandler.Steps.{on_fill-steps}

module _ ⦃d : Decimals⦄ where
  fill_leg-orders :
      (st : AccountState) (o : Order) (f : Fill) (n : ℕ) (l : ComboLeg)
      → OnOk (λ t. t.orders ≡ st.orders) (fill_leg st o f n l)
  unfolding fill_leg
  fill_leg-orders st o f n l = search (OnOk-bind, holds) depth 8

  pub fill_quantity-orders :
      (st : AccountState) (o : Order) (f : Fill) (l : Option (ℕ × ComboLeg))
      → OnOk (λ t. t.orders ≡ st.orders) (fill_quantity st o f l)
  unfolding fill_quantity
  fill_quantity-orders st o f none = search (OnOk-bind, holds) depth 8
  fill_quantity-orders st o f (some (n, l)) = fill_leg-orders st o f n l

  -- The state of a filled order by the quantity filled.
  abbrev pub state_at : Money → Order → OrderState
  state_at total o = if ge total o.quantity then filled else partially_filled

  -- What the order of a booked fill is like: within its quantity, and FILLED once it is reached.
  pub record Within (f : Fill) (o : Order) (t : AccountState) : Type 0 where
    pub bounded : gt (get_or zero_money (get f.order_id t.filled_quantity)) o.quantity ≡ false
    pub alive : is_dead o.state ≡ false
    pub after : Order
    pub stored : get f.order_id t.orders ≡ some after
    pub moved :
        (after.state ≡ state_at (get_or zero_money (get f.order_id t.filled_quantity)) o)
        ⊎ ((o.state ≡ filled) × (after.state ≡ filled))

  -- The state `move_order` leaves the order in.
  abbrev Moved : Order → Fill → Money → AccountState → AccountState → Type 0
  Moved o f total st t =
      (t.filled_quantity ≡ st.filled_quantity)
      × ((after : Order) × (get f.order_id t.orders ≡ some after)
          × ((after.state ≡ state_at total o) ⊎ ((o.state ≡ filled) × (after.state ≡ filled))))

  either :
      (a b : OrderState)
      → (state_eq a filled || state_eq b a) ≡ true
      → (a ≡ b) ⊎ ((a ≡ filled) × (a ≡ filled))
  unfolding state_eq
  either a b h = ground (arith, state_eq→eq a filled, state_eq→eq b a)

  move_order-Moved :
      (st : AccountState) (o : Order) (f : Fill) (total : Money)
      → get f.order_id st.orders ≡ some o
      → OnOk (Moved o f total st) (move_order st o f total)
  unfolding move_order put
  move_order-Moved st o f total g =
      OnOk-if_eq (state_eq o.state filled || state_eq (state_at total o) o.state)
        (λ kept. holds (refl, (o, g, either o.state (state_at total o) kept)))
        (λ other. OnOk-bind_eq (transition_to o (state_at total o)) λ m em. holds (
          refl,
          (
            m,
            get-insert f.order_id f.order_id f.order_id m st.orders
                ∙ rw ((str_eq_iff f.order_id f.order_id).1 refl),
            inl (transition_to_target o _ em),
          ),
        ))

  settle_order-Within :
      (st : AccountState) (o : Order) (f : Fill)
      → get f.order_id st.orders ≡ some o
      → OnOk (Within f o) (settle_order st o f)
  unfolding settle_order
  settle_order-Within st o f g =
      let total = get_or zero_money (get f.order_id st.filled_quantity) in
      OnOk-err_if (gt total o.quantity) LErr.fold λ bounded.
        OnOk-err_if (is_dead o.state) LErr.fold λ alive. OnOk-of (move_order st o f total) λ t e.
          let (same, (after, stored, moved)) = OnOk-ok (move_order-Moved st o f total g) e in
          record {
            bounded = rw (same, bounded);
            alive = alive;
            after = after;
            stored = stored;
            moved = rw same moved;
          }

  -- A fill that `on_fill` books is of an order that the account has and that is not CANCELLED,
  -- EXPIRED or REJECTED. Afterwards the quantity filled is not above the order's, and the order
  -- is stored as FILLED if that quantity has been reached and as PARTIALLY_FILLED if not; an
  -- order that was FILLED before stays so.
  pub on_fill-Within :
      (st : AccountState) (f : Fill) {t : AccountState}
      → on_fill st f ≡ ok t
      → (o : Order) × (get f.order_id st.orders ≡ some o) × Within f o t
  on_fill-Within st f {t} e =
      let b = on_fill-steps st f e in
      let orders = OnOk-ok (fill_quantity-orders _ b.order f b.matched) b.counting in
      let known : get f.order_id b.counted.orders ≡ some b.order =
        ap (get f.order_id) orders ∙ b.known in
      let w = OnOk-ok (settle_order-Within b.counted b.order f known) b.settled in
      let done : Within f b.order (record b.moved {
        cash = b.cash;
        realized_pnl = b.realized;
        fills = b.moved.fills ++ f ∷ [];
        fill_ids = set_insert f.fill_id b.moved.fill_ids;
      }) =
        record {
          bounded = w.bounded;
          alive = w.alive;
          after = w.after;
          stored = w.stored;
          moved = w.moved;
        } in
      (b.order, b.known, subst (Within f b.order) (sym b.result) done)
