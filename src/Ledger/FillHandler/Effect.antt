-- ===== src/Ledger/FillHandler/Effect.antt =====
-- What a booked fill leaves behind (`on_fill` of crates/te_core/src/ledger/fold.rs).
use trade_engine.Base.{
  ◌≡◌, refl, sym, ap, subst, ◌∙◌, ok-injective, false, Option, none, some, List, [], ◌∷◌, ◌++◌,
  String, ok, ℕ,
}
use trade_engine.Base.Int.{ℤ}
use trade_engine.Base.OnOk.{OnOk, holds, OnOk-if, OnOk-ok, OnOk-of, OnOk-bind, OnOk-bind_eq}
use trade_engine.Money.Decimal.{Money, zero_money}
use trade_engine.Money.Order.{Decimals}
use trade_engine.Ledger.Errors.{add, sub, mul, mul_i, neg}
use trade_engine.Ledger.Dict.{Dict, get, insert}
use trade_engine.Ledger.Keys.{hk}
use trade_engine.Ledger.Model.{Side, buy, sell, Instrument, Order, Fill}
use trade_engine.Ledger.Lots.{Position}
use trade_engine.Ledger.Trade.{apply_trade, multiplier}
use trade_engine.Ledger.Trade.Balanced.{IsBalanced}
use trade_engine.Ledger.Trade.Kinds.{Change, Traded}
use trade_engine.Ledger.Trade.Traded.{apply_trade-Traded}
use trade_engine.Ledger.State.{AccountState, member, set_insert}
use trade_engine.Ledger.FillHandler.{
  ComboLeg, signed_gross, prior_realized, cash_change, fill_position, fill_leg, fill_quantity,
  move_order, settle_order, on_fill,
}
use trade_engine.Ledger.FillHandler.Steps.{on_fill-steps}

-- What the counts and the order's state do not touch.
record Holdings : Type 0 where
  cash : Money
  positions : Dict Instrument Position
  fills : List Fill
  fill_ids : List String
  realized_pnl : Money

holdings : AccountState → Holdings
holdings st = record {
  cash = st.cash;
  positions = st.positions;
  fills = st.fills;
  fill_ids = st.fill_ids;
  realized_pnl = st.realized_pnl;
}

-- What a fill brings in: its gross for a sale, the gross negated for a purchase.
abbrev pub Flow : Side → Money → Money → Type 0
Flow sell gross flow = flow ≡ gross
Flow buy gross flow = neg gross ≡ ok flow

-- The cash that a fill moves: quantity times price times multiplier, with the sign of the flow,
-- and the fee taken off.
pub record Moved (f : Fill) (mult : ℤ) (delta : Money) : Type 0 where
  pub notional : Money
  pub gross : Money
  pub flow : Money
  pub priced : mul f.quantity f.price ≡ ok notional
  pub scaled : mul_i notional mult ≡ ok gross
  pub flows : Flow f.side gross flow
  pub less_fee : sub flow f.fee ≡ ok delta

-- The result that a position has realized, zero where there is none.
abbrev pub result_of : Option Position → Money
result_of none = zero_money
result_of (some p) = p.realized_pnl

-- The entry of a fill: paid in cash, traded on its position with the fee out of the result, and
-- recorded once.
pub record Effect ⦃d : Decimals⦄ (st : AccountState) (f : Fill) (t : AccountState) : Type 0 where
  pub mult : ℤ
  pub multiplied : multiplier f.instrument ≡ ok mult
  pub delta : Money
  pub moved : Moved f mult delta
  pub paid : add st.cash delta ≡ ok t.cash
  pub change : Money
  pub changed : Change f.side f.quantity change
  pub traded : Position
  pub trade :
      Traded f.side f.quantity f.price f.filled_at f.fill_id mult change
        (get (hk f.instrument) st.positions)
        traded
  pub balanced : IsBalanced traded
  pub net : Money
  pub fee_out : sub traded.realized_pnl f.fee ≡ ok net
  pub held :
      t.positions
      ≡ insert (hk f.instrument) f.instrument (record traded { realized_pnl = net }) st.positions
  pub gained : Money
  pub earned : sub net (result_of (get (hk f.instrument) st.positions)) ≡ ok gained
  pub gaining : add st.realized_pnl gained ≡ ok t.realized_pnl
  pub fresh : member f.fill_id st.fill_ids ≡ false
  pub recorded : t.fills ≡ st.fills ++ f ∷ []
  pub known : t.fill_ids ≡ set_insert f.fill_id st.fill_ids

module _ ⦃d : Decimals⦄ where
  fill_quantity-holdings :
      (st : AccountState) (o : Order) (f : Fill) (l : Option (ℕ × ComboLeg))
      → OnOk (λ t. holdings t ≡ holdings st) (fill_quantity st o f l)
  unfolding fill_quantity fill_leg holdings
  fill_quantity-holdings st o f none = search (OnOk-bind, holds) depth 8
  fill_quantity-holdings st o f (some (n, l)) = search (OnOk-bind, holds) depth 8

  settle_order-holdings :
      (st : AccountState) (o : Order) (f : Fill)
      → OnOk (λ t. holdings t ≡ holdings st) (settle_order st o f)
  unfolding settle_order move_order holdings
  settle_order-holdings st o f = search (OnOk-bind, OnOk-if, holds) depth 8

  cash_change-Moved : (f : Fill) (mult : ℤ) → OnOk (Moved f mult) (cash_change f mult)
  unfolding cash_change signed_gross
  cash_change-Moved f mult = OnOk-bind_eq (mul f.quantity f.price) λ notional priced.
      OnOk-bind_eq (mul_i notional mult) λ gross scaled.
        OnOk-bind_eq (signed_gross f.side gross) λ flow signed.
          OnOk-of (sub flow f.fee) λ delta less_fee. record {
            notional = notional;
            gross = gross;
            flow = flow;
            priced = priced;
            scaled = scaled;
            flows = by_side f.side gross flow signed;
            less_fee = less_fee;
          }
    where
      by_side : (s : Side) (gross flow : Money) → signed_gross s gross ≡ ok flow → Flow s gross flow
      by_side buy gross flow e = e
      by_side sell gross flow e = sym (ok-injective e)

  -- The position with the fee out of its result, and the result before.
  pub record Positioned (st : AccountState) (f : Fill) (mult : ℤ) (r : Position × Money)
      : Type 0 where
    pub traded : Position
    pub trading :
        apply_trade st.account_id
          (get (hk f.instrument) st.positions)
          f.instrument
          f.side
          f.quantity
          f.price
          f.filled_at
          f.fill_id
          mult
        ≡ ok traded
    pub net : Money
    pub fee_out : sub traded.realized_pnl f.fee ≡ ok net
    pub pair :
        r ≡ (record traded { realized_pnl = net }, result_of (get (hk f.instrument) st.positions))

  fill_position-Positioned :
      (st : AccountState) (f : Fill) (mult : ℤ)
      → OnOk (Positioned st f mult) (fill_position st f mult)
  unfolding fill_position
  fill_position-Positioned st f mult =
      let p = get (hk f.instrument) st.positions in
      OnOk-bind_eq
        (apply_trade st.account_id p f.instrument f.side f.quantity f.price f.filled_at f.fill_id
          mult)
        λ traded trading. OnOk-bind_eq (sub traded.realized_pnl f.fee) λ net fee_out.
          holds (record {
            traded = traded;
            trading = trading;
            net = net;
            fee_out = fee_out;
            pair = ap (λ r. (record traded { realized_pnl = net }, r)) (same p);
          })
    where
      same : (p : Option Position) → prior_realized p ≡ result_of p
      same none = refl
      same (some p) = refl

  -- A fill that `on_fill` books has an id the account has not seen. Its gross is quantity times
  -- price times multiplier; a sale brings it in and a purchase takes it out, and in both cases
  -- less the fee. The position under the instrument's key is the one before, traded as `Traded`
  -- describes it, with lots that add up to its quantity and the fee taken from its result; the
  -- account's realized result grows by what the position's result grew. The fill is appended to
  -- the fills and its id to the ids.
  pub on_fill-Effect :
      (st : AccountState) (f : Fill) {t : AccountState} → on_fill st f ≡ ok t → Effect st f t
  unfolding holdings
  on_fill-Effect st f {t} e =
      let b = on_fill-steps st f e in
      let same : holdings b.moved
          ≡ holdings (record st {
            positions = insert (hk f.instrument) f.instrument b.position.0 st.positions;
          }) =
        OnOk-ok (settle_order-holdings b.counted b.order f) b.settled
        ∙ OnOk-ok (fill_quantity-holdings _ b.order f b.matched) b.counting in
      let p = OnOk-ok (fill_position-Positioned st f b.mult) b.traded in
      let (balanced, change, changed, trade) =
        apply_trade-Traded st.account_id f.instrument f.side f.quantity f.price f.filled_at
          f.fill_id b.mult (get (hk f.instrument) st.positions) p.trading in
      record {
        mult = b.mult;
        multiplied = b.multiplied;
        delta = b.delta;
        moved = OnOk-ok (cash_change-Moved f b.mult) b.changed;
        change = change;
        changed = changed;
        traded = p.traded;
        trade = trade;
        balanced = balanced;
        net = p.net;
        fee_out = p.fee_out;
        gained = b.gained;
        paid =
            sym (ap (λ h. add h.cash b.delta) same) ∙ (b.paid ∙ ap (λ u. ok u.cash) (sym b.result));
        held =
            ap (λ u. u.positions) b.result
            ∙ (ap (λ h. h.positions) same
                ∙ ap
                    (λ (r : Position × Money).
                      insert (hk f.instrument) f.instrument r.0 st.positions)
                    p.pair);
        earned =
            subst (λ (r : Position × Money). sub r.0.realized_pnl r.1 ≡ ok b.gained) p.pair
              b.earned;
        gaining =
            sym (ap (λ h. add h.realized_pnl b.gained) same)
            ∙ (b.gaining ∙ ap (λ u. ok u.realized_pnl) (sym b.result));
        fresh = b.fresh;
        recorded = ap (λ u. u.fills) b.result ∙ ap (λ h. h.fills ++ f ∷ []) same;
        known = ap (λ u. u.fill_ids) b.result ∙ ap (λ h. set_insert f.fill_id h.fill_ids) same;
      }
