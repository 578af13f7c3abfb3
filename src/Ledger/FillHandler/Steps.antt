-- ===== src/Ledger/FillHandler/Steps.antt =====
-- The steps of a fill that is booked (`on_fill` of crates/te_core/src/ledger/fold.rs).
use trade_engine.Base.{◌≡◌, refl, false, ok_or, ok_or-some, Option, some, ok, ℕ, ◌++◌, [], ◌∷◌}
use trade_engine.Base.Int.{ℤ}
use trade_engine.Base.OnOk.{OnOk, holds, OnOk-bind_eq, OnOk-err_if, OnOk-ok}
use trade_engine.Money.Decimal.{Money}
use trade_engine.Money.Order.{Decimals}
use trade_engine.Ledger.Errors.{LErr, add, sub}
use trade_engine.Ledger.Dict.{get, insert}
use trade_engine.Ledger.Keys.{hk}
use trade_engine.Ledger.Model.{Order, Fill}
use trade_engine.Ledger.Lots.{Position}
use trade_engine.Ledger.Trade.{multiplier}
use trade_engine.Ledger.State.{AccountState, member, set_insert}
use trade_engine.Ledger.FillHandler.{
  ComboLeg, matched_leg, cash_change, fill_position, fill_quantity, settle_order, on_fill,
}

-- What `on_fill` computed on the way to the state `t`, with each step's equation.
pub record Booked ⦃d : Decimals⦄ (st : AccountState) (f : Fill) (t : AccountState) : Type 0 where
  pub order : Order
  pub matched : Option (ℕ × ComboLeg)
  pub mult : ℤ
  pub delta : Money
  pub position : Position × Money
  pub counted : AccountState
  pub moved : AccountState
  pub cash : Money
  pub gained : Money
  pub realized : Money
  pub known : get f.order_id st.orders ≡ some order
  pub fresh : member f.fill_id st.fill_ids ≡ false
  pub multiplied : multiplier f.instrument ≡ ok mult
  pub changed : cash_change f mult ≡ ok delta
  pub traded : fill_position st f mult ≡ ok position
  pub counting :
      fill_quantity
        (record st { positions = insert (hk f.instrument) f.instrument position.0 st.positions })
        order
        f
        matched
      ≡ ok counted
  pub settled : settle_order counted order f ≡ ok moved
  pub paid : add moved.cash delta ≡ ok cash
  pub earned : sub position.0.realized_pnl position.1 ≡ ok gained
  pub gaining : add moved.realized_pnl gained ≡ ok realized
  pub result : t ≡ (record moved {
    cash = cash;
    realized_pnl = realized;
    fills = moved.fills ++ f ∷ [];
    fill_ids = set_insert f.fill_id moved.fill_ids;
  })

module _ ⦃d : Decimals⦄ where
  on_fill-Booked : (st : AccountState) (f : Fill) → OnOk (Booked st f) (on_fill st f)
  unfolding on_fill
  on_fill-Booked st f = OnOk-bind_eq (ok_or (get f.order_id st.orders) LErr.fold) λ o eo.
      OnOk-bind_eq (matched_leg o.instrument o f) λ l el.
        OnOk-err_if (member f.fill_id st.fill_ids) LErr.duplicate_fill λ fresh.
          OnOk-bind_eq (multiplier f.instrument) λ m em. OnOk-bind_eq (cash_change f m) λ delta ed.
            OnOk-bind_eq (fill_position st f m) λ p ep.
              OnOk-bind_eq
                (fill_quantity
                  (record st { positions = insert (hk f.instrument) f.instrument p.0 st.positions })
                  o f l)
                λ counted ec. OnOk-bind_eq (settle_order counted o f) λ moved es.
                  OnOk-bind_eq (add moved.cash delta) λ cash eh.
                    OnOk-bind_eq (sub p.0.realized_pnl p.1) λ gained eg.
                      OnOk-bind_eq (add moved.realized_pnl gained) λ realized er. holds (record {
                        order = o;
                        matched = l;
                        mult = m;
                        delta = delta;
                        position = p;
                        counted = counted;
                        moved = moved;
                        cash = cash;
                        gained = gained;
                        realized = realized;
                        known = ok_or-some (get f.order_id st.orders) LErr.fold eo;
                        fresh = fresh;
                        multiplied = em;
                        changed = ed;
                        traded = ep;
                        counting = ec;
                        settled = es;
                        paid = eh;
                        earned = eg;
                        gaining = er;
                        result = refl;
                      })

  -- A booked fill went through the steps.
  pub on_fill-steps :
      (st : AccountState) (f : Fill) {t : AccountState} → on_fill st f ≡ ok t → Booked st f t
  on_fill-steps st f e = OnOk-ok (on_fill-Booked st f) e
