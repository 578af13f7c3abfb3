-- ===== src/Ledger/Lifecycle/InShares.antt =====
-- How the lots of an option event become trades of shares (`on_lifecycle` of crates/te_core/src/ledger/fold.rs).
use trade_engine.Base.{
  ◌≡◌, refl, subst, ◌∙◌, Bool, true, false, bool_eq, Option, none, some, List, [], ◌∷◌, String, ok,
  map_err, if◌then◌else◌,
}
use trade_engine.Base.OnOk.{OnOk, holds, OnOk-ok, OnOk-of, OnOk-bind, OnOk-bind_eq, OnOk-err_if}
use trade_engine.Money.Decimal.{Money, zero_money}
use trade_engine.Money.Order.{Decimals, lt}
use trade_engine.Money.Literal.{try_parse}
use trade_engine.Money.Spelling.{canon}
use trade_engine.Ledger.Errors.{LErr, add, sub, mul, mul_i}
use trade_engine.Ledger.Dict.{get, insert}
use trade_engine.Ledger.Keys.{hk}
use trade_engine.Ledger.Model.{
  EventKind, Side, buy, sell, Instrument, equity, option, Right, call, put, Lot, side_eq,
}
use trade_engine.Ledger.Lots.{Position, take_lots, remaining_position}
use trade_engine.Ledger.Lots.Taking.{take_lots-Takes}
use trade_engine.Ledger.Trade.{apply_trade, multiplier}
use trade_engine.Ledger.Trade.Traded.{apply_trade-Traded}
use trade_engine.Ledger.State.{AccountState}
use trade_engine.Ledger.Lifecycle.{
  OptionLifecycle, Settling, only_value, held_side, realized_before, lot_name, deliver_lot,
  deliver_all, deliver_lots,
}
use trade_engine.Ledger.Lifecycle.Settled.{map_err-ok}
use trade_engine.Ledger.Lifecycle.Effects.{
  buys_shares, Receives, bought, pnl_before, Delivered, AllDelivered, all_done, and_then,
  SettledInShares,
}
use trade_engine.Options.{oerr, ContractWire, wire, equity_symbol}
use trade_engine.Options.Lifecycle.{is_call, deliverable, delivery, delivery_price, finite, strike}
use trade_engine.Ledger.Lifecycle.InCash.{bought_is, remaining_position-Remains}

pays :
    (b : Bool) (before amount after : Money)
    → (if b then sub before amount else add before amount) ≡ ok after
    → Receives (if b then false else true) before amount after
pays true before amount after e = e
pays false before amount after e = e

module _ ⦃d : Decimals⦄ where
  delivery-buys :
      (c : ContractWire) (held : Bool) (text : String)
      → OnOk (λ r. r.0 ≡ bool_eq (is_call c.right) held) (delivery c held text)
  unfolding delivery
  delivery-buys c held text = OnOk-bind (finite text) λ premium.
      OnOk-err_if (lt premium zero_money) _ λ paid.
        OnOk-bind (strike c) λ k. OnOk-bind (delivery_price c k premium c.right) λ price. holds refl

  buys_is : (r : Right) (s : Side) → bool_eq (is_call r) (bought s) ≡ buys_shares r s
  unfolding is_call
  buys_is call buy = refl
  buys_is call sell = refl
  buys_is put buy = refl
  buys_is put sell = refl

  before_is : (before : Option Position) → realized_before before ≡ pnl_before before
  before_is none = refl
  before_is (some p) = refl

  deliver_lot-Delivered :
      (st : AccountState) (n : OptionLifecycle) (k : EventKind) (held : Side) (shares : Instrument)
      (s : Settling) (l : Lot)
      → OnOk (Delivered st n k held shares s l) (deliver_lot st n k held shares s l)
  unfolding deliver_lot wire
  deliver_lot-Delivered st n k held shares s l =
      OnOk-bind_eq
        (map_err (λ e. only_value (oerr e))
          (delivery (wire n.contract) (side_eq held buy) (canon l.cost_basis)))
        λ r er. OnOk-bind_eq (map_err (λ e. LErr.value) (try_parse r.1)) λ price ep.
          OnOk-bind_eq (mul_i l.quantity n.contract.multiplier) λ amount ea.
            OnOk-bind_eq (multiplier shares) λ each ei.
              OnOk-bind_eq
                (apply_trade st.account_id (get (hk shares) s.positions) shares
                  (if r.0 then buy else sell) amount price n.as_of (lot_name n k l) each)
                λ traded et.
                  OnOk-bind_eq
                    (sub traded.realized_pnl (realized_before (get (hk shares) s.positions)))
                    λ gained eg. OnOk-bind_eq (add s.realized gained) λ realized ez.
                      OnOk-bind_eq (mul n.contract.strike amount) λ paid es.
                        OnOk-bind_eq (if r.0 then sub s.cash paid else add s.cash paid) λ cash ec.
                          let (balanced, change, changed, trade) =
                            apply_trade-Traded st.account_id shares (if r.0 then buy else sell)
                              amount price n.as_of (lot_name n k l) each
                              (get (hk shares) s.positions) et in
                          let made =
                            subst (λ b. delivery (wire n.contract) b (canon l.cost_basis) ≡ ok r)
                              (bought_is held)
                              (map_err-ok (λ e. only_value (oerr e))
                                (delivery (wire n.contract) (side_eq held buy) (canon l.cost_basis))
                                er) in
                          holds (record {
                            buys = r.0;
                            buying =
                                OnOk-ok
                                  (delivery-buys (wire n.contract) (bought held)
                                    (canon l.cost_basis))
                                  made
                                ∙ buys_is n.contract.right held;
                            text = r.1;
                            delivers = made;
                            price = price;
                            read = map_err-ok (λ e. LErr.value) (try_parse r.1) ep;
                            amount = amount;
                            units = ea;
                            each = each;
                            multiplied = ei;
                            change = change;
                            changed = changed;
                            traded = traded;
                            balanced = balanced;
                            trade = trade;
                            positions = refl;
                            gained = gained;
                            gains_it =
                                subst (λ m. sub traded.realized_pnl m ≡ ok gained)
                                  (before_is (get (hk shares) s.positions)) eg;
                            realized = ez;
                            strike_total = paid;
                            strikes = es;
                            paid = pays r.0 s.cash paid cash ec;
                          })

  deliver_all-AllDelivered :
      (st : AccountState) (n : OptionLifecycle) (k : EventKind) (held : Side) (shares : Instrument)
      (s : Settling) (ls : List Lot)
      → OnOk (AllDelivered st n k held shares s ls) (deliver_all st n k held shares s ls)
  unfolding deliver_all
  deliver_all-AllDelivered st n k held shares s [] = holds (all_done s)
  deliver_all-AllDelivered st n k held shares s (l ∷ ls) =
      OnOk-bind_eq (deliver_lot st n k held shares s l) λ next e.
        OnOk-of (deliver_all st n k held shares next ls) λ t f.
          and_then s next t l ls (OnOk-ok (deliver_lot-Delivered st n k held shares s l) e)
            (OnOk-ok (deliver_all-AllDelivered st n k held shares next ls) f)

  pub deliver_lots-Settled :
      (st : AccountState) (n : OptionLifecycle) (k : EventKind) (p : Position)
      → OnOk (SettledInShares st n k p (held_side p)) (deliver_lots st n k p)
  unfolding deliver_lots
  deliver_lots-Settled st n k p = OnOk-bind_eq (take_lots p.open_lots n.quantity) λ r taken.
      OnOk-bind_eq (remaining_position p r.0 p.realized_pnl) λ rem left.
        OnOk-bind_eq (map_err (λ e. only_value (oerr e)) (deliverable (wire n.contract)))
          λ root rooted.
            OnOk-bind_eq (map_err (λ e. only_value (oerr e)) (equity_symbol root)) λ symbol named.
              OnOk-of
                (deliver_all st n k (held_side p) (equity symbol)
                  (record {
                    positions =
                        insert (hk (option n.contract)) (option n.contract) rem st.positions;
                    cash = st.cash;
                    realized = zero_money;
                  })
                  r.1)
                λ t e. record {
                  kept = r.0;
                  taken = r.1;
                  takes = OnOk-ok (take_lots-Takes p.open_lots n.quantity) taken;
                  left = rem;
                  remains = OnOk-ok (remaining_position-Remains p r.0 p.realized_pnl) left;
                  root = root;
                  rooted =
                      map_err-ok (λ e. only_value (oerr e)) (deliverable (wire n.contract)) rooted;
                  symbol = symbol;
                  named = map_err-ok (λ e. only_value (oerr e)) (equity_symbol root) named;
                  delivered =
                      OnOk-ok (deliver_all-AllDelivered st n k (held_side p) (equity symbol) _ r.1)
                        e;
                }
