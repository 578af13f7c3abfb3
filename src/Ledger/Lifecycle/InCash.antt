-- ===== src/Ledger/Lifecycle/InCash.antt =====
-- How the lots of an option event are closed in cash (`on_lifecycle` of crates/te_core/src/ledger/fold.rs).
use trade_engine.Base.{
  sym, not, ok-injective, >>=-eq-ok, ◌≡◌, refl, subst, Bool, true, false, List, ok, ◌>>=◌,
  if◌then◌else◌,
}
use trade_engine.Base.OnOk.{OnOk, holds, OnOk-ok, OnOk-of, OnOk-bind, OnOk-bind_eq}
use trade_engine.Money.Decimal.{Money, zero_money}
use trade_engine.Money.Order.{Decimals, eq}
use trade_engine.Ledger.Errors.{add, sub, mul, mul_i, div, abs, ne}
use trade_engine.Ledger.Model.{Side, buy, sell, Lot, side_eq}
use trade_engine.Ledger.Lots.{
  Position, signed_total, cost_total, make_position, consume_lots, remaining_position,
}
use trade_engine.Ledger.Lots.Closing.{consume_lots-Closes}
use trade_engine.Ledger.Trade.Kinds.{Averages}
use trade_engine.Ledger.Trade.Parts.{make_position-Made}
use trade_engine.Ledger.State.{AccountState}
use trade_engine.Ledger.Lifecycle.{OptionLifecycle, held_side, close_lots}
use trade_engine.Ledger.Lifecycle.Balanced.{remaining_position-IsBalanced}
use trade_engine.Ledger.Lifecycle.Effects.{Receives, bought, Remains, ClosedInCash}

pub bought_is : (s : Side) → side_eq s buy ≡ bought s
unfolding side_eq
bought_is buy = refl
bought_is sell = refl

receives :
    (b : Bool) (before amount after : Money)
    → (if b then add before amount else sub before amount) ≡ ok after
    → Receives b before amount after
receives true before amount after e = e
receives false before amount after e = e

module _ ⦃d : Decimals⦄ where
  averages :
      (b : Bool) (q : Money) (lots : List Lot) {avg : Money}
      → (if not b
          then (cost_total lots >>= λ cost. abs q >>= λ size. div cost size)
          else ok zero_money)
        ≡ ok avg
      → Averages b q lots avg
  averages true q lots e = sym (ok-injective e)
  averages false q lots e =
      let (cost, costs, rest) = >>=-eq-ok (cost_total lots) _ e in
      let (size, sized, average) = >>=-eq-ok (abs q) _ rest in (cost, costs, size, sized, average)

  remaining_position-Made :
      (p : Position) (lots : List Lot) (realized : Money)
      → OnOk
          (λ t.
            (t.realized_pnl ≡ realized)
            × (t.open_lots ≡ lots)
            × Averages (eq t.quantity zero_money) t.quantity lots t.avg_cost)
          (remaining_position p lots realized)
  unfolding remaining_position ne
  remaining_position-Made p lots realized = OnOk-bind (signed_total lots) λ q.
      OnOk-bind_eq
        (if not (eq q zero_money)
          then (cost_total lots >>= λ cost. abs q >>= λ size. div cost size)
          else ok zero_money)
        λ avg e. OnOk-of (make_position p.account_id p.instrument q avg realized lots) λ t made.
          let m = OnOk-ok (make_position-Made p.account_id p.instrument q avg realized lots) made in
          (
            m.pnl,
            m.same_lots,
            subst (λ a. Averages (eq t.quantity zero_money) t.quantity lots a) (sym m.cost)
                (subst (λ n. Averages (eq n zero_money) n lots avg) (sym m.size)
                  (averages (eq q zero_money) q lots e)),
          )

  pub remaining_position-Remains :
      (p : Position) (lots : List Lot) (realized : Money)
      → OnOk (Remains p lots realized) (remaining_position p lots realized)
  remaining_position-Remains p lots realized = OnOk-of (remaining_position p lots realized) λ t e.
      let (pnl, same, average) = OnOk-ok (remaining_position-Made p lots realized) e in
      record {
        lots = same;
        pnl = pnl;
        average = average;
        balanced = OnOk-ok (remaining_position-IsBalanced p lots realized) e;
      }

  pub close_lots-Closed :
      (st : AccountState) (n : OptionLifecycle) (p : Position) (exit_price : Money)
      → OnOk (ClosedInCash st n p (held_side p) exit_price) (close_lots st n p exit_price)
  unfolding close_lots
  close_lots-Closed st n p exit_price =
      OnOk-bind_eq (consume_lots p.open_lots n.quantity exit_price n.contract.multiplier) λ c ec.
        OnOk-bind_eq (add zero_money c.1) λ realized er.
          OnOk-bind_eq (add p.realized_pnl c.1) λ total et.
            OnOk-bind_eq (remaining_position p c.0 total) λ rem el.
              OnOk-bind_eq (mul exit_price n.quantity) λ gross eg.
                OnOk-bind_eq (mul_i gross n.contract.multiplier) λ amount ea.
                  OnOk-bind_eq
                    (if side_eq (held_side p) buy then add st.cash amount else sub st.cash amount)
                    λ cash eh.
                      let (pieces, closes, earns) =
                        OnOk-ok
                          (consume_lots-Closes p.open_lots n.quantity exit_price
                            n.contract.multiplier)
                          ec in
                      holds (record {
                        kept = c.0;
                        pieces = pieces;
                        closes = closes;
                        earned = c.1;
                        earns = earns;
                        realized = er;
                        total = total;
                        totals = et;
                        left = rem;
                        remains = OnOk-ok (remaining_position-Remains p c.0 total) el;
                        positions = refl;
                        notional = gross;
                        priced = eg;
                        amount = amount;
                        scaled = ea;
                        paid = receives (bought (held_side p)) st.cash amount cash (
                            subst
                              (λ b.
                                (if b then add st.cash amount else sub st.cash amount) ≡ ok cash)
                              (bought_is (held_side p)) eh);
                      })
