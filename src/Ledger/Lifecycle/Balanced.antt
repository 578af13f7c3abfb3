-- ===== src/Ledger/Lifecycle/Balanced.antt =====
-- The lots that an option event leaves add up (crates/te_core/src/ledger/fold.rs, `on_lifecycle`).
use trade_engine.Base.{
  ◌≡◌, sym, subst, ◌∙◌, Bool, true, false, some, some_inj, List, [], ◌∷◌, String, map_err, str_eq,
  if◌then◌else◌, ◌||◌,
}
use trade_engine.Base.OnOk.{OnOk, holds, OnOk-if, OnOk-ok, OnOk-of, OnOk-bind, OnOk-bind_eq}
use trade_engine.Money.Decimal.{Money, zero_money}
use trade_engine.Money.Order.{Decimals}
use trade_engine.Money.Literal.{try_parse}
use trade_engine.Money.Spelling.{canon}
use trade_engine.Options.{oerr, wire, equity_symbol}
use trade_engine.Options.Lifecycle.{deliverable, delivery}
use trade_engine.Ledger.Dict.{Dict, get, insert, get-insert}
use trade_engine.Ledger.Keys.{hk}
use trade_engine.Ledger.Errors.{LErr, add, sub, mul, mul_i}
use trade_engine.Ledger.Model.{EventKind, Side, buy, sell, Instrument, equity, option, Lot, side_eq}
use trade_engine.Ledger.Lots.{Position, consume_lots, take_lots, remaining_position}
use trade_engine.Ledger.Trade.{apply_trade, multiplier}
use trade_engine.Ledger.Trade.Balanced.{
  IsBalanced, make_position-IsBalanced, apply_trade-IsBalanced,
}
use trade_engine.Ledger.State.{AccountState}
use trade_engine.Ledger.Lifecycle.{
  OptionLifecycle, is_expiry, Settling, close_lots, realized_before, deliver_lot, deliver_all,
  deliver_lots, held_side, lot_name, only_value, settle_lots, on_lifecycle,
}
use trade_engine.Ledger.Lifecycle.Settled.{on_lifecycle-Settled}

module _ ⦃d : Decimals⦄ where
  -- Every position has lots that add up to its quantity.
  abbrev pub EachBalanced : Dict Instrument Position → Type 0
  EachBalanced ps = (k : String) (p : Position) → get k ps ≡ some p → IsBalanced p

  pub insert-EachBalanced :
      (key : String) (i : Instrument) (q : Position) (ps : Dict Instrument Position)
      → IsBalanced q
      → EachBalanced ps
      → EachBalanced (insert key i q ps)
  insert-EachBalanced key i q ps good h k p g =
      choose (str_eq key k) (sym (get-insert key k i q ps) ∙ g)
    where
      choose : (same : Bool) → (if same then some q else get k ps) ≡ some p → IsBalanced p
      choose true g = subst IsBalanced (some_inj g) good
      choose false g = h k p g

  pub remaining_position-IsBalanced :
      (p : Position) (lots : List Lot) (realized : Money)
      → OnOk IsBalanced (remaining_position p lots realized)
  unfolding remaining_position
  remaining_position-IsBalanced p lots realized =
      search (OnOk-bind, make_position-IsBalanced) depth 6

  abbrev SettledWell : Settling → Type 0
  SettledWell s = EachBalanced s.positions

  close_lots-EachBalanced :
      (st : AccountState) (n : OptionLifecycle) (p : Position) (exit_price : Money)
      → EachBalanced st.positions
      → OnOk SettledWell (close_lots st n p exit_price)
  unfolding close_lots
  close_lots-EachBalanced st n p exit_price h =
      OnOk-bind (consume_lots p.open_lots n.quantity exit_price n.contract.multiplier) λ c.
        OnOk-bind (add zero_money c.1) λ realized. OnOk-bind (add p.realized_pnl c.1) λ total.
          OnOk-bind_eq (remaining_position p c.0 total) λ rem left.
            OnOk-bind (mul exit_price n.quantity) λ gross.
              OnOk-bind (mul_i gross n.contract.multiplier) λ amount. OnOk-bind _ λ cash. holds (
                insert-EachBalanced (hk (option n.contract)) (option n.contract) rem st.positions
                  (OnOk-ok (remaining_position-IsBalanced p c.0 total) left) h)

  deliver_lot-EachBalanced :
      (st : AccountState) (n : OptionLifecycle) (k : EventKind) (held : Side) (shares : Instrument)
      (s : Settling) (l : Lot)
      → SettledWell s
      → OnOk SettledWell (deliver_lot st n k held shares s l)
  unfolding deliver_lot
  deliver_lot-EachBalanced st n k held shares s l h =
      OnOk-bind
        (map_err (λ e. only_value (oerr e))
          (delivery (wire n.contract) (side_eq held buy) (canon l.cost_basis)))
        λ trade. OnOk-bind (map_err (λ e. LErr.value) (try_parse trade.1)) λ price.
          OnOk-bind (mul_i l.quantity n.contract.multiplier) λ amount.
            OnOk-bind (multiplier shares) λ each.
              OnOk-bind_eq
                (apply_trade st.account_id (get (hk shares) s.positions) shares
                  (if trade.0 then buy else sell) amount price n.as_of (lot_name n k l) each)
                λ updated traded.
                  let good = OnOk-ok (apply_trade-IsBalanced _ _ _ _ _ _ _ _ _) traded in
                  OnOk-bind
                    (sub updated.realized_pnl (realized_before (get (hk shares) s.positions)))
                    λ gained. OnOk-bind (add s.realized gained) λ realized.
                      OnOk-bind (mul n.contract.strike amount) λ paid.
                        OnOk-bind (if trade.0 then sub s.cash paid else add s.cash paid) λ cash.
                          holds (insert-EachBalanced (hk shares) shares updated s.positions good h)

  deliver_all-EachBalanced :
      (st : AccountState) (n : OptionLifecycle) (k : EventKind) (held : Side) (shares : Instrument)
      (s : Settling) (ls : List Lot)
      → SettledWell s
      → OnOk SettledWell (deliver_all st n k held shares s ls)
  unfolding deliver_all
  deliver_all-EachBalanced st n k held shares s [] h = holds h
  deliver_all-EachBalanced st n k held shares s (l ∷ ls) h =
      OnOk-bind_eq (deliver_lot st n k held shares s l) λ s' e.
        deliver_all-EachBalanced st n k held shares s' ls
          (OnOk-ok (deliver_lot-EachBalanced st n k held shares s l h) e)

  deliver_lots-EachBalanced :
      (st : AccountState) (n : OptionLifecycle) (k : EventKind) (p : Position)
      → EachBalanced st.positions
      → OnOk SettledWell (deliver_lots st n k p)
  unfolding deliver_lots
  deliver_lots-EachBalanced st n k p h = OnOk-bind (take_lots p.open_lots n.quantity) λ lots.
      OnOk-bind_eq (remaining_position p lots.0 p.realized_pnl) λ rem left.
        OnOk-bind (map_err (λ e. only_value (oerr e)) (deliverable (wire n.contract))) λ symbol.
          OnOk-bind (map_err (λ e. only_value (oerr e)) (equity_symbol symbol)) λ shares.
            deliver_all-EachBalanced st n k (held_side p) (equity shares)
              (record {
                positions = insert (hk (option n.contract)) (option n.contract) rem st.positions;
                cash = st.cash;
                realized = zero_money;
              })
              lots.1
              (insert-EachBalanced (hk (option n.contract)) (option n.contract) rem st.positions
                (OnOk-ok (remaining_position-IsBalanced p lots.0 p.realized_pnl) left) h)

  settle_lots-EachBalanced :
      (st : AccountState) (n : OptionLifecycle) (k : EventKind) (p : Position) (value : Money)
      (in_cash : Bool)
      → EachBalanced st.positions
      → OnOk SettledWell (settle_lots st n k p value in_cash)
  unfolding settle_lots
  settle_lots-EachBalanced st n k p value in_cash h =
      OnOk-if (is_expiry k || in_cash) (close_lots-EachBalanced st n p _ h)
        (deliver_lots-EachBalanced st n k p h)

  pub on_lifecycle-EachBalanced :
      (st : AccountState) (n : OptionLifecycle) (k : EventKind)
      → EachBalanced st.positions
      → OnOk (λ t. EachBalanced t.positions) (on_lifecycle st n k)
  on_lifecycle-EachBalanced st n k h = OnOk-of (on_lifecycle st n k) λ t e.
      let b = OnOk-ok (on_lifecycle-Settled st n k) e in
      subst (λ (u : AccountState). EachBalanced u.positions) (sym b.result)
        (OnOk-ok (settle_lots-EachBalanced st n k b.position b.worth b.in_cash h) b.settled)
