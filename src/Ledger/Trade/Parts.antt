-- ===== src/Ledger/Trade/Parts.antt =====
-- What each kind of trade makes of a position (crates/te_core/src/ledger/fold.rs).
use trade_engine.Base.{
  ◌≡◌, refl, sym, ap, subst, ◌∙◌, true, false, Option, none, some, List, [], ◌∷◌, ◌++◌, String,
  str_eq, ok, if◌then◌else◌,
}
use trade_engine.Base.Int.{ℤ}
use trade_engine.Base.OnOk.{
  OnOk, holds, OnOk-if_eq, OnOk-ok, OnOk-of, OnOk-bind, OnOk-bind_eq, OnOk-err_if,
}
use trade_engine.Money.Decimal.{Money, zero_money}
use trade_engine.Money.Order.{Decimals, eq, gt, lt}
use trade_engine.Ledger.Errors.{LErr, add, sub, mul, div, abs}
use trade_engine.Ledger.Model.{Side, DateTime, Instrument, Lot}
use trade_engine.Ledger.Lots.{
  Position, make_lot, check_lots, make_position, cost_total, consume_lots,
}
use trade_engine.Ledger.Lots.Closing.{consume_lots-Closes}
use trade_engine.Ledger.Trade.{open_trade, increase_trade, close_rest, close_trade}
use trade_engine.Ledger.Trade.Kinds.{lot_of, Opened, Increased, LeftOver, Averages, Reduced}

module _ ⦃d : Decimals⦄ where
  -- The fields that a position is made of.
  pub record Made (quantity avg realized : Money) (lots : List Lot) (t : Position) : Type 0 where
    pub size : t.quantity ≡ quantity
    pub cost : t.avg_cost ≡ avg
    pub pnl : t.realized_pnl ≡ realized
    pub same_lots : t.open_lots ≡ lots

  pub make_position-Made :
      (account : String) (i : Instrument) (quantity avg realized : Money) (lots : List Lot)
      → OnOk (Made quantity avg realized lots) (make_position account i quantity avg realized lots)
  unfolding make_position
  make_position-Made account i quantity avg realized lots =
      OnOk-err_if (str_eq account "") LErr.value λ named.
        OnOk-bind (check_lots lots quantity)
          λ u. holds (record { size = refl; cost = refl; pnl = refl; same_lots = refl })

  make_lot-is :
      (lot_id : String) (quantity price : Money) (at : DateTime) (side : Side)
      → OnOk
          (λ l. l ≡ lot_of lot_id side quantity price at)
          (make_lot lot_id quantity price at side)
  unfolding make_lot
  make_lot-is lot_id quantity price at side = search (OnOk-err_if, holds) depth 8

  module _ (account : String) (i : Instrument) (side : Side) (quantity price : Money)
      (at : DateTime) (lot_id : String) (multiplier : ℤ) where
    pub open_trade-Opened :
        (p : Option Position) (delta : Money)
        → OnOk
            (Opened side quantity price at lot_id multiplier delta
              (elim p [ none ↦ zero_money | some q ↦ q.realized_pnl ]))
            (open_trade account p i side quantity price at lot_id delta)
    unfolding open_trade
    open_trade-Opened p delta =
        let before : Money = elim p [ none ↦ zero_money | some q ↦ q.realized_pnl ] in
        OnOk-bind_eq (make_lot lot_id quantity price at side) λ l made.
          OnOk-of (make_position account i delta price before (l ∷ [])) λ t e.
            let m = OnOk-ok (make_position-Made account i delta price before (l ∷ [])) e in
            record {
              size = m.size;
              cost = m.cost;
              lots =
                  m.same_lots
                  ∙ ap (λ k. k ∷ []) (OnOk-ok (make_lot-is lot_id quantity price at side) made);
              realized = m.pnl;
            }

    pub increase_trade-Increased :
        (p : Position) (delta : Money)
        → OnOk
            (Increased side quantity price at lot_id multiplier delta p)
            (increase_trade account p i side quantity price at lot_id delta)
    unfolding increase_trade
    increase_trade-Increased p delta = OnOk-bind_eq (add p.quantity delta) λ size added.
        OnOk-bind_eq (make_lot lot_id quantity price at side) λ l made.
          OnOk-bind_eq (abs p.quantity) λ old eo. OnOk-bind_eq (mul p.avg_cost old) λ cost ec.
            OnOk-bind_eq (mul price quantity) λ paid ep. OnOk-bind_eq (add cost paid) λ weighted ew.
              OnOk-bind_eq (abs size) λ n en. OnOk-bind_eq (div weighted n) λ avg ea.
                OnOk-of (make_position account i size avg p.realized_pnl (p.open_lots ++ l ∷ []))
                  λ t e.
                    let m =
                      OnOk-ok
                        (make_position-Made account i size avg p.realized_pnl
                          (p.open_lots ++ l ∷ []))
                        e in
                    record {
                      size = added ∙ ap ok (sym m.size);
                      lots =
                          m.same_lots
                          ∙ ap (λ k. p.open_lots ++ k ∷ [])
                              (OnOk-ok (make_lot-is lot_id quantity price at side) made);
                      realized = m.pnl;
                      cost = record {
                        held = old;
                        held_is = eo;
                        before = cost;
                        before_is = ec;
                        added = paid;
                        added_is = ep;
                        total = weighted;
                        total_is = ew;
                        size = n;
                        size_is = subst (λ q. abs q ≡ ok n) (sym m.size) en;
                        average = subst (λ a. div weighted n ≡ ok a) (sym m.cost) ea;
                      };
                    }

    -- What is left when the lots are closed.
    record Left (traded held size realized : Money) (kept : List Lot) (t : Position) : Type 0 where
      quantity_is : t.quantity ≡ size
      pnl : t.realized_pnl ≡ realized
      left : LeftOver side quantity price at lot_id multiplier (gt traded held) traded held kept t

    kept-Left :
        (traded held size avg realized : Money) (kept : List Lot)
        → gt traded held ≡ false
        → Averages (eq size zero_money) size kept avg
        → OnOk
            (Left traded held size realized kept)
            (make_position account i size avg realized kept)
    kept-Left traded held size avg realized kept h average =
        OnOk-of (make_position account i size avg realized kept) λ t e.
          let m = OnOk-ok (make_position-Made account i size avg realized kept) e in
          record {
            quantity_is = m.size;
            pnl = m.pnl;
            left =
                subst (λ b. LeftOver side quantity price at lot_id multiplier b traded held kept t)
                  (sym h)
                  (
                    m.same_lots,
                    subst (λ a. Averages (eq t.quantity zero_money) t.quantity kept a) (sym m.cost)
                        (subst (λ q. Averages (eq q zero_money) q kept avg) (sym m.size) average),
                  );
          }

    flipped-Left :
        (traded held size realized rest : Money) (kept : List Lot) (l : Lot)
        → gt traded held ≡ true
        → sub traded held ≡ ok rest
        → l ≡ lot_of lot_id side rest price at
        → OnOk
            (Left traded held size realized kept)
            (make_position account i size price realized (l ∷ []))
    flipped-Left traded held size realized rest kept l h left made =
        OnOk-of (make_position account i size price realized (l ∷ [])) λ t e.
          let m = OnOk-ok (make_position-Made account i size price realized (l ∷ [])) e in
          record {
            quantity_is = m.size;
            pnl = m.pnl;
            left =
                subst (λ b. LeftOver side quantity price at lot_id multiplier b traded held kept t)
                  (sym h) (m.cost, rest, left, m.same_lots ∙ ap (λ k. k ∷ []) made);
          }

    close_rest-Left :
        (delta old size realized traded held : Money) (kept : List Lot)
        → abs delta ≡ ok traded
        → abs old ≡ ok held
        → OnOk
            (Left traded held size realized kept)
            (close_rest account i side price at lot_id delta old size realized kept)
    unfolding close_rest
    close_rest-Left delta old size realized traded held kept e k =
        rw (e, k)
          (OnOk-if_eq (gt traded held)
            (λ over. OnOk-bind_eq (sub traded held) λ rest left.
              OnOk-bind_eq (make_lot lot_id rest price at side) λ l made.
                flipped-Left traded held size realized rest kept l over left
                  (OnOk-ok (make_lot-is lot_id rest price at side) made))
            (λ under.
              OnOk-if_eq (eq size zero_money)
                (λ none_left.
                  kept-Left traded held size zero_money realized kept under
                    (subst (λ b. Averages b size kept zero_money) (sym none_left) refl))
                (λ some_left. OnOk-bind_eq (cost_total kept) λ cost ec.
                  OnOk-bind_eq (abs size) λ n en. OnOk-bind_eq (div cost n) λ avg ea.
                    kept-Left traded held size avg realized kept under (
                      subst (λ b. Averages b size kept avg) (sym some_left)
                        (cost, ec, n, en, ea)))))

    pub close_trade-Reduced :
        (p : Position) (delta : Money)
        → OnOk
            (Reduced side quantity price at lot_id multiplier delta p)
            (close_trade account p i side price at lot_id multiplier delta)
    unfolding close_trade
    close_trade-Reduced p delta = OnOk-bind_eq (abs delta) λ traded et.
        OnOk-bind_eq (abs p.quantity) λ held eh.
          OnOk-bind_eq
            (consume_lots p.open_lots (if lt held traded then held else traded) price multiplier)
            λ c ec. OnOk-bind_eq (add p.realized_pnl c.1) λ realized er.
              OnOk-bind_eq (add p.quantity delta) λ size es.
                OnOk-of
                  (close_rest account i side price at lot_id delta p.quantity size realized c.0)
                  λ t e.
                    let l =
                      OnOk-ok (close_rest-Left delta p.quantity size realized traded held c.0 et eh)
                        e in
                    let (pieces, closes, earns) =
                      OnOk-ok
                        (consume_lots-Closes p.open_lots (if lt held traded then held else traded)
                          price multiplier)
                        ec in
                    record {
                      size = es ∙ ap ok (sym l.quantity_is);
                      traded = traded;
                      held = held;
                      traded_is = et;
                      held_is = eh;
                      kept = c.0;
                      pieces = pieces;
                      closes = closes;
                      earned = c.1;
                      earns = earns;
                      realized = er ∙ ap ok (sym l.pnl);
                      left = l.left;
                    }
