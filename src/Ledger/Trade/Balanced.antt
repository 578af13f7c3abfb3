-- ===== src/Ledger/Trade/Balanced.antt =====
-- The lots of a position add up to its quantity (`Position` and `apply_trade` of
-- crates/te_core/src/ledger/fold.rs).
use trade_engine.Base.{
  ◌≡◌, refl, Bool, true, false, not, Option, none, some, List, [], ◌∷◌, String, ok, err_if, str_eq,
}
use trade_engine.Base.Int.{ℤ}
use trade_engine.Base.OnOk.{
  OnOk, holds, fails, OnOk-if, OnOk-ok, OnOk-bind, OnOk-bind_eq, OnOk-err_if,
}
use trade_engine.Money.Decimal.{Money}
use trade_engine.Money.Order.{Decimals, eq}
use trade_engine.Ledger.Errors.{LErr, ne}
use trade_engine.Ledger.Model.{Side, DateTime, Instrument, Lot}
use trade_engine.Ledger.Lots.{Position, signed_total, check_lots, make_position}
use trade_engine.Ledger.Trade.{
  open_trade, increase_trade, close_rest, close_trade, trade_on, apply_trade,
}

module _ ⦃d : Decimals⦄ where
  -- The signed quantities of the lots, added up in their order, are the quantity by value.
  abbrev pub Balances : List Lot → Money → Type 0
  Balances [] quantity = Unit {0}
  Balances (l ∷ ls) quantity =
      (signed : Money) × (signed_total (l ∷ ls) ≡ ok signed) × (eq signed quantity ≡ true)

  abbrev pub IsBalanced : Position → Type 0
  IsBalanced p = Balances p.open_lots p.quantity

  check_lots-Balances :
      (lots : List Lot) (quantity : Money)
      → OnOk (λ u. Balances lots quantity) (check_lots lots quantity)
  unfolding check_lots ne
  check_lots-Balances [] quantity = holds tt
  check_lots-Balances (l ∷ ls) quantity =
      OnOk-bind_eq (signed_total (l ∷ ls)) λ signed e. equal signed e (eq signed quantity) refl
    where
      equal :
          (signed : Money)
          → signed_total (l ∷ ls) ≡ ok signed
          → (b : Bool) → eq signed quantity ≡ b
          → OnOk (λ u. Balances (l ∷ ls) quantity) (err_if (not b) LErr.value)
      equal signed e true h = holds (signed, e, h)
      equal signed e false h = fails

  pub make_position-IsBalanced :
      (account : String) (i : Instrument) (quantity avg realized : Money) (lots : List Lot)
      → OnOk IsBalanced (make_position account i quantity avg realized lots)
  unfolding make_position
  make_position-IsBalanced account i quantity avg realized lots =
      OnOk-err_if (str_eq account "") LErr.value λ named.
        OnOk-bind_eq (check_lots lots quantity)
          λ u e. holds (OnOk-ok (check_lots-Balances lots quantity) e)

  open_trade-IsBalanced :
      (account : String) (p : Option Position) (i : Instrument) (side : Side)
      (quantity price : Money) (at : DateTime) (lot_id : String) (delta : Money)
      → OnOk IsBalanced (open_trade account p i side quantity price at lot_id delta)
  unfolding open_trade
  open_trade-IsBalanced account p i side quantity price at lot_id delta =
      search (OnOk-bind, make_position-IsBalanced) depth 6

  increase_trade-IsBalanced :
      (account : String) (p : Position) (i : Instrument) (side : Side) (quantity price : Money)
      (at : DateTime) (lot_id : String) (delta : Money)
      → OnOk IsBalanced (increase_trade account p i side quantity price at lot_id delta)
  unfolding increase_trade
  increase_trade-IsBalanced account p i side quantity price at lot_id delta =
      search (OnOk-bind, make_position-IsBalanced) depth 10

  close_rest-IsBalanced :
      (account : String) (i : Instrument) (side : Side) (price : Money) (at : DateTime)
      (lot_id : String) (delta old new realized : Money) (kept : List Lot)
      → OnOk IsBalanced (close_rest account i side price at lot_id delta old new realized kept)
  unfolding close_rest
  close_rest-IsBalanced account i side price at lot_id delta old new realized kept =
      search (OnOk-bind, OnOk-if, make_position-IsBalanced) depth 10

  close_trade-IsBalanced :
      (account : String) (p : Position) (i : Instrument) (side : Side) (price : Money)
      (at : DateTime) (lot_id : String) (mult : ℤ) (delta : Money)
      → OnOk IsBalanced (close_trade account p i side price at lot_id mult delta)
  unfolding close_trade
  close_trade-IsBalanced account p i side price at lot_id mult delta =
      search (OnOk-bind, close_rest-IsBalanced) depth 10

  -- Whatever trade is applied to whatever position, no position or a flat one included: if it is
  -- not refused, the signed lots of the position it returns add up to its quantity, unless it
  -- returns no lots.
  pub apply_trade-IsBalanced :
      (account : String) (p : Option Position) (i : Instrument) (side : Side)
      (quantity price : Money) (at : DateTime) (lot_id : String) (mult : ℤ)
      → OnOk IsBalanced (apply_trade account p i side quantity price at lot_id mult)
  unfolding apply_trade trade_on
  apply_trade-IsBalanced account none i side quantity price at lot_id mult =
      search (OnOk-bind, open_trade-IsBalanced) depth 6
  apply_trade-IsBalanced account (some p) i side quantity price at lot_id mult =
      search
        (
          OnOk-bind, OnOk-if, open_trade-IsBalanced, increase_trade-IsBalanced,
          close_trade-IsBalanced,
        )
        depth 6
