-- ===== src/Ledger/Trade.antt =====
-- The effect of one trade on a position: `apply_trade`, `multiplier` and `combo_leg` of
-- crates/te_core/src/ledger/fold.rs.
pub mod Balanced
pub mod Kinds
pub mod Parts
pub mod Traded
use Prim.Native.Char.{Char, code}
use trade_engine.Base.{
  ℕ, zero, suc, ◌+◌, ◌-◌, ◌*◌, Bool, true, false, not, ◌&&◌, Option, none, some, List, [], ◌∷◌,
  ◌++◌, String, Result, ok, err, ◌>>=◌, ◌>>◌, err_if, str_eq, bool_eq, ltb, leb, if◌then◌else◌,
}
use trade_engine.Base.Int.{ℤ, pos, eq_ℤ}
use trade_engine.Money.Decimal.{Money, zero_money}
use trade_engine.Money.Order.{Decimals, eq, lt, le, gt}
use trade_engine.Ledger.Errors.{LErr, R, add, sub, mul, div, neg, abs}
use trade_engine.Ledger.Model.{
  Side, buy, sell, DateTime, Instrument, equity, option, combo, future, Legs, none_left, leg, Lot,
  Order, Fill, side_eq, same,
}
use trade_engine.Ledger.Lots.{
  Position, signed_quantity, cost_total, make_lot, make_position, consume_lots,
}

module _ ⦃d : Decimals⦄ where
  -- A trade on no position, or on a flat one: a single lot at the price.
  unfoldable pub open_trade :
      String
      → Option Position
      → Instrument
      → Side
      → Money
      → Money
      → DateTime
      → String
      → Money
      → R Position
  open_trade account position instrument side quantity price at lot_id delta =
      let carried : Money = elim position [ none ↦ zero_money | some p ↦ p.realized_pnl ] in
      do
        lot ← make_lot lot_id quantity price at side
        make_position account instrument delta price carried (lot ∷ [])

  -- A trade in the direction of the position: one more lot, the average cost weighted.
  unfoldable pub increase_trade :
      String → Position → Instrument → Side → Money → Money → DateTime → String → Money → R Position
  increase_trade account p instrument side quantity price at lot_id delta = do
    new_qty ← add p.quantity delta
    lot ← make_lot lot_id quantity price at side
    old_size ← abs p.quantity
    old_cost ← mul p.avg_cost old_size
    cost ← mul price quantity
    weighted ← add old_cost cost
    size ← abs new_qty
    new_avg ← div weighted size
    make_position account instrument new_qty new_avg p.realized_pnl (p.open_lots ++ lot ∷ [])

  -- What is left of a position after a closing trade: flipped, flat or smaller.
  unfoldable pub close_rest :
      String
      → Instrument
      → Side
      → Money
      → DateTime
      → String
      → Money
      → Money
      → Money
      → Money
      → List Lot
      → R Position
  close_rest account instrument side price at lot_id delta old_qty new_qty realized kept =
      let flip = (do
        a ← abs delta
        b ← abs old_qty
        flip_qty ← sub a b
        lot ← make_lot lot_id flip_qty price at side
        make_position account instrument new_qty price realized (lot ∷ [])) in
      let flat = make_position account instrument new_qty zero_money realized kept in
      let smaller = (do
        cost ← cost_total kept
        size ← abs new_qty
        new_avg ← div cost size
        make_position account instrument new_qty new_avg realized kept) in
      do
        a ← abs delta
        b ← abs old_qty
        (if gt a b then flip else if eq new_qty zero_money then flat else smaller)

  -- A trade against the position: lots are consumed from the oldest.
  unfoldable pub close_trade :
      String → Position → Instrument → Side → Money → DateTime → String → ℤ → Money → R Position
  unfolding close_rest
  close_trade account p instrument side price at lot_id multiplier delta = do
    a ← abs delta
    b ← abs p.quantity
    let closing = if lt b a then b else a
    (kept, close_pnl) ← consume_lots p.open_lots closing price multiplier
    realized ← add p.realized_pnl close_pnl
    new_qty ← add p.quantity delta
    close_rest account instrument side price at lot_id delta p.quantity new_qty realized kept

  unfoldable pub trade_on :
      String
      → Position
      → Instrument
      → Side
      → Money
      → Money
      → DateTime
      → String
      → ℤ
      → Money
      → R Position
  unfolding open_trade increase_trade close_trade
  trade_on account p instrument side quantity price at lot_id multiplier delta =
      let fresh = open_trade account (some p) instrument side quantity price at lot_id delta in
      let more = increase_trade account p instrument side quantity price at lot_id delta in
      let less = close_trade account p instrument side price at lot_id multiplier delta in
      if eq p.quantity zero_money
      then fresh
      else if bool_eq (gt p.quantity zero_money) (gt delta zero_money)
      then more
      else less

  unfoldable pub apply_trade :
      String
      → Option Position
      → Instrument
      → Side
      → Money
      → Money
      → DateTime
      → String
      → ℤ
      → R Position
  unfolding open_trade trade_on signed_quantity
  apply_trade account none instrument side quantity price at lot_id multiplier = do
    delta ← signed_quantity side quantity
    open_trade account none instrument side quantity price at lot_id delta
  apply_trade account (some p) instrument side quantity price at lot_id multiplier = do
    delta ← signed_quantity side quantity
    trade_on account p instrument side quantity price at lot_id multiplier delta

-- The shared multiplier of the legs; an empty or mixed list has none.
unfoldable mutual
  pub multiplier : Instrument → R ℤ
  multiplier (equity s) = ok (pos 1)
  multiplier (option c) = ok c.multiplier
  multiplier (combo none_left) = err LErr.fold
  multiplier (combo (leg i r s rest)) = do m ← multiplier i; shared m rest
  multiplier (future f) = err LErr.fold

  pub shared : ℤ → Legs → R ℤ
  shared m none_left = ok m
  shared m (leg i r s rest) = do
    n ← multiplier i
    k ← shared m rest
    (if eq_ℤ n k then ok k else err LErr.fold)
