-- ===== src/Ledger/Lots.antt =====
-- Lots, positions and the effect of one trade (crates/te_core/src/ledger/fold.rs; `make_lot` in
-- crates/te_core/src/ledger/model.rs).
pub mod Closing
pub mod Taking
use trade_engine.Base.{List, [], ◌∷◌, ◌++◌, String, ok, ◌>>=◌, ◌>>◌, err_if, str_eq, if◌then◌else◌}
use trade_engine.Base.Int.{ℤ}
use trade_engine.Money.Decimal.{Money, zero_money}
use trade_engine.Money.Order.{Decimals, lt, le}
use trade_engine.Ledger.Errors.{LErr, R, add, sub, mul, mul_i, div, neg, abs, ne}
use trade_engine.Ledger.Model.{Side, buy, sell, DateTime, Instrument, Lot}

pub record Position : Type 0 where
  pub account_id : String
  pub instrument : Instrument
  pub quantity : Money
  pub avg_cost : Money
  pub realized_pnl : Money
  pub open_lots : List Lot

-- A quantity with the sign of its side.
unfoldable pub signed_quantity : Side → Money → R Money
signed_quantity buy q = ok q
signed_quantity sell q = neg q

signed_total_from : Money → List Lot → R Money
unfolding signed_quantity
signed_total_from total [] = ok total
signed_total_from total (l ∷ ls) = do
  q ← signed_quantity l.side l.quantity
  t ← add total q
  signed_total_from t ls

unfoldable pub signed_total : List Lot → R Money
unfolding signed_total_from
signed_total ls = signed_total_from zero_money ls

cost_total_from : Money → List Lot → R Money
cost_total_from total [] = ok total
cost_total_from total (l ∷ ls) = do
  c ← mul l.cost_basis l.quantity
  t ← add total c
  cost_total_from t ls

unfoldable pub cost_total : List Lot → R Money
unfolding cost_total_from
cost_total ls = cost_total_from zero_money ls

module _ ⦃d : Decimals⦄ where
  unfoldable pub make_lot : String → Money → Money → DateTime → Side → R Lot
  make_lot lot_id quantity cost_basis acquired_at side = do
    err_if (str_eq lot_id "") LErr.value
    err_if (le quantity zero_money) LErr.value
    err_if (le cost_basis zero_money) LErr.value
    ok (record {
      lot_id = lot_id;
      quantity = quantity;
      cost_basis = cost_basis;
      acquired_at = acquired_at;
      side = side;
    })

  unfoldable pub check_lots : List Lot → Money → R (Unit {0})
  check_lots [] quantity = ok tt
  check_lots (l ∷ ls) quantity = do
    signed ← signed_total (l ∷ ls)
    err_if (ne signed quantity) LErr.value

  -- `Position.__post_init__`: open lots must add up to the quantity (I2).
  unfoldable pub make_position : String → Instrument → Money → Money → Money → List Lot → R Position
  unfolding check_lots
  make_position account_id instrument quantity avg_cost realized lots =
      let position : Position = record {
        account_id = account_id;
        instrument = instrument;
        quantity = quantity;
        avg_cost = avg_cost;
        realized_pnl = realized;
        open_lots = lots;
      } in
      do err_if (str_eq account_id "") LErr.value; check_lots lots quantity; ok position

  unfoldable pub lot_with : Lot → Money → R Lot
  unfolding make_lot
  lot_with l quantity = make_lot l.lot_id quantity l.cost_basis l.acquired_at l.side

  -- The gain per unit of a lot that is closed at a price.
  unfoldable pub gain_per_unit : Side → Money → Money → R Money
  gain_per_unit buy exit_price cost = sub exit_price cost
  gain_per_unit sell exit_price cost = sub cost exit_price

  unfoldable pub realized_with : Lot → Money → Money → ℤ → Money → R Money
  unfolding gain_per_unit
  realized_with l exit_price closed multiplier realized = do
    per ← gain_per_unit l.side exit_price l.cost_basis
    gross ← mul per closed
    whole ← mul_i gross multiplier
    add realized whole

  -- The loop of `consume_lots`: what remains to close, what is kept (oldest first), what is realized.
  unfoldable pub consume_from :
      List Lot → Money → ℤ → Money → List Lot → Money → R (Money × List Lot × Money)
  unfolding lot_with realized_with
  consume_from [] exit_price multiplier remaining kept realized = ok (remaining, kept, realized)
  consume_from (l ∷ ls) exit_price multiplier remaining kept realized =
      let skip = consume_from ls exit_price multiplier remaining (kept ++ l ∷ []) realized in
      let whole = (do
        left ← sub remaining l.quantity
        r ← realized_with l exit_price l.quantity multiplier realized
        consume_from ls exit_price multiplier left kept r) in
      let part = (do
        rest ← sub l.quantity remaining
        cut ← lot_with l rest
        r ← realized_with l exit_price remaining multiplier realized
        consume_from ls exit_price multiplier zero_money (kept ++ cut ∷ []) r) in
      if le remaining zero_money then skip else if le l.quantity remaining then whole else part

  unfoldable pub consume_lots : List Lot → Money → Money → ℤ → R (List Lot × Money)
  unfolding consume_from
  consume_lots lots quantity exit_price multiplier = do
    r ← consume_from lots exit_price multiplier quantity [] zero_money
    err_if (ne r.0 zero_money) LErr.fold
    ok (r.1, r.2)

  -- The loop of `take_lots`: what remains to take, what is kept, what is taken.
  unfoldable pub take_from :
      List Lot → Money → List Lot → List Lot → R (Money × List Lot × List Lot)
  unfolding lot_with
  take_from [] remaining kept taken = ok (remaining, kept, taken)
  take_from (l ∷ ls) remaining kept taken =
      let skip = take_from ls remaining (kept ++ l ∷ []) taken in
      let part = if lt remaining l.quantity then remaining else l.quantity in
      let split = (do
        moved ← lot_with l part
        kept' ←
            (if lt part l.quantity
              then (do rest ← sub l.quantity part; cut ← lot_with l rest; ok (kept ++ cut ∷ []))
              else ok kept)
        left ← sub remaining part
        take_from ls left kept' (taken ++ moved ∷ [])) in
      if le remaining zero_money then skip else split

  unfoldable pub take_lots : List Lot → Money → R (List Lot × List Lot)
  unfolding take_from
  take_lots lots quantity = do
    r ← take_from lots quantity [] []
    err_if (ne r.0 zero_money) LErr.fold
    ok (r.1, r.2)

  unfoldable pub remaining_position : Position → List Lot → Money → R Position
  unfolding make_position signed_total cost_total
  remaining_position p lots realized = do
    quantity ← signed_total lots
    avg ←
        (if ne quantity zero_money
          then (do cost ← cost_total lots; size ← abs quantity; div cost size)
          else ok zero_money)
    make_position p.account_id p.instrument quantity avg realized lots
