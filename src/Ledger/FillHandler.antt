-- ===== src/Ledger/FillHandler.antt =====
-- `combo_leg` and `on_fill` of crates/te_core/src/ledger/fold.rs. The checks of finiteness always
-- pass on a `Money` and are left out.
pub mod Steps
pub mod Effect
pub mod Within
use Prim.Native.Char.{Char, code}
use trade_engine.Base.{
  ℕ, zero, suc, ◌+◌, ◌-◌, ◌*◌, Bool, true, false, not, ◌&&◌, ◌||◌, Option, none, some, List, [],
  ◌∷◌, ◌++◌, String, Result, ok, err, ◌>>=◌, ◌>>◌, err_if, ok_or, ltb, leb, if◌then◌else◌,
}
use trade_engine.Base.Int.{ℤ, pos, negsuc}
use trade_engine.Money.Decimal.{Money, zero_money}
use trade_engine.Money.Order.{Decimals, lt, gt, ge}
use trade_engine.Ledger.Errors.{LErr, R, add, sub, mul, mul_i, div_i, neg}
use trade_engine.Ledger.Dict.{Dict, get, insert, put}
use trade_engine.Ledger.Keys.{hk, leg_hk}
use trade_engine.Ledger.Model.{
  Side, buy, sell, Instrument, equity, option, combo, future, Legs, none_left, leg, Order,
  OrderState, filled, partially_filled, cancelled, expired, rejected, Fill, side_eq, state_eq, same,
}
use trade_engine.Ledger.OrderFsm.{transition_to}
use trade_engine.Ledger.Lots.{Position}
use trade_engine.Ledger.Trade.{apply_trade, multiplier}
use trade_engine.Ledger.State.{AccountState, member, set_insert}

-- `py_isdigit` and the parse: ASCII digits only; anything else names no leg.
digits_value : String → ℕ → Option ℕ
digits_value String.[] n = some n
digits_value (String.◌∷◌ c s) n =
    let rest = digits_value s (n * 10 + (code c - b'0')) in
    if leb b'0' (code c) && leb (code c) b'9' then rest else none

unfoldable pub leg_index : Option String → Option ℕ
unfolding digits_value
leg_index none = none
leg_index (some String.[]) = none
leg_index (some (String.◌∷◌ c s)) = digits_value (String.◌∷◌ c s) 0

-- A leg of a combo as the source's `ComboLeg`.
pub record ComboLeg : Type 0 where
  pub contract : Instrument
  pub ratio : ℤ
  pub side : Side

unfoldable pub leg_at : Legs → ℕ → Option ComboLeg
leg_at none_left n = none
leg_at (leg i r s rest) zero = some (record { contract = i; ratio = r; side = s })
leg_at (leg i r s rest) (suc n) = leg_at rest n

abbrev pub get_or {ℓ} : {A : Type ℓ} → A → Option A → A
get_or a none = a
get_or a (some b) = b

unfoldable pub legs_of : Instrument → Legs
legs_of (combo legs) = legs
legs_of i = none_left

abbrev pub prior_realized : Option Position → Money
prior_realized none = zero_money
prior_realized (some p) = p.realized_pnl

unfoldable pub is_dead : OrderState → Bool
is_dead cancelled = true
is_dead expired = true
is_dead rejected = true
is_dead s = false

unfoldable pub signed_gross : Side → Money → R Money
signed_gross sell gross = ok gross
signed_gross buy gross = neg gross

-- What the fill does to the cash: its signed gross less the fee.
unfoldable pub cash_change : Fill → ℤ → R Money
unfolding signed_gross
cash_change f mult = do
  notional ← mul f.quantity f.price
  gross ← mul_i notional mult
  signed ← signed_gross f.side gross
  sub signed f.fee

module _ ⦃d : Decimals⦄ where
  abbrev pub smaller : Money → Option Money → Money
  smaller units none = units
  smaller units (some b) = if lt units b then units else b

  unfoldable pub combo_leg_of : Legs → Option ℕ → Fill → R (ℕ × ComboLeg)
  unfolding leg_at
  combo_leg_of legs none f = err LErr.fill_mismatch
  combo_leg_of legs (some index) f = do
    l ← ok_or (leg_at legs index) LErr.fill_mismatch
    err_if (not (same f.instrument l.contract)) LErr.fill_mismatch
    err_if (not (side_eq f.side l.side)) LErr.fill_mismatch
    ok (index, l)

  -- The leg that a fill of a combo order names; the order's own terms for any other order.
  unfoldable pub matched_leg : Instrument → Order → Fill → R (Option (ℕ × ComboLeg))
  unfolding combo_leg_of leg_index
  matched_leg (combo legs) o f = do l ← combo_leg_of legs (leg_index f.leg_id) f; ok (some l)
  matched_leg i o f = do
    err_if (not (same f.instrument i)) LErr.fill_mismatch
    err_if (not (side_eq f.side o.side)) LErr.fill_mismatch
    ok none

  -- The quantity filled so far in units of the combo: the least over its legs, in the given order.
  unfoldable pub least_units :
      Dict (String × ℤ) Money → String → Legs → ℕ → Option Money → R (Option Money)
  least_units counts order_id none_left index best = ok best
  least_units counts order_id (leg i ratio s rest) index best = do
    units ← div_i (get_or zero_money (get (leg_hk order_id (pos index)) counts)) ratio
    least_units counts order_id rest (index + 1) (some (smaller units best))

  -- The leg's own count, which must stay within the ordered ratio, and the combo's.
  unfoldable pub fill_leg : AccountState → Order → Fill → ℕ → ComboLeg → R AccountState
  unfolding least_units legs_of
  fill_leg st o f index l =
      let key = leg_hk f.order_id (pos index) in
      do
        now ← add (get_or zero_money (get key st.leg_filled)) f.quantity
        let counted = insert key (f.order_id, pos index) now st.leg_filled
        ordered ← mul_i o.quantity l.ratio
        err_if (gt now ordered) LErr.fold
        best ← least_units counted f.order_id (legs_of o.instrument) 0 none
        units ← ok_or best LErr.value
        ok (record st {
          leg_filled = counted;
          filled_quantity = put f.order_id units st.filled_quantity;
        })

  unfoldable pub fill_quantity :
      AccountState → Order → Fill → Option (ℕ × ComboLeg) → R AccountState
  unfolding fill_leg
  fill_quantity st o f none = do
    total ← add (get_or zero_money (get f.order_id st.filled_quantity)) f.quantity
    ok (record st { filled_quantity = put f.order_id total st.filled_quantity })
  fill_quantity st o f (some (index, l)) = fill_leg st o f index l

  -- The fill's effect on its position; the fee comes out of the realized result.
  unfoldable pub fill_position : AccountState → Fill → ℤ → R (Position × Money)
  fill_position st f mult =
      let position = get (hk f.instrument) st.positions in
      do
        traded ←
            apply_trade st.account_id position f.instrument f.side f.quantity f.price f.filled_at
              f.fill_id mult
        realized ← sub traded.realized_pnl f.fee
        ok (record traded { realized_pnl = realized }, prior_realized position)

  -- The order's state after the fill: FILLED at its quantity, partly filled below it.
  unfoldable pub move_order : AccountState → Order → Fill → Money → R AccountState
  move_order st o f total =
      let next = if ge total o.quantity then filled else partially_filled in
      let moved = (do
        m ← transition_to o next
        ok (record st { orders = put f.order_id m st.orders })) in
      if state_eq o.state filled || state_eq next o.state then ok st else moved

  -- The checks after the counts: no over-fill, and no fill of an order that ended otherwise.
  unfoldable pub settle_order : AccountState → Order → Fill → R AccountState
  unfolding move_order is_dead
  settle_order st o f =
      let total = get_or zero_money (get f.order_id st.filled_quantity) in
      do
        err_if (gt total o.quantity) LErr.fold
        err_if (is_dead o.state) LErr.fold
        move_order st o f total

  unfoldable pub on_fill : AccountState → Fill → R AccountState
  unfolding cash_change fill_position fill_quantity settle_order
  on_fill st f = do
    o ← ok_or (get f.order_id st.orders) LErr.fold
    l ← matched_leg o.instrument o f
    err_if (member f.fill_id st.fill_ids) LErr.duplicate_fill
    mult ← multiplier f.instrument
    delta ← cash_change f mult
    (position, prior) ← fill_position st f mult
    let booked = record st {
      positions = insert (hk f.instrument) f.instrument position st.positions;
    }
    counted ← fill_quantity booked o f l
    moved ← settle_order counted o f
    cash ← add moved.cash delta
    gained ← sub position.realized_pnl prior
    realized ← add moved.realized_pnl gained
    ok (record moved {
      cash = cash;
      realized_pnl = realized;
      fills = moved.fills ++ f ∷ [];
      fill_ids = set_insert f.fill_id moved.fill_ids;
    })
