-- ===== src/Ledger/Lifecycle.antt =====
-- Expiry, exercise and assignment of option lots: `on_lifecycle` of
-- crates/te_core/src/ledger/fold.rs, and `OptionLifecycle` and `DateTime::iso` of ledger/model.rs.
pub mod Settled
pub mod Balanced
pub mod Outcome
pub mod Effects
pub mod InCash
pub mod InShares
pub mod Booked
use Prim.Native.String
use trade_engine.Base.{
  ℕ, suc, ◌+◌, ◌/◌, ◌%◌, Bool, true, false, not, ◌&&◌, ◌||◌, Option, none, some, List, [], ◌∷◌,
  String, Result, ok, err, ◌>>=◌, ◌>>◌, err_if, ok_or, map_err, ◌==◌, if◌then◌else◌,
}
use trade_engine.Base.Int.{ℤ, pos, negsuc, pos_part, neg_part}
use trade_engine.Base.Text.{pad}
use trade_engine.Money.Decimal.{Money, zero_money}
use trade_engine.Money.Order.{Decimals, eq, lt, gt, ge}
use trade_engine.Money.Literal.{try_parse}
use trade_engine.Money.Spelling.{canon}
use trade_engine.Ledger.Errors.{LErr, R, derr, add, sub, mul, mul_i, abs}
use trade_engine.Ledger.Dict.{Dict, get, insert}
use trade_engine.Ledger.Keys.{hk}
use trade_engine.Ledger.Model.{
  EventKind, expiry, exercise, assignment, Side, buy, sell, DateTime, Instrument, equity, option,
  OptionContract, Lot, side_eq,
}
use trade_engine.Ledger.Lots.{Position, consume_lots, take_lots, remaining_position}
use trade_engine.Ledger.Trade.{apply_trade, multiplier}
use trade_engine.Ledger.State.{AccountState}
use trade_engine.Options.{OptionError, unresolvable, oerr, ContractWire, wire, occ, equity_symbol}
use trade_engine.Options.Lifecycle.{
  threshold, intrinsic, is_cash_settled, can_exercise_early, deliverable, delivery,
}

pub record OptionLifecycle : Type 0 where
  pub account_id : String
  pub contract : OptionContract
  pub quantity : Money
  pub held : Side
  pub underlying_price : Money
  pub price_source : String
  pub as_of : DateTime
  pub reason : String
  pub early : Bool

unfoldable pub is_expiry : EventKind → Bool
is_expiry expiry = true
is_expiry k = false

unfoldable pub is_exercise : EventKind → Bool
is_exercise exercise = true
is_exercise k = false

-- `kind.value()` of the three kinds.
unfoldable pub kind_value : EventKind → String
kind_value expiry = "Expiry"
kind_value exercise = "Exercise"
kind_value k = "Assignment"

-- Any other error is left as it is.
unfoldable pub lifecycle_wrap : OptionError → LErr
unfolding oerr
lifecycle_wrap OptionError.value = LErr.fold
lifecycle_wrap unresolvable = LErr.fold
lifecycle_wrap e = oerr e

unfoldable pub only_value : LErr → LErr
only_value LErr.value = LErr.fold
only_value e = e

-- What an event has settled so far: `cash` and `realized` of the function, and the positions.
pub record Settling : Type 0 where
  pub positions : Dict Instrument Position
  pub cash : Money
  pub realized : Money

module _ ⦃d : Decimals⦄ where
  -- `DateTime::iso`
  unfoldable pub iso : DateTime → String
  unfolding pad
  iso t =
      let (y, m, day) = d.year_month_day t.days in
      let date =
        String.◌++◌ (pad 4 y)
          (String.◌++◌ "-" (String.◌++◌ (pad 2 m) (String.◌++◌ "-" (pad 2 day)))) in
      let time = String.◌++◌ (pad 2 (t.sod / 3600)) (
        String.◌++◌ ":"
          (String.◌++◌ (pad 2 (t.sod % 3600 / 60)) (String.◌++◌ ":" (pad 2 (t.sod % 60))))) in
      let micros = if t.us == 0 then "" else String.◌++◌ "." (pad 6 t.us) in
      let a = pos_part t.off + neg_part t.off in
      let sign = if neg_part t.off == 0 then "+" else "-" in
      let offset = String.◌++◌ (pad 2 (a / 3600)) (String.◌++◌ ":" (pad 2 (a % 3600 / 60))) in
      let seconds = if a % 60 == 0 then "" else String.◌++◌ ":" (pad 2 (a % 60)) in
      String.◌++◌ date (
        String.◌++◌ "T"
          (String.◌++◌ time (String.◌++◌ micros (String.◌++◌ sign (String.◌++◌ offset seconds)))))

  unfoldable pub held_side : Position → Side
  held_side p = if gt p.quantity zero_money then buy else sell

  -- An open position in the contract, or a refusal.
  unfoldable pub open_position : AccountState → OptionLifecycle → R Position
  open_position st n = do
    p ← ok_or (get (hk (option n.contract)) st.positions) LErr.fold
    err_if (eq p.quantity zero_money) LErr.fold
    ok p

  -- Whether the event may happen: an expiry out of the money and not early, an exercise or an
  -- assignment in the money, of the right side, and early only where the style allows it.
  unfoldable pub check_event : EventKind → OptionLifecycle → Side → Money → Bool → R (Unit {0})
  unfolding is_expiry is_exercise
  check_event k n held value american =
      let wanted = if is_exercise k then buy else sell in
      let expires = err_if n.early LErr.fold >> err_if (ge value threshold) LErr.fold in
      let settles =
        err_if (not (side_eq held wanted)) LErr.fold
        >> (err_if (lt value threshold) LErr.fold >> err_if (n.early && not american) LErr.fold) in
      if is_expiry k then expires else settles

  -- Lots closed at the exit price, in cash.
  unfoldable pub close_lots : AccountState → OptionLifecycle → Position → Money → R Settling
  unfolding consume_lots remaining_position held_side
  close_lots st n p exit_price =
      let instrument = option n.contract in
      do
        (kept, closed_pnl) ← consume_lots p.open_lots n.quantity exit_price n.contract.multiplier
        realized ← add zero_money closed_pnl
        total ← add p.realized_pnl closed_pnl
        rem ← remaining_position p kept total
        gross ← mul exit_price n.quantity
        amount ← mul_i gross n.contract.multiplier
        cash ← (if side_eq (held_side p) buy then add st.cash amount else sub st.cash amount)
        ok (record {
          positions = insert (hk instrument) instrument rem st.positions;
          cash = cash;
          realized = realized;
        })

  abbrev pub realized_before : Option Position → Money
  realized_before none = zero_money
  realized_before (some p) = p.realized_pnl

  -- The id of the lot of shares.
  unfoldable pub lot_name : OptionLifecycle → EventKind → Lot → String
  unfolding kind_value iso
  lot_name n k l =
      String.◌++◌ (kind_value k)
        (String.◌++◌ ":" (String.◌++◌ (iso n.as_of) (String.◌++◌ ":" l.lot_id)))

  -- The share trade of one lot that is taken.
  unfoldable pub deliver_lot :
      AccountState → OptionLifecycle → EventKind → Side → Instrument → Settling → Lot → R Settling
  unfolding lot_name only_value oerr delivery apply_trade multiplier
  deliver_lot st n k held shares_instrument s l =
      let key = hk shares_instrument in
      let before = get key s.positions in
      do
        (buys, price_text) ←
            map_err (λ e. only_value (oerr e))
              (delivery (wire n.contract) (side_eq held buy) (canon l.cost_basis))
        price ← map_err (λ e. LErr.value) (try_parse price_text)
        shares ← mul_i l.quantity n.contract.multiplier
        each ← multiplier shares_instrument
        let side = if buys then buy else sell
        updated ←
            apply_trade st.account_id before shares_instrument side shares price n.as_of
              (lot_name n k l) each
        gained ← sub updated.realized_pnl (realized_before before)
        realized ← add s.realized gained
        paid ← mul n.contract.strike shares
        cash ← (if buys then sub s.cash paid else add s.cash paid)
        ok (record {
          positions = insert key shares_instrument updated s.positions;
          cash = cash;
          realized = realized;
        })

  unfoldable pub deliver_all :
      AccountState
      → OptionLifecycle
      → EventKind
      → Side
      → Instrument
      → Settling
      → List Lot
      → R Settling
  unfolding deliver_lot
  deliver_all st n k held shares s [] = ok s
  deliver_all st n k held shares s (l ∷ ls) = do
    s' ← deliver_lot st n k held shares s l
    deliver_all st n k held shares s' ls

  -- Lots taken out of the option and delivered as shares.
  unfoldable pub deliver_lots : AccountState → OptionLifecycle → EventKind → Position → R Settling
  unfolding take_lots remaining_position deliverable equity_symbol only_value oerr deliver_all
      held_side
  deliver_lots st n k p =
      let instrument = option n.contract in
      do
        (kept, taken) ← take_lots p.open_lots n.quantity
        rem ← remaining_position p kept p.realized_pnl
        symbol ← map_err (λ e. only_value (oerr e)) (deliverable (wire n.contract))
        shares ← map_err (λ e. only_value (oerr e)) (equity_symbol symbol)
        let start : Settling = record {
          positions = insert (hk instrument) instrument rem st.positions;
          cash = st.cash;
          realized = zero_money;
        }
        deliver_all st n k (held_side p) (equity shares) start taken

  unfoldable pub settle_lots :
      AccountState → OptionLifecycle → EventKind → Position → Money → Bool → R Settling
  unfolding is_expiry close_lots deliver_lots
  settle_lots st n k p value cash_settled =
      if is_expiry k || cash_settled
      then close_lots st n p (if is_expiry k then zero_money else value)
      else deliver_lots st n k p

  unfoldable pub on_lifecycle : AccountState → OptionLifecycle → EventKind → R AccountState
  unfolding open_position check_event settle_lots held_side lifecycle_wrap oerr
  on_lifecycle st n k = do
    symbol ← map_err oerr (occ (wire n.contract))
    p ← open_position st n
    err_if (not (side_eq (held_side p) n.held)) LErr.fold
    held_abs ← abs p.quantity
    err_if (gt n.quantity held_abs) LErr.fold
    value_text ← map_err lifecycle_wrap (intrinsic (wire n.contract) (canon n.underlying_price))
    value ← map_err (λ e. LErr.value) (try_parse value_text)
    cash_settled ← map_err lifecycle_wrap (is_cash_settled (wire n.contract))
    american ← map_err lifecycle_wrap (can_exercise_early (wire n.contract))
    check_event k n (held_side p) value american
    s ← settle_lots st n k p value cash_settled
    realized ← add st.realized_pnl s.realized
    ok (record st { positions = s.positions; cash = s.cash; realized_pnl = realized })
