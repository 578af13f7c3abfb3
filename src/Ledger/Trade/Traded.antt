-- ===== src/Ledger/Trade/Traded.antt =====
-- What a trade makes of a position (`apply_trade` of crates/te_core/src/ledger/fold.rs).
use trade_engine.Base.{
  ◌≡◌, sym, subst, false, bool_eq, Option, none, some, String, ok, ok-injective, >>=-eq-ok,
  if◌then◌else◌,
}
use trade_engine.Base.Int.{ℤ}
use trade_engine.Base.OnOk.{OnOk, OnOk-if_eq, OnOk-ok}
use trade_engine.Money.Decimal.{Money, zero_money}
use trade_engine.Money.Order.{Decimals, eq, gt}
use trade_engine.Ledger.Model.{Side, buy, sell, DateTime, Instrument}
use trade_engine.Ledger.Lots.{Position, signed_quantity}
use trade_engine.Ledger.Trade.{open_trade, increase_trade, close_trade, trade_on, apply_trade}
use trade_engine.Ledger.Trade.Balanced.{IsBalanced, apply_trade-IsBalanced}
use trade_engine.Ledger.Trade.Kinds.{Change, Trades, Traded}
use trade_engine.Ledger.Trade.Parts.{
  open_trade-Opened, increase_trade-Increased, close_trade-Reduced,
}

module _ ⦃d : Decimals⦄ where
  module _ (account : String) (i : Instrument) (side : Side) (quantity price : Money)
      (at : DateTime) (lot_id : String) (multiplier : ℤ) where
    trade_on-Trades :
        (p : Position) (delta : Money)
        → OnOk
            (Traded side quantity price at lot_id multiplier delta (some p))
            (trade_on account p i side quantity price at lot_id multiplier delta)
    unfolding trade_on
    trade_on-Trades p delta =
        let flat = eq p.quantity zero_money in
        let same = bool_eq (gt p.quantity zero_money) (gt delta zero_money) in
        let fresh = open_trade account (some p) i side quantity price at lot_id delta in
        let more = increase_trade account p i side quantity price at lot_id delta in
        let less = close_trade account p i side price at lot_id multiplier delta in
        OnOk-if_eq flat
          (λ h.
            subst (λ b. OnOk (Trades side quantity price at lot_id multiplier b same delta p) fresh)
              (sym h)
              (open_trade-Opened account i side quantity price at lot_id multiplier (some p) delta))
          (λ h.
            subst
              (λ b.
                OnOk (Trades side quantity price at lot_id multiplier b same delta p)
                  (if same then more else less))
              (sym h)
              (OnOk-if_eq same
                (λ k.
                  subst
                    (λ b.
                      OnOk (Trades side quantity price at lot_id multiplier false b delta p) more)
                    (sym k)
                    (increase_trade-Increased account i side quantity price at lot_id multiplier p
                      delta))
                (λ k.
                  subst
                    (λ b.
                      OnOk (Trades side quantity price at lot_id multiplier false b delta p) less)
                    (sym k)
                    (close_trade-Reduced account i side quantity price at lot_id multiplier p
                      delta))))

    signed_quantity-Change :
        (s : Side) (delta : Money) → signed_quantity s quantity ≡ ok delta → Change s quantity delta
    unfolding signed_quantity
    signed_quantity-Change buy delta e = sym (ok-injective e)
    signed_quantity-Change sell delta e = e

    apply_trade-Trades :
        (p : Option Position) {t : Position}
        → apply_trade account p i side quantity price at lot_id multiplier ≡ ok t
        → (delta : Money) × Change side quantity delta
          × Traded side quantity price at lot_id multiplier delta p t
    unfolding apply_trade
    apply_trade-Trades none e =
        let (delta, signed, opened) = >>=-eq-ok (signed_quantity side quantity) _ e in
        (
          delta,
          signed_quantity-Change side delta signed,
          OnOk-ok (open_trade-Opened account i side quantity price at lot_id multiplier none delta)
              opened,
        )
    apply_trade-Trades (some p) e =
        let (delta, signed, traded) = >>=-eq-ok (signed_quantity side quantity) _ e in
        (delta, signed_quantity-Change side delta signed, OnOk-ok (trade_on-Trades p delta) traded)

    -- A trade that is not refused changes the quantity by what is bought, or by its negation for
    -- what is sold, and leaves lots that add up to the quantity. Where nothing is held it opens a
    -- position of one lot; where the position is on the same side it adds a lot at the end and
    -- realizes nothing. Otherwise the smaller of the two quantities is closed from the oldest lot
    -- on, each lot whole or, the last, cut, and the result grows by the difference of the price
    -- and the lot's cost, with the sign of the lot's side, for every unit closed times the
    -- multiplier; what the trade is greater by than the position stays as one lot of the trade's
    -- side at its price. The average cost is the price for a single lot of the trade, weighted by
    -- size where a lot is added, zero for a flat position, and else what the lots left cost by
    -- the position's size.
    pub apply_trade-Traded :
        (p : Option Position) {t : Position}
        → apply_trade account p i side quantity price at lot_id multiplier ≡ ok t
        → IsBalanced t
          × (delta : Money) × Change side quantity delta
          × Traded side quantity price at lot_id multiplier delta p t
    apply_trade-Traded p e =
        let (delta, changed, traded) = apply_trade-Trades p e in
        (
          OnOk-ok (apply_trade-IsBalanced account p i side quantity price at lot_id multiplier) e,
          delta,
          changed,
          traded,
        )
