-- ===== src/Money/Spelling.antt =====
-- The canonical spelling of a decimal (`canon` in crates/te_core/src/money.rs).
use Prim.Native.String.{String, ◌++◌, len}
use trade_engine.Base.{◌-◌, ◌/◌, ◌%◌, ltb, ◌==◌, if◌then◌else◌}
use trade_engine.Base.Powers.{pow10}
use trade_engine.Base.Text.{show, zeros, pad}
use trade_engine.Money.Decimal.{Money}
use trade_engine.Money.Arithmetic.{parts_neg}

-- The digits before and behind the point are slices of the mantissa's text.
unfoldable pub canon : Money → String
unfolding show zeros pad
canon m =
    let digits = show m.coef in
    let sign = if parts_neg m then "-" else "" in
    let whole = show (m.coef / pow10 m.scale) in
    let part = pad m.scale (m.coef % pow10 m.scale) in
    if m.scale == 0
    then sign ++ digits
    else if ltb m.scale (len digits)
    then sign ++ whole ++ "." ++ part
    else sign ++ "0." ++ zeros (m.scale - len digits) ++ digits
