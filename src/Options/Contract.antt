-- ===== src/Options/Contract.antt =====
-- Which contracts are accepted (crates/te_core/src/options.rs, `validate_strike`,
-- `validate_underlying`, `validate_rest`).
pub mod Exact
use Prim.Native.String.{String, count}
use trade_engine.Base.{
  ℕ, suc, ◌%◌, Bool, true, false, not, ◌&&◌, ◌||◌, Option, none, some, List, [], ◌∷◌, all, any,
  Result, ok, err, ◌>>=◌, ◌>>◌, err_if, str_eq, ltb, leb, ◌==◌, if◌then◌else◌,
}
use trade_engine.Base.Int.{ℤ, pos, negsuc}
use trade_engine.Base.Powers.{pow10}
use trade_engine.Base.Text.{chars}
use trade_engine.Money.Digits.{digits}
use trade_engine.Money.Order.{Decimals}
use trade_engine.Ledger.Model.{Right, call, put}
use trade_engine.Options.{
  OptionError, value, Res, DecWire, times_1000, strike_millis, is_alnum, key,
}

-- Whether `n * 10^exp` has no fractional part.
unfoldable pub is_integral : ℕ → ℤ → Bool
is_integral n (pos e) = true
is_integral n (negsuc e) = (n == 0) || (leb (suc e) (digits n) && (n % pow10 (suc e) == 0))

unfoldable pub validate_strike : DecWire → Res (Unit {0})
unfolding times_1000 is_integral strike_millis
validate_strike w = do
  err_if (w.neg || (w.coef == 0)) value
  (n, exp) ← times_1000 w
  err_if (not (is_integral n exp)) value
  millis ← strike_millis w
  ok tt

-- `m.starts_with('-') || m == "0"`
unfoldable pub is_negative_text : String → Bool
unfolding chars
is_negative_text m =
    str_eq m "0" || (elim (chars m) [ [] ↦ false | c ∷ cs ↦ Prim.Native.Char.code c == 45 ])

module _ ⦃d : Decimals⦄ where
  unfoldable pub validate_underlying : String → Res String
  unfolding key chars
  validate_underlying underlying = do
    err_if (str_eq (key underlying) "") value
    err_if (ltb 6 (count (key underlying))) value
    err_if (not (all is_alnum (chars (key underlying)))) value
    ok (key underlying)

  unfoldable pub right_of : Option String → Res Right
  right_of none = err value
  right_of (some r) =
      let upper = d.to_uppercase r in
      if str_eq upper "C" || str_eq upper "CALL"
      then ok call
      else if str_eq upper "P" || str_eq upper "PUT"
      then ok put
      else err value

  unfoldable pub check_multiplier : Option String → Res (Unit {0})
  unfolding is_negative_text
  check_multiplier none = err value
  check_multiplier (some m) = err_if (is_negative_text m) value

  unfoldable pub validate_rest : DecWire → Option String → Option String → Res Right
  unfolding validate_strike check_multiplier right_of
  validate_rest w multiplier right = do
    validate_strike w
    check_multiplier multiplier
    right_of right
