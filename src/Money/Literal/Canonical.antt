-- ===== src/Money/Literal/Canonical.antt =====
-- What `try_parse` gives is in the canonical form (crates/te_core/src/money.rs).
use trade_engine.Base.{ℕ, ◌≡◌, Bool, not, ◌&&◌, ◌||◌, List, [], ◌∷◌, ◌++◌, String, length, ok, ltb}
use trade_engine.Base.OnOk.{OnOk, holds, OnOk-ok, OnOk-of, OnOk-err_if, OnOk-bind_eq}
use trade_engine.Base.Int.{ℤ, pos, ◌+ℤ◌, ◌-ℤ◌}
use trade_engine.Money.Decimal.{Money, build}
use trade_engine.Money.Canonical.{IsCanonical, build_lem, zero-IsCanonical}
use trade_engine.Base.Text.{chars}
use Prim.Native.Char.{Char}
use trade_engine.Money.PyRules.{is_empty, strip}
use trade_engine.Money.Literal.{
  coef_from, split_zeros, drop_zeros, from_significant, from_leading, from_digits, read_number,
  read_sign, take_digits, read_fraction, read_exponent, try_parse, finish_literal, max_literal_exp,
  abs_ℤ, drop_underscores,
}

from_significant-IsCanonical :
    (neg : Bool) (sig : List ℕ) (e : ℤ) → OnOk IsCanonical (from_significant neg sig e)
unfolding from_significant
from_significant-IsCanonical neg sig e =
    OnOk-err_if _ _
      λ fits. OnOk-of (build neg (coef_from 0 sig) e) λ m h. (build_lem neg (coef_from 0 sig) e h).0

from_leading-IsCanonical :
    (neg : Bool) (ds : List ℕ) (e : ℤ) → OnOk IsCanonical (from_leading neg ds e)
unfolding from_leading
from_leading-IsCanonical neg [] e = holds zero-IsCanonical
from_leading-IsCanonical neg (d ∷ ds) e =
    from_significant-IsCanonical neg (split_zeros (d ∷ ds)).0 (e +ℤ pos (split_zeros (d ∷ ds)).1)

finish_literal-IsCanonical :
    (neg : Bool) (whole frac : List ℕ) (r : ℤ × List Char)
    → OnOk IsCanonical (finish_literal neg whole frac r)
unfolding finish_literal from_digits
finish_literal-IsCanonical neg whole frac r = OnOk-err_if (not (is_empty r.1)) _ λ ended.
    OnOk-err_if
      (ltb max_literal_exp (abs_ℤ (r.0 -ℤ pos (length frac))) || ltb max_literal_exp (abs_ℤ r.0)) _
      λ range. from_leading-IsCanonical neg (drop_zeros (whole ++ frac)) (r.0 -ℤ pos (length frac))

read_number-IsCanonical : (neg : Bool) (cs : List Char) → OnOk IsCanonical (read_number neg cs)
unfolding read_number
read_number-IsCanonical neg cs =
    let whole = (take_digits cs).0 in
    let after = read_fraction (take_digits cs).1 in
    OnOk-err_if (is_empty whole && is_empty after.0) _ λ some.
      OnOk-bind_eq (read_exponent after.1) λ r read. finish_literal-IsCanonical neg whole after.0 r

-- Whatever text is parsed to a number, the number is canonical: in bound, without a trailing zero
-- behind the point, and without a negative zero.
pub try_parse-IsCanonical : (text : String) {m : Money} → try_parse text ≡ ok m → IsCanonical m
unfolding try_parse
try_parse-IsCanonical text h =
    let (neg, cs) = read_sign (drop_underscores (strip (chars text))) in
    OnOk-ok (read_number-IsCanonical neg cs) h
