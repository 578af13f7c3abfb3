-- ===== src/Options/Lifecycle.antt =====
-- What an option becomes at expiry, on exercise and on assignment
-- (crates/te_core/src/options/lifecycle.rs). A `Decimal` of rust_decimal is its sign, mantissa and
-- scale; what is called of that crate is in `Decimals`.
use Prim.Native.Char.{Char, code}
use trade_engine.Base.{
  ℕ, ◌+◌, max, Bool, true, false, not, ◌&&◌, ◌||◌, Option, none, some, List, [], ◌∷◌, String, ok,
  err, ◌>>=◌, ◌>>◌, err_if, ok_or, bool_eq, ltb, leb, ◌==◌, if◌then◌else◌,
}
use trade_engine.Base.Text.{chars}
use trade_engine.Money.Decimal.{Money, zero_money}
use trade_engine.Money.Order.{Decimals, lt, le, gt}
use trade_engine.Money.PyRules.{is_space, is_empty}
use trade_engine.Ledger.Model.{Right, call, put}
use trade_engine.Options.{
  value, invalid_operation, overflow, Res, ContractWire, occ, text_of, option_style, equity_symbol,
  Exercise, american, european, Settlement, physical, cash,
}

-- `threshold()`, and `exercise_threshold` as text.
abbrev pub threshold : Money
threshold = record { neg = false; coef = 1; scale = 2 }

-- `char::is_whitespace`, which is `is_space` without U+001C..U+001F.
unfoldable pub is_whitespace : Char → Bool
unfolding is_space
is_whitespace c = is_space c && not (leb 28 (code c) && leb (code c) 31)

unfoldable pub trim_front : List Char → List Char
unfolding is_whitespace
trim_front [] = []
trim_front (c ∷ cs) = let rest = trim_front cs in if is_whitespace c then rest else c ∷ cs

unfoldable pub trim_back : List Char → List Char
unfolding is_whitespace
trim_back [] = []
trim_back (c ∷ cs) =
    let rest = trim_back cs in if is_whitespace c && is_empty rest then [] else c ∷ rest

-- `eq_ignore_ascii_case`, on the numbers of the characters.
abbrev ascii_lower : ℕ → ℕ
ascii_lower n = if leb 65 n && leb n 90 then n + 32 else n

unfoldable pub same_codes : List Char → List Char → Bool
same_codes [] [] = true
same_codes (c ∷ cs) (e ∷ es) = (ascii_lower (code c) == ascii_lower (code e)) && same_codes cs es
same_codes _ _ = false

unfoldable pub is_nan_text : List Char → Bool
unfolding same_codes chars
is_nan_text t =
    same_codes t (chars "nan") || same_codes t (chars "snan") || same_codes t (chars "-nan")

unfoldable pub is_cash : Settlement → Bool
is_cash cash = true
is_cash physical = false

unfoldable pub is_american : Exercise → Bool
is_american american = true
is_american european = false

unfoldable pub is_call : Right → Bool
is_call call = true
is_call put = false

module _ ⦃d : Decimals⦄ where
  -- `Money::parse` and `get`: a NaN is refused where it is used.
  unfoldable pub parse_money : String → Res (Option Money)
  unfolding trim_front trim_back is_nan_text text_of
  parse_money text =
      let t = trim_back (trim_front (chars text)) in
      let number = ok_or (d.from_text (text_of t)) value >>= λ m. ok (some m) in
      if is_nan_text t then ok none else number

  unfoldable pub finite : String → Res Money
  unfolding parse_money
  finite text = do m ← parse_money text; ok_or m invalid_operation

  unfoldable pub strike : ContractWire → Res Money
  unfolding finite
  strike c = finite c.strike.text

  unfoldable pub with_scale_of : Money → Money → Money → Money
  with_scale_of r a b =
      if ltb r.scale (max a.scale b.scale) then d.rescale r (max a.scale b.scale) else r

  unfoldable pub sub : Money → Money → Res Money
  unfolding with_scale_of
  sub a b = do r ← ok_or (d.checked_sub a b) overflow; ok (with_scale_of r a b)

  unfoldable pub add : Money → Money → Res Money
  unfolding with_scale_of
  add a b = do r ← ok_or (d.checked_add a b) overflow; ok (with_scale_of r a b)

  -- What a contract is worth per share before it is held at zero.
  unfoldable pub raw_value : Right → Money → Money → Res Money
  unfolding sub
  raw_value call price k = sub price k
  raw_value put price k = sub k price

  unfoldable pub intrinsic_value : ContractWire → String → Res Money
  unfolding finite strike raw_value
  intrinsic_value c price_text = do
    price ← finite price_text
    err_if (le price zero_money) value
    k ← strike c
    raw ← raw_value c.right price k
    ok (if gt zero_money raw then zero_money else raw)

  unfoldable pub intrinsic : ContractWire → String → Res String
  unfolding intrinsic_value
  intrinsic c price_text = do v ← intrinsic_value c price_text; ok (d.to_text v)

  unfoldable pub expiry_outcome : ContractWire → Bool → String → Res String
  unfolding intrinsic_value
  expiry_outcome c held_buy price_text = do
    v ← intrinsic_value c price_text
    ok (if lt v threshold then "expire" else if held_buy then "exercise" else "assign")

  unfoldable pub is_cash_settled : ContractWire → Res Bool
  unfolding option_style is_cash
  is_cash_settled c = do s ← option_style c.underlying; ok (is_cash s.settlement)

  unfoldable pub can_exercise_early : ContractWire → Res Bool
  unfolding option_style is_american
  can_exercise_early c = do s ← option_style c.underlying; ok (is_american s.exercise)

  -- The text of a refusal is read from the symbol, which can be refused itself.
  unfoldable pub refuse_with_symbol : {A : Type 0} → ContractWire → Res A
  unfolding occ
  refuse_with_symbol c = occ c >>= λ symbol. err value

  unfoldable pub deliverable : ContractWire → Res String
  unfolding is_cash_settled refuse_with_symbol option_style equity_symbol
  deliverable c =
      let shares = option_style c.underlying >>= λ s. equity_symbol s.underlying in
      let refused : Res String = refuse_with_symbol c in
      is_cash_settled c >>= λ settled. if settled then refused else shares

  -- The price per share: above the strike for a call, below it for a put.
  unfoldable pub delivery_price : ContractWire → Money → Money → Right → Res String
  unfolding add sub refuse_with_symbol
  delivery_price c k premium call = do p ← add k premium; ok (d.to_text p)
  delivery_price c k premium put =
      let refused : Res String = refuse_with_symbol c in
      sub k premium >>= λ p. if le p zero_money then refused else ok (d.to_text p)

  unfoldable pub delivery : ContractWire → Bool → String → Res (Bool × String)
  unfolding finite strike delivery_price is_call
  delivery c held_buy premium_text = do
    premium ← finite premium_text
    err_if (lt premium zero_money) value
    k ← strike c
    price ← delivery_price c k premium c.right
    ok (bool_eq (is_call c.right) held_buy, price)

  -- The early branch of `exercised_for_dividend`, and the comparison with what time is worth.
  unfoldable pub worth_exercising : ContractWire → String → String → String → Res Bool
  unfolding finite intrinsic_value sub
  worth_exercising c close_text bid_text dividend_text = do
    dividend ← finite dividend_text
    err_if (le dividend zero_money) value
    bid ← finite bid_text
    err_if (lt bid zero_money) value
    v ← intrinsic_value c close_text
    (if lt v threshold then ok false else (sub bid v >>= λ extrinsic. ok (lt extrinsic dividend)))

  unfoldable pub exercised_for_dividend : ContractWire → String → String → String → Res Bool
  unfolding is_call refuse_with_symbol can_exercise_early worth_exercising
  exercised_for_dividend c close_text bid_text dividend_text =
      let refused : Res Bool = refuse_with_symbol c in
      let worth = worth_exercising c close_text bid_text dividend_text in
      let early = can_exercise_early c >>= λ allowed. if allowed then worth else ok false in
      if is_call c.right then early else refused
