-- ===== src/Options.antt =====
-- The option rules that the ledger uses (crates/te_core/src/options.rs): the OCC symbol with its
-- strike in thousandths, the equity symbol and the table of option roots.
pub mod Lifecycle
pub mod Strike
pub mod Contract
use Prim.Native.Char.{Char, code}
use Prim.Native.String
use Prim.Native.String.{String, count}
use trade_engine.Base.{
  ℕ, zero, suc, ◌+◌, ◌-◌, ◌*◌, ◌/◌, ◌%◌, ◌^◌, min, max, Bool, true, false, not, ◌&&◌, ◌||◌, Option,
  none, some, List, [], ◌∷◌, length, all, any, Result, ok, err, ◌>>=◌, ◌>>◌, err_if, str_eq, ltb,
  leb, ◌==◌, if◌then◌else◌,
}
use trade_engine.Base.Int.{ℤ, pos, negsuc, sub_ℕ, pos_part, neg_part, ◌+ℤ◌, ◌-ℤ◌, ltb_ℤ, leb_ℤ}
use trade_engine.Base.Powers.{pow10}
use trade_engine.Base.Text.{chars, show, pad}
use trade_engine.Money.Decimal.{Money}
use trade_engine.Money.Digits.{digits}
use trade_engine.Money.Arithmetic.{parts_neg, exponent}
use trade_engine.Money.Order.{Decimals}
use trade_engine.Money.PyRules.{strip, is_empty}
use trade_engine.Money.Spelling.{canon}
use trade_engine.Ledger.Errors.{LErr}
use trade_engine.Ledger.Keys.{right_code}
use trade_engine.Ledger.Model.{Right, OptionContract}

pub data OptionError : Type 0 where
  value unresolvable invalid_operation overflow : OptionError

abbrev pub Res : Type 0 → Type 0
Res A = Result OptionError A

-- `oerr` of crates/te_core/src/ledger/model.rs
unfoldable pub oerr : OptionError → LErr
oerr value = LErr.value
oerr unresolvable = LErr.unresolvable
oerr invalid_operation = LErr.invalid_operation
oerr overflow = LErr.overflow

-- `DecWire` of a finite number: the digits are held as the number that they spell.
pub record DecWire : Type 0 where
  pub neg : Bool
  pub coef : ℕ
  pub exp : ℤ
  pub text : String

unfoldable pub decwire : Money → DecWire
unfolding canon
decwire m = record { neg = parts_neg m; coef = m.coef; exp = exponent m; text = canon m }

-- `PREC`, `EMAX`, `ETINY`, `ETOP`, `MAX_MILLIS`
abbrev prec : ℕ
prec = 28

abbrev emax : ℤ
emax = pos 999999

abbrev etiny : ℤ
etiny = negsuc 1000025

abbrev etop : ℤ
etop = pos 999972

abbrev max_millis : ℕ
max_millis = 99999999

-- The first digit dropped is compared with 5; at 5 the digits behind it and the last kept decide.
-- The source works on the text of the digits; its carry from digit to digit is `kept + 1` here.
abbrev pub rounds_up : ℕ → ℕ → ℕ → Bool
rounds_up first behind kept = ltb 5 first || ((first == 5) && (ltb 0 behind || (kept % 2 == 1)))

unfoldable pub round_half_even : ℕ → ℕ → ℕ
unfolding digits
round_half_even n zero = n
round_half_even n (suc d) =
    let kept = n / pow10 (suc d) in
    let rest = n % pow10 (suc d) in
    if ltb (digits n) (suc d)
    then 0
    else if rounds_up (rest / pow10 d) (rest % pow10 d) kept
    then kept + 1
    else kept

-- At most 28 digits; a digit more, which rounding can make, is popped.
unfoldable pub fit_product : ℕ → ℤ → ℤ → ℕ × ℤ
unfolding round_half_even
fit_product n exp exp_min =
    let rounded = round_half_even n (pos_part (exp_min -ℤ exp)) in
    if ltb_ℤ exp exp_min
    then (if ltb prec (digits rounded)
        then (rounded / 10, exp_min +ℤ pos 1)
        else (rounded, exp_min))
    else (n, exp)

unfoldable pub times_1000 : DecWire → Res (ℕ × ℤ)
unfolding fit_product
times_1000 strike =
    let n = strike.coef * 1000 in
    let least = pos (digits n) +ℤ strike.exp -ℤ pos prec in
    let exp_min = if ltb_ℤ least etiny then etiny else least in
    let r = fit_product n strike.exp exp_min in
    let product =
      err_if (ltb_ℤ etop least) overflow
      >> (err_if (not (r.0 == 0) && ltb_ℤ emax (pos (digits r.0) +ℤ r.1 -ℤ pos 1)) overflow
          >> ok r) in
    if strike.coef == 0 then ok (0, strike.exp) else product

unfoldable pub integral_value : ℕ → ℤ → ℕ
unfolding round_half_even
integral_value n (pos e) = if n == 0 then 0 else n * pow10 (min e 40)
integral_value n (negsuc e) = round_half_even n (min (suc e) (2 ^ 32 - 1))

unfoldable pub strike_millis : DecWire → Res ℕ
unfolding times_1000 integral_value
strike_millis strike = do
  (n, exp) ← times_1000 strike
  let whole = integral_value n exp
  err_if (ltb 18 (digits whole)) value
  err_if ((whole == 0) || ltb max_millis whole) value
  ok whole

-- `ContractWire`, and `OptionContract::wire` of crates/te_core/src/ledger/model.rs.
pub record ContractWire : Type 0 where
  pub underlying : String
  pub year : ℕ
  pub month : ℕ
  pub day : ℕ
  pub right : Right
  pub strike : DecWire

unfoldable pub wire : OptionContract → ContractWire
unfolding decwire
wire c = record {
  underlying = c.underlying;
  year = c.expiry.year;
  month = c.expiry.month;
  day = c.expiry.day;
  right = c.right;
  strike = decwire c.strike;
}

-- `" ".repeat(n)`
unfoldable pub spaces : ℕ → String
spaces zero = ""
spaces (suc n) = String.◌++◌ " " (spaces n)

unfoldable pub occ : ContractWire → Res String
unfolding strike_millis spaces pad right_code
occ c = do
  millis ← strike_millis c.strike
  ok (
      String.◌++◌ c.underlying (
        String.◌++◌ (spaces (6 - count c.underlying)) (
          String.◌++◌ (pad 2 (c.year % 100)) (
            String.◌++◌ (pad 2 c.month)
              (String.◌++◌ (pad 2 c.day) (String.◌++◌ (right_code c.right) (pad 8 millis)))))))

abbrev is_upper : Char → Bool
is_upper c = leb 65 (code c) && leb (code c) 90

abbrev is_alnum : Char → Bool
is_alnum c = is_upper c || (leb 48 (code c) && leb (code c) 57)

-- `split_once('.')`
unfoldable pub split_dot : List Char → Option (List Char × List Char)
split_dot [] = none
split_dot (c ∷ cs) =
    let rest : Option (List Char × List Char) = elim (split_dot cs) [
      | none ↦ none
      | some r ↦ some (c ∷ r.0, r.1)
    ] in
    if code c == 46 then some ([], cs) else rest

-- A root, then at most one dot with a class of one or two letters.
unfoldable pub symbol_ok : List Char → Bool
unfolding split_dot
symbol_ok sym = elim (split_dot sym) [
  | none ↦ all is_alnum sym
  | some r ↦
      not (is_empty r.0)
      && all is_alnum r.0
      && leb 1 (length r.1)
      && leb (length r.1) 2
      && all is_upper r.1
]

-- A text of characters.
unfoldable pub text_of : List Char → String
text_of [] = String.[]
text_of (c ∷ cs) = String.◌∷◌ c (text_of cs)

pub data Exercise : Type 0 where
  american european : Exercise

pub data Settlement : Type 0 where
  physical cash : Settlement

pub data SettleTime : Type 0 where
  am pm : SettleTime

pub record Style : Type 0 where
  pub root : String
  pub underlying : String
  pub exercise : Exercise
  pub settlement : Settlement
  pub settle_time : SettleTime

-- `INDEX_ROOTS`
unfoldable pub index_root : String → Option (String × SettleTime)
index_root key =
    if str_eq key "SPX"
    then some ("SPX", am)
    else if str_eq key "SPXW"
    then some ("SPX", pm)
    else none

abbrev unmodelled_index_roots : List String
unmodelled_index_roots =
    "NDX" ∷ "NDXP" ∷ "RUT" ∷ "RUTW" ∷ "MRUT" ∷ "XSP" ∷ "XND" ∷ "DJX" ∷ "OEX" ∷ "XEO" ∷ "VIX"
    ∷ "VIXW" ∷ []

unfoldable pub style_of : String → Option (String × SettleTime) → Res Style
style_of key (some (underlying, time)) = ok (record {
  root = key;
  underlying = underlying;
  exercise = european;
  settlement = cash;
  settle_time = time;
})
style_of key none = do
  err_if (any (str_eq key) unmodelled_index_roots) unresolvable
  err_if (str_eq key "") unresolvable
  ok (record {
    root = key;
    underlying = key;
    exercise = american;
    settlement = physical;
    settle_time = pm;
  })

module _ ⦃d : Decimals⦄ where
  -- `strip(root).to_uppercase()`
  unfoldable pub key : String → String
  unfolding strip text_of chars
  key root = d.to_uppercase (text_of (strip (chars root)))

  unfoldable pub option_style : String → Res Style
  unfolding key index_root style_of
  option_style root = style_of (key root) (index_root (key root))

  unfoldable pub equity_symbol : String → Res String
  unfolding key symbol_ok chars
  equity_symbol symbol = do
    err_if (str_eq symbol "") value
    err_if (str_eq (key symbol) "") value
    err_if (ltb 10 (count (key symbol))) value
    err_if (not (symbol_ok (chars (key symbol)))) value
    ok (key symbol)
