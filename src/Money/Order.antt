-- ===== src/Money/Order.antt =====
-- Comparison of decimals (crates/te_core/src/money.rs): `self.0.cmp(&other.0)` on the wrapped
-- `rust_decimal::Decimal`. That crate is not part of the repository, so what is called of it is the
-- parameter `Decimals`, with the law that money.rs relies on: order and equality are by value.
use trade_engine.Base.{
  ℕ, ◌+◌, ◌-◌, ◌*◌, ◌/◌, ◌%◌, ◌^◌, max, ◌≡◌, refl, Bool, true, false, Option, none, some, String,
  Result, ok, err, compare, Ordering, if◌then◌else◌,
}
use trade_engine.Base.Powers.{pow10}
use trade_engine.Money.Decimal.{Money}
use trade_engine.Money.Arithmetic.{parts_neg, add, sub}
use trade_engine.Money.Literal.{try_parse}
use trade_engine.Money.Spelling.{canon}

-- The value times `10^s` (for `s` at least the scale), split by its sign.
abbrev pub pos_at : Money → ℕ → ℕ
pos_at m s = if parts_neg m then 0 else m.coef * pow10 s

abbrev pub neg_at : Money → ℕ → ℕ
neg_at m s = if parts_neg m then m.coef * pow10 s else 0

-- The order of the values, cross-multiplied by the two scales.
unfoldable pub value_order : Money → Money → Ordering
value_order a b =
    compare (pos_at a b.scale + neg_at b a.scale) (pos_at b a.scale + neg_at a b.scale)

-- `Ord for rust_decimal::Decimal`, and what the option rules call besides: `from_str_exact` or else
-- `from_scientific`, `to_string`, `checked_add`, `checked_sub` and `rescale` on a sign, a mantissa
-- and a scale; the year, month and day of a day number in chrono; and `to_uppercase` of `str`.
pub record Decimals : Type 0 where
  pub cmp : Money → Money → Ordering
  pub from_text : String → Option Money
  pub to_text : Money → String
  pub checked_add : Money → Money → Option Money
  pub checked_sub : Money → Money → Option Money
  pub rescale : Money → ℕ → Money
  pub year_month_day : ℕ → ℕ × ℕ × ℕ
  pub to_uppercase : String → String
  pub cmp_by_value : (a b : Money) → cmp a b ≡ value_order a b

abbrev pub to_option : {E A : Type 0} → Result E A → Option A
to_option (ok a) = some a
to_option (err e) = none

abbrev pub by_value : Decimals
by_value = record {
  cmp = value_order;
  from_text = λ s. to_option (try_parse s);
  to_text = canon;
  checked_add = λ a b. to_option (add a b);
  checked_sub = λ a b. to_option (sub a b);
  rescale =
      λ m s. record { neg = m.neg; coef = m.coef * 10 ^ (s - m.scale); scale = max s m.scale };
  year_month_day = λ n. (n / 372 + 1, n / 31 % 12 + 1, n % 31 + 1);
  to_uppercase = λ s. s;
  cmp_by_value = λ a b. refl;
}

module _ ⦃d : Decimals⦄ where
  unfoldable pub cmp_ord : Money → Money → Ordering
  cmp_ord a b = d.cmp a b

  unfoldable pub eq : Money → Money → Bool
  eq a b = elim (d.cmp a b) [ Ordering.eq ↦ true | _ ↦ false ]

  unfoldable pub lt : Money → Money → Bool
  lt a b = elim (d.cmp a b) [ Ordering.lt ↦ true | _ ↦ false ]

  unfoldable pub le : Money → Money → Bool
  le a b = elim (d.cmp a b) [ Ordering.gt ↦ false | _ ↦ true ]

  unfoldable pub gt : Money → Money → Bool
  gt a b = elim (d.cmp a b) [ Ordering.gt ↦ true | _ ↦ false ]

  unfoldable pub ge : Money → Money → Bool
  ge a b = elim (d.cmp a b) [ Ordering.lt ↦ false | _ ↦ true ]
