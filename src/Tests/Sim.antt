-- ===== src/Tests/Sim.antt =====
-- A stop that sells, trailing by two (crates/te_core/src/sim/trailing.rs).
use trade_engine.Base.{ℕ, ◌≡◌, refl, Bool, true, false, none, some, List, [], ◌∷◌, All, ◌⊎◌}
use trade_engine.Money.Decimal.{Money, zero_money}
use trade_engine.Money.Order.{by_value, le}
use trade_engine.Ledger.Model.{sell}
use trade_engine.Sim.Trailing.{Trail, watch}
use trade_engine.Sim.Trailing.Follows.{Follows, watch-Follows}
use trade_engine.Sim.Trailing.Covers.{Covers, watch-Covers}

abbrev dollars : ℕ → Money
dollars n = record { neg = false; coef = n; scale = 0 }

abbrev by_two : Trail
by_two = record {
  side = sell;
  trail_amount = dollars 2;
  extreme = none;
  stop_price = none;
  triggered = false;
}

abbrev rising : List Money
rising = dollars 100 ∷ dollars 105 ∷ dollars 104 ∷ []

-- The stop triggers two below the best price.
trigger_test : (watch ⦃d = by_value⦄ by_two (dollars 105 ∷ dollars 103 ∷ [])).triggered ≡ true
unfolding watch le trade_engine.Money.Order.value_order trade_engine.Base.Powers.pow10
    trade_engine.Ledger.Errors.sub trade_engine.Money.Arithmetic.sub
    trade_engine.Money.Decimal.finish_u128 trade_engine.Money.Decimal.to_scale
    trade_engine.Money.Decimal.to_prec trade_engine.Money.Digits.digits
    trade_engine.Money.Decimal.build trade_engine.Money.Decimal.align
    trade_engine.Money.Digits.strip_zeros trade_engine.Money.Decimal.bound
    trade_engine.Money.Order.gt
trigger_test = refl

running_test : (watch ⦃d = by_value⦄ by_two rising).triggered ≡ false
unfolding watch le trade_engine.Money.Order.value_order trade_engine.Base.Powers.pow10
    trade_engine.Ledger.Errors.sub trade_engine.Money.Arithmetic.sub
    trade_engine.Money.Decimal.finish_u128 trade_engine.Money.Decimal.to_scale
    trade_engine.Money.Decimal.to_prec trade_engine.Money.Digits.digits
    trade_engine.Money.Decimal.build trade_engine.Money.Decimal.align
    trade_engine.Money.Digits.strip_zeros trade_engine.Money.Decimal.bound
    trade_engine.Money.Order.gt
running_test = refl

watch-Follows_example : Follows by_two (watch ⦃d = by_value⦄ by_two rising)
watch-Follows_example = watch-Follows ⦃d = by_value⦄ by_two rising

watch-Covers_example :
    All
      (λ p. (le ⦃d = by_value⦄ p zero_money ≡ true) ⊎ Covers (watch ⦃d = by_value⦄ by_two rising) p)
      rising
watch-Covers_example = watch-Covers ⦃d = by_value⦄ by_two rising running_test
