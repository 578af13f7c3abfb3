-- ===== src/Tests/Allocation.antt =====
-- Ten shares over weights of one, one and one (crates/te_core/src/oms/manager.rs).
use trade_engine.Base.{ℕ, false, ◌≡◌, refl, List, [], ◌∷◌, ok, map, All, arith}
use trade_engine.Base.Int.{ℤ, pos}
use trade_engine.Base.OnOk.{OnOk}
use trade_engine.Money.Decimal.{Money}
use trade_engine.Money.Order.{by_value}
use trade_engine.Ledger.Model.{equity}
use trade_engine.Oms.Replace.{is_equity}
use trade_engine.Oms.Allocation.{largest_remainder, sum_int, allocate_quantity}
use trade_engine.Oms.Allocation.Conserved.{IsPositive, largest_remainder_lem}
use trade_engine.Oms.Allocation.Exact.{Divides, allocate_quantity-exact}
use trade_engine.Oms.Allocation.Nearest.{IsNear, largest_remainder-IsNear}

abbrev thirds : List ℤ
thirds = pos 1 ∷ pos 1 ∷ pos 1 ∷ []

abbrev shares_of : ℕ → Money
shares_of n = record { neg = false; coef = n; scale = 0 }

three_ones : All IsPositive thirds
three_ones = ((1, omega arith, refl), ((1, omega arith, refl), ((1, omega arith, refl), tt)))

-- The first gets the share that is left.
split_test : largest_remainder (pos 10) thirds ≡ ok (pos 4 ∷ pos 3 ∷ pos 3 ∷ [])
unfolding largest_remainder trade_engine.Base.Int.◌-ℤ◌ trade_engine.Base.Int.◌+ℤ◌
    trade_engine.Base.Int.◌*ℤ◌
split_test = refl

largest_remainder_lem_example :
    (xs : List ℤ) × (largest_remainder (pos 10) thirds ≡ ok xs) × (sum_int xs ≡ pos 10)
largest_remainder_lem_example =
    largest_remainder_lem (pos 10) thirds three_ones (omega arith) (omega arith)

largest_remainder-IsNear_example : IsNear (pos 10) thirds (pos 1) (pos 4)
largest_remainder-IsNear_example =
    largest_remainder-IsNear (pos 10) thirds 0 three_ones split_test refl refl

allocate_quantity-exact_example : OnOk (Divides (shares_of 10)) (
    allocate_quantity ⦃d = by_value⦄ (shares_of 10) (shares_of 1 ∷ shares_of 2 ∷ []) (equity "SPY"))
unfolding is_equity
allocate_quantity-exact_example =
    allocate_quantity-exact ⦃d = by_value⦄ (shares_of 10) (shares_of 1) (shares_of 2 ∷ [])
      (equity "SPY") refl (omega arith)
