-- ===== src/Oms/Replace/Accepted.antt =====
-- The ledger accepts the terms of a replacement (crates/te_core/src/oms/manager.rs and
-- ledger/fold.rs).
use trade_engine.Base.{
  ℕ, ◌≡◌, refl, true, false, ◌&&◌, Option, none, some, String, arith, str_eq, str_eq_iff, ◌==◌,
}
use trade_engine.Base.Int.{ℤ, pos, negsuc, eq_ℤ}
use trade_engine.Money.Decimal.{Money}
use trade_engine.Money.Order.{Decimals}
use trade_engine.Money.Sums.{eq_self}
use trade_engine.Ledger.Model.{
  Side, Right, Instrument, equity, option, combo, future, Legs, none_left, leg, Order, side_eq,
  opt_eq, same, same_legs, same_option, same_future, right_eq, date_eq, OptionContract,
  FutureContract,
}
use trade_engine.Ledger.OrderHandlers.{OrderUpdated, identity_changed}
use trade_engine.Oms.Replace.{with_quantity, replace_terms}

str_eq_self : (s : String) → str_eq s s ≡ true
str_eq_self s = (str_eq_iff s s).1 refl

side_eq_self : (s : Side) → side_eq s s ≡ true
unfolding side_eq
side_eq_self s = ground arith

eq_ℤ_self : (n : ℤ) → eq_ℤ n n ≡ true
eq_ℤ_self (pos n) = ground arith
eq_ℤ_self (negsuc n) = ground arith

same_number : (n : ℕ) → (n == n) ≡ true
same_number n = ground arith

right_eq_self : (r : Right) → right_eq r r ≡ true
unfolding right_eq
right_eq_self r = ground arith

month_self : (m : Option (ℕ × ℕ)) → opt_eq (λ a b. a.0 == b.0 && a.1 == b.1) m m ≡ true
month_self none = refl
month_self (some (y, m)) = rw (same_number y, same_number m)

module _ ⦃d : Decimals⦄ where
  same_option_self : (c : OptionContract) → same_option c c ≡ true
  unfolding same_option date_eq
  same_option_self c = rw (
    str_eq_self c.underlying,
    same_number c.expiry.year,
    same_number c.expiry.month,
    same_number c.expiry.day,
    eq_self c.strike,
    right_eq_self c.right,
    eq_ℤ_self c.multiplier,
  )

  same_future_self : (f : FutureContract) → same_future f f ≡ true
  unfolding same_future
  same_future_self f =
      rw (
        str_eq_self f.root,
        month_self f.contract_month,
        eq_self f.tick_size,
        eq_self f.point_value,
      )

  mutual
    unfolding same

    same_self : (i : Instrument) → same i i ≡ true
    same_self (equity s) = str_eq_self s
    same_self (option c) = same_option_self c
    same_self (combo l) = same_legs_self l
    same_self (future f) = same_future_self f

    same_legs_self : (l : Legs) → same_legs l l ≡ true
    same_legs_self none_left = refl
    same_legs_self (leg i r s l) = rw (eq_ℤ_self r, side_eq_self s, same_self i, same_legs_self l)

  -- What the new terms keep of the order.
  record Kept (o : Order) (q : Option Money) (n : Order) : Type 0 where
    id : n.order_id ≡ o.order_id
    state : n.state ≡ o.state
    quantity : n.quantity ≡ (with_quantity q o).quantity
    identity : identity_changed o n ≡ false

  -- The update that a replacement records.
  abbrev pub replacement :
      Order → Option Money → Option Money → Option Money → String → Option String → OrderUpdated
  replacement o q limit stop_at reason venue_id = record {
    order = (replace_terms o q limit stop_at).0;
    reason = reason;
    venue_order_id = venue_id;
  }
