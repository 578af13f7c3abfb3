-- ===== src/Ledger/Mirror/Same.antt =====
-- The dataclass equality of a queued ticket with itself (crates/te_core/src/ledger/mirror.rs).
use trade_engine.Base.{
  ℕ, ◌≡◌, refl, Bool, true, ◌&&◌, Option, none, some, List, [], ◌∷◌, ◌==◌, ==_iff, arith,
  str_eq_self,
}
use trade_engine.Base.Int.{ℤ, eq_ℤ}
use trade_engine.Money.Decimal.{Money}
use trade_engine.Money.Order.{Decimals}
use trade_engine.Money.Sums.{eq_self}
use trade_engine.Ledger.Model.{
  Side, OrderType, Tif, DateTime, Instrument, equity, option, combo, future, Legs, none_left, leg,
  OptionContract, FutureContract, same, same_legs, same_option, same_future, date_eq, right_eq,
  side_eq, order_type_eq, tif_eq, same_time, instant, opt_dec_eq, opt_eq, Right,
}
use trade_engine.Ledger.Mirror.{MirrorAllocation, MirrorQueued, same_allocations, same_queued}

both : {a b : Bool} → a ≡ true → b ≡ true → (a && b) ≡ true
both h k = rw (h, k) refl

eq_ℤ_self : (n : ℤ) → eq_ℤ n n ≡ true
eq_ℤ_self n = ground arith

side_eq_self : (s : Side) → side_eq s s ≡ true
unfolding side_eq
side_eq_self s = ground arith

order_type_eq_self : (t : OrderType) → order_type_eq t t ≡ true
unfolding order_type_eq
order_type_eq_self t = ground arith

tif_eq_self : (t : Tif) → tif_eq t t ≡ true
unfolding tif_eq
tif_eq_self t = ground arith

right_eq_self : (r : Right) → right_eq r r ≡ true
unfolding right_eq
right_eq_self r = ground arith

same_time_self : (t : DateTime) → same_time t t ≡ true
unfolding same_time
same_time_self t = both (eq_ℤ_self (instant t).0) ((==_iff t.us t.us).1 refl)

module _ ⦃d : Decimals⦄ where
  pub opt_dec_eq_self : (o : Option Money) → opt_dec_eq o o ≡ true
  unfolding opt_dec_eq
  opt_dec_eq_self none = refl
  opt_dec_eq_self (some m) = eq_self m

  same_option_self : (c : OptionContract) → same_option c c ≡ true
  unfolding same_option date_eq
  same_option_self c =
      both
        (both
          (both
            (both (str_eq_self c.underlying) (
              both
                (both ((==_iff c.expiry.year c.expiry.year).1 refl)
                  ((==_iff c.expiry.month c.expiry.month).1 refl))
                ((==_iff c.expiry.day c.expiry.day).1 refl)))
            (eq_self c.strike))
          (right_eq_self c.right))
        (eq_ℤ_self c.multiplier)

  month_eq_self : (m : Option (ℕ × ℕ)) → opt_eq (λ m n. m.0 == n.0 && m.1 == n.1) m m ≡ true
  month_eq_self none = refl
  month_eq_self (some m) = both ((==_iff m.0 m.0).1 refl) ((==_iff m.1 m.1).1 refl)

  same_future_self : (f : FutureContract) → same_future f f ≡ true
  unfolding same_future
  same_future_self f =
      both (both (both (str_eq_self f.root) (month_eq_self f.contract_month)) (eq_self f.tick_size))
        (eq_self f.point_value)

  mutual
    unfolding same same_legs

    same_self : (i : Instrument) → same i i ≡ true
    same_self (equity s) = str_eq_self s
    same_self (option c) = same_option_self c
    same_self (combo l) = same_legs_self l
    same_self (future f) = same_future_self f

    same_legs_self : (l : Legs) → same_legs l l ≡ true
    same_legs_self none_left = refl
    same_legs_self (leg i r s l) =
        both (both (both (eq_ℤ_self r) (side_eq_self s)) (same_self i)) (same_legs_self l)

  same_allocations_self : (as' : List MirrorAllocation) → same_allocations as' as' ≡ true
  unfolding same_allocations
  same_allocations_self [] = refl
  same_allocations_self (a ∷ as') =
      both
        (both (both (str_eq_self a.strategy_order_id) (str_eq_self a.strategy_account))
          (eq_self a.quantity))
        (same_allocations_self as')

  pub same_queued_self : (q : MirrorQueued) → same_queued q q ≡ true
  unfolding same_queued
  same_queued_self q =
      rw
        (
          str_eq_self q.venue,
          str_eq_self q.ticket_key,
          same_self q.instrument,
          side_eq_self q.side,
          eq_self q.quantity,
          order_type_eq_self q.order_type,
          opt_dec_eq_self q.limit_price,
          tif_eq_self q.tif,
          same_allocations_self q.allocations,
          same_time_self q.at,
        )
        refl
