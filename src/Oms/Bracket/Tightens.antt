-- ===== src/Oms/Bracket/Tightens.antt =====
-- A protective stop only tightens (crates/te_core/src/oms/manager.rs).
use trade_engine.Base.{
  ◌≡◌, refl, Bool, true, false, Option, none, some, ok, err, ◌⊎◌, inl, inr, arith, Ordering,
  if◌then◌else◌,
}
use trade_engine.Money.Decimal.{Money}
use trade_engine.Money.Order.{Decimals, eq, lt, gt}
use trade_engine.Ledger.Errors.{LErr}
use trade_engine.Ledger.Model.{Side, sell, side_eq, Order}
use trade_engine.Oms.Bracket.{move_from, move_stop}

module _ ⦃d : Decimals⦄ where
  -- Closer to the market, for the side of the stop.
  abbrev pub Tighter : Side → Money → Money → Type 0
  Tighter side price current =
      (if side_eq side sell then gt price current else lt price current) ≡ true

  -- One number is equal to, below or above another.
  Compared : Bool → Bool → Bool → Type 0
  Compared e l g =
      (e ≡ true)
      ⊎ ((e ≡ false) × (l ≡ true) × (g ≡ false))
      ⊎ ((e ≡ false) × (l ≡ false) × (g ≡ true))

  compared : (a b : Money) → Compared (eq a b) (lt a b) (gt a b)
  unfolding eq lt gt Compared
  compared a b = go (d.cmp a b)
    where
      go :
          (r : Ordering)
          → Compared
              (elim r [ Ordering.eq ↦ true | _ ↦ false ])
              (elim r [ Ordering.lt ↦ true | _ ↦ false ])
              (elim r [ Ordering.gt ↦ true | _ ↦ false ])
      go Ordering.eq = inl refl
      go Ordering.lt = inr (inl (refl, refl, refl))
      go Ordering.gt = inr (inr (refl, refl, refl))

  tighter_of :
      (side : Side) (e l g moved : Bool)
      → Compared e l g
      → (if e
          then ok false
          else if (if side_eq side sell then l else g)
          then err LErr.order_management
          else ok true)
        ≡ ok moved
      → ((moved ≡ false) × (e ≡ true))
        ⊎ ((moved ≡ true) × ((if side_eq side sell then g else l) ≡ true))
  unfolding side_eq Compared
  tighter_of side e l g moved c h = ground arith

  -- A stop that `move_stop` does not refuse has a stop price; it stays where it is exactly for an
  -- equal price, and where it moves the new price is above the old one for a stop that sells and
  -- below it for a stop that buys.
  pub move_stop-Tighter :
      (o : Order) (price : Money) {moved : Bool}
      → move_stop o price ≡ ok moved
      → (current : Money) × (o.stop_price ≡ some current)
        × (((moved ≡ false) × (eq price current ≡ true))
            ⊎ ((moved ≡ true) × Tighter o.side price current))
  unfolding move_stop move_from side_eq
  move_stop-Tighter o price {moved} h = go o.stop_price refl h
    where
      go :
          (s : Option Money)
          → o.stop_price ≡ s
          → move_from o s price ≡ ok moved
          → (current : Money) × (o.stop_price ≡ some current)
            × (((moved ≡ false) × (eq price current ≡ true))
                ⊎ ((moved ≡ true) × Tighter o.side price current))
      go none e k = cc
      go (some c) e k = (
        c,
        e,
        tighter_of o.side (eq price c) (lt price c) (gt price c) moved (compared price c) k,
      )
