-- ===== src/Ledger/Trade/Kinds.antt =====
-- The kinds of trade on a position (`apply_trade` of crates/te_core/src/ledger/fold.rs).
use trade_engine.Base.{
  ◌≡◌, Bool, true, false, bool_eq, Option, none, some, List, [], ◌∷◌, ◌++◌, String, ok,
  if◌then◌else◌,
}
use trade_engine.Base.Int.{ℤ}
use trade_engine.Money.Decimal.{Money, zero_money}
use trade_engine.Money.Order.{Decimals, eq, gt, lt}
use trade_engine.Ledger.Errors.{add, sub, mul, div, neg, abs}
use trade_engine.Ledger.Model.{Side, buy, sell, DateTime, Lot}
use trade_engine.Ledger.Lots.{Position, cost_total}
use trade_engine.Ledger.Lots.Closing.{Closes, gains}

-- The change of a position's quantity: up for a purchase, down for a sale.
abbrev pub Change : Side → Money → Money → Type 0
Change buy quantity delta = delta ≡ quantity
Change sell quantity delta = neg quantity ≡ ok delta

abbrev pub lot_of : String → Side → Money → Money → DateTime → Lot
lot_of lot_id side quantity price at = record {
  lot_id = lot_id;
  quantity = quantity;
  cost_basis = price;
  acquired_at = at;
  side = side;
}

-- The average cost of lots: zero for none, else what they cost by the size of the position.
abbrev pub Averages : Bool → Money → List Lot → Money → Type 0
Averages true quantity lots avg = avg ≡ zero_money
Averages false quantity lots avg =
    (cost : Money) × (cost_total lots ≡ ok cost)
    × (size : Money) × (abs quantity ≡ ok size)
    × (div cost size ≡ ok avg)

-- The average cost with a trade added: what was held at its average and what is added at its price,
-- by the size of both.
pub record Weighted (price quantity : Money) (p t : Position) : Type 0 where
  pub held : Money
  pub held_is : abs p.quantity ≡ ok held
  pub before : Money
  pub before_is : mul p.avg_cost held ≡ ok before
  pub added : Money
  pub added_is : mul price quantity ≡ ok added
  pub total : Money
  pub total_is : add before added ≡ ok total
  pub size : Money
  pub size_is : abs t.quantity ≡ ok size
  pub average : div total size ≡ ok t.avg_cost

module _ ⦃d : Decimals⦄ where
  module _ (side : Side) (quantity price : Money) (at : DateTime) (lot_id : String)
      (multiplier : ℤ) where
    -- The trade opens a position of a single lot, and keeps the result realized before.
    pub record Opened (delta before : Money) (t : Position) : Type 0 where
      pub size : t.quantity ≡ delta
      pub cost : t.avg_cost ≡ price
      pub lots : t.open_lots ≡ lot_of lot_id side quantity price at ∷ []
      pub realized : t.realized_pnl ≡ before

    -- The trade adds a lot to the position and realizes nothing.
    pub record Increased (delta : Money) (p t : Position) : Type 0 where
      pub size : add p.quantity delta ≡ ok t.quantity
      pub lots : t.open_lots ≡ p.open_lots ++ lot_of lot_id side quantity price at ∷ []
      pub realized : t.realized_pnl ≡ p.realized_pnl
      pub cost : Weighted price quantity p t

    -- The position left after a close: of the lots kept at their average cost, or of one lot of
    -- the trade's side for what it is greater by than the position.
    abbrev pub LeftOver : Bool → Money → Money → List Lot → Position → Type 0
    LeftOver false traded held kept t =
        (t.open_lots ≡ kept) × Averages (eq t.quantity zero_money) t.quantity kept t.avg_cost
    LeftOver true traded held kept t =
        (t.avg_cost ≡ price)
        × (rest : Money) × (sub traded held ≡ ok rest)
        × (t.open_lots ≡ lot_of lot_id side rest price at ∷ [])

    -- The trade closes lots of the position, as many as the smaller of the two quantities, and
    -- realizes what they earn at the price.
    pub record Reduced (delta : Money) (p t : Position) : Type 0 where
      pub size : add p.quantity delta ≡ ok t.quantity
      pub traded : Money
      pub held : Money
      pub traded_is : abs delta ≡ ok traded
      pub held_is : abs p.quantity ≡ ok held
      pub kept : List Lot
      pub pieces : List (Lot × Money)
      pub closes : Closes (if lt held traded then held else traded) p.open_lots kept pieces
      pub earned : Money
      pub earns : gains price multiplier pieces zero_money ≡ ok earned
      pub realized : add p.realized_pnl earned ≡ ok t.realized_pnl
      pub left : LeftOver (gt traded held) traded held kept t

    -- Opened where nothing is held, increased where both quantities are above zero or neither
    -- is, and reduced where they differ in sign.
    abbrev pub Trades : Bool → Bool → Money → Position → Position → Type 0
    Trades true same delta p t = Opened delta p.realized_pnl t
    Trades false true delta p t = Increased delta p t
    Trades false false delta p t = Reduced delta p t

    abbrev pub Traded : Money → Option Position → Position → Type 0
    Traded delta none t = Opened delta zero_money t
    Traded delta (some p) t =
        Trades (eq p.quantity zero_money) (bool_eq (gt p.quantity zero_money) (gt delta zero_money))
          delta p t
