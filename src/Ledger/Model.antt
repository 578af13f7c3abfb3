-- ===== src/Ledger/Model.antt =====
-- The dataclasses of crates/te_core/src/ledger/model.rs that the fold and the order manager read,
-- with the equality that the frozen dataclasses define (`same`). A `NaiveDate` is held by its year,
-- month and day, and a `DateTime` by its day number (`num_days_from_ce`), seconds of day,
-- microseconds and offset, which is what `instant` reads.
use trade_engine.Base.{
  ℕ, ◌+◌, ◌*◌, Bool, true, false, ◌&&◌, Option, none, some, String, ◌==◌, str_eq,
}
use trade_engine.Base.Int.{ℤ, pos, eq_ℤ, ◌-ℤ◌}
use trade_engine.Money.Decimal.{Money}
use trade_engine.Money.Order.{Decimals, eq}

pub data Side : Type 0 where
  buy sell : Side

pub data OrderType : Type 0 where
  market limit stop stop_limit trail : OrderType

pub data Tif : Type 0 where
  day gtc gtd opg moc : Tif

pub data OrderState : Type 0 where
  new submitted accepted partially_filled filled cancelled expired rejected pending_unknown :
      OrderState

pub data EventKind : Type 0 where
  signal_seen risk_verdict orders_created risk_control order_submitted order_updated : EventKind
  order_pending order_accepted order_rejected order_cancelled order_refused order_expired :
      EventKind
  order_emulation_updated fill assignment exercise expiry corporate_action cash_flow mark :
      EventKind
  venue_reconcile venue_halt_cleared eod_run mirror_queued mirror_refused mirror_ack : EventKind
  mirror_fill : EventKind

pub data Right : Type 0 where
  call put : Right

pub record Date : Type 0 where
  pub year : ℕ
  pub month : ℕ
  pub day : ℕ

pub record DateTime : Type 0 where
  pub days : ℕ
  pub sod : ℕ
  pub us : ℕ
  pub off : ℤ

pub record OptionContract : Type 0 where
  pub underlying : String
  pub expiry : Date
  pub strike : Money
  pub right : Right
  pub multiplier : ℤ

pub record FutureContract : Type 0 where
  pub root : String
  pub contract_month : Option (ℕ × ℕ)
  pub tick_size : Money
  pub point_value : Money

-- A combo's legs: contract, ratio, side.
mutual
  pub data Instrument : Type 0 where
    equity : String → Instrument
    option : OptionContract → Instrument
    combo : Legs → Instrument
    future : FutureContract → Instrument

  pub data Legs : Type 0 where
    none_left : Legs
    leg : Instrument → ℤ → Side → Legs → Legs

pub record Lot : Type 0 where
  pub lot_id : String
  pub quantity : Money
  pub cost_basis : Money
  pub acquired_at : DateTime
  pub side : Side

pub record Order : Type 0 where
  pub order_id : String
  pub account_id : String
  pub instrument : Instrument
  pub order_type : OrderType
  pub side : Side
  pub quantity : Money
  pub command_id : String
  pub created_at : DateTime
  pub limit_price : Option Money
  pub stop_price : Option Money
  pub trail_amount : Option Money
  pub tif : Tif
  pub state : OrderState
  pub parent_order_id : Option String
  pub oco_group : Option String

pub record Fill : Type 0 where
  pub fill_id : String
  pub order_id : String
  pub account_id : String
  pub instrument : Instrument
  pub quantity : Money
  pub price : Money
  pub venue_env : String
  pub filled_at : DateTime
  pub side : Side
  pub fee : Money
  pub leg_id : Option String
  pub venue_order_id : Option String
  pub venue_execution_id : Option String

pub record EmulatedOrderState : Type 0 where
  pub order_id : String
  pub observed_price : Option Money
  pub extreme : Option Money
  pub stop_price : Option Money
  pub triggered : Bool
  pub reason : String

-- `==` of the enums, which have no payload.
unfoldable pub side_eq : Side → Side → Bool
side_eq buy buy = true
side_eq sell sell = true
side_eq _ _ = false

unfoldable pub order_type_eq : OrderType → OrderType → Bool
order_type_eq market market = true
order_type_eq limit limit = true
order_type_eq stop stop = true
order_type_eq stop_limit stop_limit = true
order_type_eq trail trail = true
order_type_eq _ _ = false

unfoldable pub tif_eq : Tif → Tif → Bool
tif_eq day day = true
tif_eq gtc gtc = true
tif_eq gtd gtd = true
tif_eq opg opg = true
tif_eq moc moc = true
tif_eq _ _ = false

unfoldable pub state_eq : OrderState → OrderState → Bool
state_eq new new = true
state_eq submitted submitted = true
state_eq accepted accepted = true
state_eq partially_filled partially_filled = true
state_eq filled filled = true
state_eq cancelled cancelled = true
state_eq expired expired = true
state_eq rejected rejected = true
state_eq pending_unknown pending_unknown = true
state_eq _ _ = false

unfoldable pub right_eq : Right → Right → Bool
right_eq call call = true
right_eq put put = true
right_eq _ _ = false

abbrev pub opt_eq {ℓ} : {A : Type ℓ} → (A → A → Bool) → Option A → Option A → Bool
opt_eq f none none = true
opt_eq f (some a) (some b) = f a b
opt_eq f _ _ = false

unfoldable pub date_eq : Date → Date → Bool
date_eq a b = a.year == b.year && a.month == b.month && a.day == b.day

-- The instant: seconds since 0001-01-01 UTC, and microseconds.
unfoldable pub instant : DateTime → ℤ × ℕ
instant t = (pos (t.days * 86400 + t.sod) -ℤ t.off, t.us)

unfoldable pub same_time : DateTime → DateTime → Bool
unfolding instant
same_time a b = eq_ℤ (instant a).0 (instant b).0 && (instant a).1 == (instant b).1

module _ ⦃d : Decimals⦄ where
  unfoldable pub opt_dec_eq : Option Money → Option Money → Bool
  opt_dec_eq none none = true
  opt_dec_eq (some a) (some b) = eq a b
  opt_dec_eq _ _ = false

  unfoldable pub same_option : OptionContract → OptionContract → Bool
  unfolding date_eq right_eq
  same_option a b =
      str_eq a.underlying b.underlying
      && date_eq a.expiry b.expiry
      && eq a.strike b.strike
      && right_eq a.right b.right
      && eq_ℤ a.multiplier b.multiplier

  unfoldable pub same_future : FutureContract → FutureContract → Bool
  same_future a b =
      str_eq a.root b.root
      && opt_eq (λ m n. m.0 == n.0 && m.1 == n.1) a.contract_month b.contract_month
      && eq a.tick_size b.tick_size
      && eq a.point_value b.point_value

  -- `==` as the frozen dataclasses define it; `zip` with equal lengths for the legs.
  unfoldable mutual
    unfolding same_option same_future side_eq

    pub same : Instrument → Instrument → Bool
    same (equity a) (equity b) = str_eq a b
    same (option a) (option b) = same_option a b
    same (combo a) (combo b) = same_legs a b
    same (future a) (future b) = same_future a b
    same _ _ = false

    pub same_legs : Legs → Legs → Bool
    same_legs none_left none_left = true
    same_legs (leg i r s l) (leg j q t m) = eq_ℤ r q && side_eq s t && same i j && same_legs l m
    same_legs _ _ = false

  -- The fields ahead of `state` in the comparison.
  unfoldable pub same_terms : Order → Order → Bool
  unfolding same order_type_eq tif_eq same_time opt_dec_eq side_eq
  same_terms a b =
      str_eq a.order_id b.order_id
      && str_eq a.account_id b.account_id
      && same a.instrument b.instrument
      && order_type_eq a.order_type b.order_type
      && side_eq a.side b.side
      && eq a.quantity b.quantity
      && str_eq a.command_id b.command_id
      && same_time a.created_at b.created_at
      && opt_dec_eq a.limit_price b.limit_price
      && opt_dec_eq a.stop_price b.stop_price
      && opt_dec_eq a.trail_amount b.trail_amount
      && tif_eq a.tif b.tif

  unfoldable pub same_order : Order → Order → Bool
  unfolding same_terms state_eq
  same_order a b =
      same_terms a b
      && state_eq a.state b.state
      && opt_eq str_eq a.parent_order_id b.parent_order_id
      && opt_eq str_eq a.oco_group b.oco_group
