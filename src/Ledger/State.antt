-- ===== src/Ledger/State.antt =====
-- `AccountState` (crates/te_core/src/ledger/fold.rs). A map is a `Dict`, a `BTreeSet` a list without
-- repetition.
use trade_engine.Base.{
  ℕ, Bool, true, false, Option, none, List, [], ◌∷◌, String, str_eq, if◌then◌else◌,
}
use trade_engine.Base.Int.{ℤ, pos}
use trade_engine.Money.Decimal.{Money, zero_money}
use trade_engine.Ledger.Dict.{Dict}
use trade_engine.Ledger.Model.{Instrument, Order, Fill, EmulatedOrderState, DateTime}
use trade_engine.Ledger.Lots.{Position}
use trade_engine.Ledger.Mirror.{MirrorState, new_mirror}

pub record VenueReconcile : Type 0 where
  pub venue : String
  pub as_of : DateTime
  pub reconciled : Bool
  pub drift : List String
  pub note : Option String

-- `BTreeSet<String>`: membership, and insertion of what is not there yet.
abbrev pub member : String → List String → Bool
member s [] = false
member s (t ∷ ts) = if str_eq t s then true else member s ts

-- The source's ordered set of fill ids, kept in the order of insertion; only membership is read.
abbrev pub set_insert : String → List String → List String
set_insert s [] = s ∷ []
set_insert s (t ∷ ts) = if str_eq t s then t ∷ ts else t ∷ set_insert s ts

abbrev pub set_remove : String → List String → List String
set_remove s [] = []
set_remove s (t ∷ ts) = if str_eq t s then ts else t ∷ set_remove s ts

pub record AccountState : Type 0 where
  pub account_id : String
  pub cash : Money
  pub positions : Dict Instrument Position
  pub orders : Dict String Order
  pub filled_quantity : Dict String Money
  pub leg_filled : Dict (String × ℤ) Money
  pub venue_order_ids : Dict String String
  pub emulated_orders : Dict String EmulatedOrderState
  pub fills : List Fill
  pub fill_ids : List String
  pub marks : Dict Instrument Money
  pub realized_pnl : Money
  pub signals_seen : ℕ
  pub verdicts : ℕ
  pub refusals : ℕ
  pub last_reconcile : Option VenueReconcile
  pub venue_halted : Bool
  pub halted_venues : List String
  pub risk_controls : Dict String Bool
  pub mirror : MirrorState
  pub last_seq : ℤ

unfoldable pub new_account : String → AccountState
unfolding new_mirror
new_account account_id = record {
  account_id = account_id;
  cash = zero_money;
  positions = [];
  orders = [];
  filled_quantity = [];
  leg_filled = [];
  venue_order_ids = [];
  emulated_orders = [];
  fills = [];
  fill_ids = [];
  marks = [];
  realized_pnl = zero_money;
  signals_seen = 0;
  verdicts = 0;
  refusals = 0;
  last_reconcile = none;
  venue_halted = false;
  halted_venues = [];
  risk_controls = [];
  mirror = new_mirror;
  last_seq = pos 0;
}
