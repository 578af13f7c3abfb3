-- ===== src/Ledger/Keys.antt =====
-- Map keys as texts: `Instrument::hk` and `date_iso` (ledger/model.rs), `leg_hk` (ledger/fold.rs) and `book_hk`
-- (ledger/mirror.rs) in crates/te_core/src.
use Prim.Native.String.{◌++◌}
use trade_engine.Base.{ℕ, Option, none, some, String}
use trade_engine.Base.Int.{ℤ}
use trade_engine.Base.Text.{show, show_ℤ, pad, byte_len}
use trade_engine.Money.Spelling.{canon}
use trade_engine.Ledger.Model.{
  Side, buy, sell, Right, call, put, Date, Instrument, equity, option, combo, future, Legs,
  none_left, leg,
}

unfoldable pub date_iso : Date → String
unfolding pad
date_iso d = pad 4 d.year ++ "-" ++ pad 2 d.month ++ "-" ++ pad 2 d.day

unfoldable pub side_value : Side → String
side_value buy = "BUY"
side_value sell = "SELL"

unfoldable pub right_code : Right → String
right_code call = "C"
right_code put = "P"

unfoldable pub month_text : Option (ℕ × ℕ) → String
unfolding pad
month_text none = ""
month_text (some (y, m)) = pad 4 y ++ "-" ++ pad 2 m

unfoldable mutual
  unfolding canon date_iso side_value right_code month_text show_ℤ

  pub hk : Instrument → String
  hk (equity s) = "E\u{1}" ++ s
  hk (option c) =
      "O\u{1}"
      ++ c.underlying
      ++ "\u{1}"
      ++ date_iso c.expiry
      ++ "\u{1}"
      ++ canon c.strike
      ++ "\u{1}"
      ++ right_code c.right
      ++ "\u{1}"
      ++ show_ℤ c.multiplier
  hk (combo legs) = "C" ++ legs_hk legs
  hk (future f) =
      "F\u{1}"
      ++ f.root
      ++ "\u{1}"
      ++ month_text f.contract_month
      ++ "\u{1}"
      ++ canon f.tick_size
      ++ "\u{1}"
      ++ canon f.point_value

  pub legs_hk : Legs → String
  legs_hk none_left = ""
  legs_hk (leg i ratio side rest) =
      "\u{2}" ++ show_ℤ ratio ++ "\u{1}" ++ side_value side ++ "\u{1}" ++ hk i ++ legs_hk rest

unfoldable pub leg_hk : String → ℤ → String
unfolding show show_ℤ byte_len
leg_hk order_id index = show (byte_len order_id) ++ ":" ++ order_id ++ "#" ++ show_ℤ index

unfoldable pub book_hk : String → Instrument → String
unfolding show hk byte_len
book_hk account i = show (byte_len account) ++ ":" ++ account ++ hk i
