-- ===== src/Tests/Mirror.antt =====
-- A ticket of two strategy orders at a venue (crates/te_core/src/ledger/mirror.rs).
use trade_engine.Base.{
  ℕ, ◌≡◌, refl, Bool, true, false, Option, none, some, List, [], ◌∷◌, ok, err, String,
}
use trade_engine.Base.Int.{ℤ, pos}
use trade_engine.Base.OnOk.{OnOk}
use trade_engine.Money.Decimal.{Money}
use trade_engine.Money.Order.{Decimals, by_value}
use trade_engine.Ledger.Errors.{R}
use trade_engine.Ledger.Dict.{Dict, get}
use trade_engine.Ledger.Model.{EventKind, buy, limit, day, equity, DateTime}
use trade_engine.Ledger.State.{AccountState, new_account}
use trade_engine.Ledger.Mirror.{MirrorAllocation, MirrorQueued, MirrorAck, MirrorFill, MirrorState}
use trade_engine.Ledger.Mirror.Consistent.{IsConsistent}
use trade_engine.Ledger.Mirror.Lasting.{Outlasts}
use trade_engine.Ledger.Fold.{
  Event, Obj, m_queued, m_refused, m_ack, m_fill, dispatch, fold_all, fold_account, state_of,
}
use trade_engine.Ledger.Fold.MirrorLog.{
  fold_account-IsConsistent, fold_all-Outlasts, is_mirrored, dispatch-redelivered,
}

abbrev noon : DateTime
noon = record { days = 739000; sod = 43200; us = 0; off = pos 0 }

abbrev lots : ℕ → Money
lots n = record { neg = false; coef = n; scale = 0 }

abbrev share_of : String → ℕ → MirrorAllocation
share_of oid n = record { strategy_order_id = oid; strategy_account = "S"; quantity = lots n }

abbrev queued_ticket : MirrorQueued
queued_ticket = record {
  venue = "V";
  ticket_key = "t1";
  instrument = equity "SPY";
  side = buy;
  quantity = lots 3;
  order_type = limit;
  limit_price = some (lots 12);
  tif = day;
  allocations = share_of "o1" 1 ∷ share_of "o2" 2 ∷ [];
  at = noon;
}

abbrev first_ack : MirrorAck
first_ack = record {
  venue = "V";
  ticket_key = "t1";
  status = "ACCEPTED";
  message = "";
  at = noon;
  venue_order_id = some "v9";
  book_status = none;
}

abbrev two_filled : MirrorFill
two_filled = record {
  venue = "V";
  ticket_key = "t1";
  venue_order_id = "v9";
  filled = lots 2;
  avg_price = lots 12;
  at = noon;
}

abbrev event : EventKind → Obj → Event
event kind payload = record {
  account = "A";
  kind = kind;
  payload = payload;
  ts_utc = noon;
  command_id = none;
  schema_version = pos 1;
  seq = none;
}

unfoldable log : List Event
log =
    event EventKind.mirror_queued (m_queued queued_ticket)
    ∷ event EventKind.mirror_ack (m_ack first_ack)
    ∷ event EventKind.mirror_fill (m_fill two_filled)
    ∷ []

abbrev is_ok : {A : Type 0} → R A → Bool
is_ok (ok a) = true
is_ok (err e) = false

result_of : {A : Type 0} (r : R A) → is_ok r ≡ true → (a : A) × (r ≡ ok a)
result_of (ok a) h = (a, refl)
result_of (err e) h = cc

folded : (st : AccountState) × (fold_account ⦃d = by_value⦄ log "A" ≡ ok st)
unfolding fold_account log trade_engine.Ledger.Fold.apply_event trade_engine.Ledger.Mirror.on_queued
    get new_account trade_engine.Ledger.Dict.contains trade_engine.Ledger.Mirror.on_ack
    trade_engine.Ledger.Dict.put trade_engine.Ledger.Dict.insert
    trade_engine.Ledger.Mirror.Filling.on_fill trade_engine.Money.Order.gt
    trade_engine.Money.Order.value_order trade_engine.Base.Powers.pow10 trade_engine.Money.Order.lt
    trade_engine.Money.Order.eq trade_engine.Ledger.Errors.sub trade_engine.Money.Arithmetic.sub
    trade_engine.Money.Decimal.finish_u128 trade_engine.Money.Decimal.to_scale
    trade_engine.Money.Decimal.to_prec trade_engine.Money.Digits.digits
    trade_engine.Money.Decimal.build trade_engine.Money.Decimal.align
    trade_engine.Money.Digits.strip_zeros trade_engine.Money.Decimal.bound
    trade_engine.Ledger.Errors.mul trade_engine.Money.Arithmetic.mul trade_engine.Base.Int.◌+ℤ◌
    trade_engine.Ledger.Errors.div trade_engine.Money.Arithmetic.div
    trade_engine.Money.Decimal.finish_big trade_engine.Money.Integral.to_integral
    trade_engine.Money.Integral.trunc_i128 trade_engine.Money.Integral.add_i128
    trade_engine.Money.Integral.from_i128 trade_engine.Money.Integral.int
    trade_engine.Money.Rounding.shift_round_u128 trade_engine.Money.Rounding.shift_round_big
    trade_engine.Ledger.Errors.add trade_engine.Money.Arithmetic.add trade_engine.Ledger.Errors.derr
    trade_engine.Money.Arithmetic.add_big trade_engine.Base.Int.◌-ℤ◌
    trade_engine.Ledger.Keys.book_hk
folded = result_of (fold_account ⦃d = by_value⦄ log "A") refl

fold_account-IsConsistent_example : IsConsistent ⦃d = by_value⦄ folded.0.mirror
fold_account-IsConsistent_example = fold_account-IsConsistent ⦃d = by_value⦄ log "A" folded.1

fold_all-Outlasts_example :
    OnOk
      (λ t. Outlasts (state_of "A" []).mirror (state_of "A" t).mirror)
      (fold_all ⦃d = by_value⦄ [] log)
fold_all-Outlasts_example = fold_all-Outlasts ⦃d = by_value⦄ "A" log []

dispatch-redelivered_example :
    OnOk
      (λ t. dispatch ⦃d = by_value⦄ t EventKind.mirror_queued (m_queued queued_ticket) ≡ ok t)
      (dispatch ⦃d = by_value⦄ (new_account "A") EventKind.mirror_queued (m_queued queued_ticket))
unfolding is_mirrored
dispatch-redelivered_example =
    dispatch-redelivered ⦃d = by_value⦄ (new_account "A") EventKind.mirror_queued
      (m_queued queued_ticket) refl
