-- ===== src/Ledger/Fold/MirrorLog.antt =====
-- The venue mirror along a log: its invariant, what lasts, and events delivered again
-- (crates/te_core/src/ledger/fold.rs and mirror.rs).
use trade_engine.Base.{◌≡◌, refl, Bool, true, false, List, String, ok, err}
use trade_engine.Base.OnOk.{OnOk, holds, fails}
use trade_engine.Ledger.Errors.{R}
use trade_engine.Ledger.Dict.{Dict}
use trade_engine.Ledger.Model.{EventKind}
use trade_engine.Money.Order.{Decimals}
use trade_engine.Ledger.State.{AccountState, new_account}
use trade_engine.Ledger.Mirror.{MirrorState, on_queued, on_refused, on_ack}
use trade_engine.Ledger.Mirror.Filling
use trade_engine.Ledger.Mirror.Consistent.{
  IsConsistent, new_mirror-IsConsistent, on_refused-IsConsistent, on_ack-IsConsistent,
  on_fill-IsConsistent,
}
use trade_engine.Ledger.Mirror.Lasting.{
  Outlasts, Outlasts-refl, on_queued-since, on_refused-since, on_ack-since, on_fill-since,
}
use trade_engine.Ledger.Mirror.Redelivery.{
  Settles, on_queued-Settles, on_refused-Settles, on_ack-Settles, on_fill-Settles,
}
use trade_engine.Ledger.Mirror.Queued.{on_queued-IsConsistent}
use trade_engine.Ledger.Fold.{
  Obj, m_queued, m_refused, m_ack, m_fill, mirror_step, dispatch, Event, fold_account, fold_all,
  state_of,
}
use trade_engine.Ledger.Fold.Always.{fold_account-Always, fold_all-At}
use trade_engine.Ledger.Fold.Mirrored.{apply_event-OfMirror}

module _ ⦃d : Decimals⦄ where
  new_account-IsConsistent : (account : String) → IsConsistent (new_account account).mirror
  unfolding new_account
  new_account-IsConsistent account = new_mirror-IsConsistent

  -- In the state that a log folds to, no strategy order is both queued and refused at the venue,
  -- and every ticket is at its own key and at the account's one venue, has all its strategy
  -- orders recorded as queued on it and on no other ticket, is the ticket recorded for the venue
  -- order id it is known by, and is either unfilled or not filled above its quantity.
  pub fold_account-IsConsistent :
      (es : List Event) (account : String) {st : AccountState}
      → fold_account es account ≡ ok st
      → IsConsistent st.mirror
  fold_account-IsConsistent =
      fold_account-Always (λ st. IsConsistent st.mirror) new_account-IsConsistent
        (apply_event-OfMirror IsConsistent on_queued-IsConsistent on_refused-IsConsistent
          on_ack-IsConsistent on_fill-IsConsistent)

  -- Whatever log is folded to its end, from whatever states: a ticket that an account had is
  -- still there with the contents it was queued with, filled at least as far as it was, closed if
  -- it was closed and with the same venue order id if it had one, and a strategy order that was
  -- handled is still handled.
  pub fold_all-Outlasts :
      (account : String) (es : List Event) (states : Dict String AccountState)
      → OnOk
          (λ t. Outlasts (state_of account states).mirror (state_of account t).mirror)
          (fold_all states es)
  fold_all-Outlasts account es states =
      let m = (state_of account states).mirror in
      fold_all-At account (λ st. Outlasts m st.mirror)
        (apply_event-OfMirror (Outlasts m) (on_queued-since m) (on_refused-since m) (on_ack-since m)
          (on_fill-since m))
        es states (Outlasts-refl m)

  -- An event of the venue mirror.
  unfoldable pub is_mirrored : Obj → Bool
  is_mirrored (m_queued q) = true
  is_mirrored (m_refused r) = true
  is_mirrored (m_ack a) = true
  is_mirrored (m_fill f) = true
  is_mirrored p = false

  step_again :
      (st : AccountState) (f : MirrorState → R MirrorState)
      → Settles f st.mirror
      → OnOk (λ t. mirror_step t (f t.mirror) ≡ ok t) (mirror_step st (f st.mirror))
  unfolding mirror_step
  step_again st f h = go (f st.mirror) h
    where
      go :
          (r : R MirrorState)
          → OnOk (λ m. f m ≡ ok m) r
          → OnOk (λ t. mirror_step t (f t.mirror) ≡ ok t) (mirror_step st r)
      go (ok m) (holds e) = holds (rw e refl)
      go (err x) fails = fails

  -- A mirror event that is delivered twice does the second time nothing: if a queued ticket, a
  -- refusal, an acknowledgement or a fill is not refused, then the same event on the state it
  -- left is not refused either and leaves that state as it is.
  pub dispatch-redelivered :
      (st : AccountState) (k : EventKind) (p : Obj)
      → is_mirrored p ≡ true
      → OnOk (λ t. dispatch t k p ≡ ok t) (dispatch st k p)
  unfolding dispatch is_mirrored
  dispatch-redelivered st k (m_queued q) h =
      step_again st (λ m. on_queued m q) (on_queued-Settles st.mirror q)
  dispatch-redelivered st k (m_refused r) h =
      step_again st (λ m. on_refused m r) (on_refused-Settles st.mirror r)
  dispatch-redelivered st k (m_ack a) h =
      step_again st (λ m. on_ack m a) (on_ack-Settles st.mirror a)
  dispatch-redelivered st k (m_fill f) h =
      step_again st (λ m. Filling.on_fill m f) (on_fill-Settles st.mirror f)
  dispatch-redelivered st k p h = cc
