-- ===== src/Ledger/Fold.antt =====
-- `apply_event`, `ordered`, `fold` and `fold_account` (crates/te_core/src/ledger/fold.rs).
pub mod Orders
pub mod Terminal
pub mod Books
pub mod Always
pub mod Mirrored
pub mod MirrorLog
pub mod Recorded
pub mod Positions
pub mod Isolation
pub mod Agree
use trade_engine.Base.{
  ◌≡◌, ℕ, ◌+◌, Bool, true, false, not, ◌&&◌, ◌||◌, Option, none, some, List, [], ◌∷◌, String,
  Result, ok, err, ◌>>=◌, ◌>>◌, err_if, map_err, str_eq, if◌then◌else◌,
}
use trade_engine.Base.Int.{ℤ, leb_ℤ, pos}
use trade_engine.Money.Decimal.{Money, zero_money}
use trade_engine.Money.Order.{Decimals}
use trade_engine.Ledger.Errors.{LErr, R, add}
use trade_engine.Ledger.Dict.{Dict, get, contains, insert, put}
use trade_engine.Ledger.Keys.{hk}
use trade_engine.Ledger.Model.{
  EventKind, order_pending, order_accepted, order_rejected, order_cancelled, order_expired,
  Instrument, Order, OrderState, pending_unknown, accepted, rejected, cancelled, expired, Fill,
  EmulatedOrderState, DateTime,
}
use trade_engine.Ledger.State.{
  AccountState, VenueReconcile, new_account, member, set_insert, set_remove,
}
use trade_engine.Ledger.Mirror.{
  MirrorQueued, MirrorRefused, MirrorAck, MirrorFill, MirrorState, on_queued, on_refused, on_ack,
}
use trade_engine.Ledger.Mirror.Filling
use trade_engine.Ledger.FillHandler.{get_or, on_fill}
use trade_engine.Ledger.Lifecycle.{OptionLifecycle, on_lifecycle}
use trade_engine.Ledger.OrderHandlers.{
  OrderStateChange, OrdersCreated, OrderUpdated, require_order, on_order_submitted, on_order_state,
  on_orders_created, on_order_updated,
}

-- What the fold reads of each payload.
pub data Obj : Type 0 where
  signal eod_run : Obj
  risk_verdict : Bool → Obj
  risk_control : String → Bool → Obj
  created : OrdersCreated → Obj
  order : Order → Obj
  updated : OrderUpdated → Obj
  state_change : OrderStateChange → Obj
  emulated : EmulatedOrderState → Obj
  fill : Fill → Obj
  cash_flow : Money → Obj
  mark : Instrument → Money → Obj
  reconcile : VenueReconcile → Obj
  halt_cleared : String → Obj
  m_queued : MirrorQueued → Obj
  m_refused : MirrorRefused → Obj
  m_ack : MirrorAck → Obj
  m_fill : MirrorFill → Obj
  lifecycle : OptionLifecycle → Obj
  corporate_action : Obj

pub record Event : Type 0 where
  pub account : String
  pub kind : EventKind
  pub payload : Obj
  pub ts_utc : DateTime
  pub command_id : Option String
  pub schema_version : ℤ
  pub seq : Option ℤ

-- The target state of an order-state event; the other kinds are refusals on record.
unfoldable pub state_target : EventKind → Option OrderState
state_target order_pending = some pending_unknown
state_target order_accepted = some accepted
state_target order_rejected = some rejected
state_target order_cancelled = some cancelled
state_target order_expired = some expired
state_target k = none

unfoldable pub on_state_change :
    AccountState → OrderStateChange → Option OrderState → R AccountState
on_state_change st change (some target) = on_order_state st change target
on_state_change st change none = do
  o ← require_order st change.order_id
  ok (record st { refusals = st.refusals + 1 })

unfoldable pub on_risk_verdict : AccountState → Bool → AccountState
on_risk_verdict st is_accepted = record st {
  verdicts = st.verdicts + 1;
  refusals = if is_accepted then st.refusals else st.refusals + 1;
}

unfoldable pub on_reconcile : AccountState → VenueReconcile → AccountState
on_reconcile st n = record st {
  last_reconcile = some n;
  venue_halted = st.venue_halted || not n.reconciled;
  halted_venues = if n.reconciled then st.halted_venues else set_insert n.venue st.halted_venues;
}

abbrev pub is_empty {ℓ} : {A : Type ℓ} → List A → Bool
is_empty [] = true
is_empty (x ∷ xs) = false

unfoldable pub on_halt_cleared : AccountState → String → R AccountState
on_halt_cleared st venue =
    let left = set_remove venue st.halted_venues in
    do
      err_if (not (member venue st.halted_venues)) LErr.fold
      ok (record st { halted_venues = left; venue_halted = not (is_empty left) })

unfoldable pub stamp : Option ℤ → AccountState → AccountState
stamp none st = st
stamp (some n) st = record st { last_seq = n }

-- `MirrorFoldError` becomes the fold's own refusal.
unfoldable pub fold_refusal : LErr → LErr
fold_refusal LErr.mirror_fold = LErr.fold
fold_refusal e = e

unfoldable pub mirror_step : AccountState → R MirrorState → R AccountState
unfolding fold_refusal
mirror_step st r = do m ← map_err fold_refusal r; ok (record st { mirror = m })

unfoldable pub is_signal_seen : EventKind → Bool
is_signal_seen EventKind.signal_seen = true
is_signal_seen k = false

module _ ⦃d : Decimals⦄ where
  unfoldable pub dispatch : AccountState → EventKind → Obj → R AccountState
  unfolding on_state_change on_risk_verdict on_reconcile on_halt_cleared state_target is_signal_seen
      mirror_step
  dispatch st k signal =
      if is_signal_seen k
      then ok (record st { signals_seen = st.signals_seen + 1 })
      else err LErr.unhandled
  dispatch st k eod_run = ok st
  dispatch st k (risk_verdict is_accepted) = ok (on_risk_verdict st is_accepted)
  dispatch st k (risk_control control_id enabled) =
      ok (record st { risk_controls = put control_id enabled st.risk_controls })
  dispatch st k (created c) = on_orders_created st c
  dispatch st k (order o) = on_order_submitted st o
  dispatch st k (updated u) = on_order_updated st u
  dispatch st k (state_change c) = on_state_change st c (state_target k)
  dispatch st k (emulated e) = do
    o ← require_order st e.order_id
    ok (record st { emulated_orders = put e.order_id e st.emulated_orders })
  dispatch st k (fill f) = on_fill st f
  dispatch st k (cash_flow amount) = do cash ← add st.cash amount; ok (record st { cash = cash })
  dispatch st k (mark i price) = ok (record st { marks = insert (hk i) i price st.marks })
  dispatch st k (reconcile n) = ok (on_reconcile st n)
  dispatch st k (halt_cleared venue) = on_halt_cleared st venue
  dispatch st k (m_queued q) = mirror_step st (on_queued st.mirror q)
  dispatch st k (m_refused r) = mirror_step st (on_refused st.mirror r)
  dispatch st k (m_ack a) = mirror_step st (on_ack st.mirror a)
  dispatch st k (m_fill f) = mirror_step st (Filling.on_fill st.mirror f)
  dispatch st k (lifecycle n) = on_lifecycle st n k
  dispatch st k corporate_action = err LErr.unhandled

  unfoldable pub apply_event : AccountState → Event → R AccountState
  unfolding dispatch stamp
  apply_event st e = do st' ← dispatch st e.kind e.payload; ok (stamp e.seq st')

-- `v.iter().all(|e| e.seq.is_some())`
unfoldable pub all_numbered : List Event → Bool
all_numbered [] = true
all_numbered (e ∷ es) = elim e.seq [ none ↦ false | some n ↦ all_numbered es ]

abbrev pub seq_of : Event → ℤ
seq_of e = elim e.seq [ none ↦ pos 0 | some n ↦ n ]

-- The library's stable `sort_by_key`, as an insertion sort.
unfoldable pub place : Event → List Event → List Event
place e [] = e ∷ []
place e (f ∷ fs) = if leb_ℤ (seq_of e) (seq_of f) then e ∷ f ∷ fs else f ∷ place e fs

unfoldable pub sort_by_seq : List Event → List Event
unfolding place
sort_by_seq [] = []
sort_by_seq (e ∷ es) = place e (sort_by_seq es)

unfoldable pub ordered : List Event → List Event
unfolding all_numbered sort_by_seq
ordered es = if all_numbered es then sort_by_seq es else es

-- The account's state so far; an account that is new starts empty.
unfoldable pub state_of : String → Dict String AccountState → AccountState
state_of account states = get_or (new_account account) (get account states)

unfoldable pub of_account : String → List Event → List Event
of_account account [] = []
of_account account (e ∷ es) =
    let rest = of_account account es in if str_eq e.account account then e ∷ rest else rest

module _ ⦃d : Decimals⦄ where
  unfoldable pub fold_step : Dict String AccountState → Event → R (Dict String AccountState)
  unfolding state_of
  fold_step states e = do
    st ← apply_event (state_of e.account states) e
    ok (put e.account st states)

  unfoldable pub fold_all : Dict String AccountState → List Event → R (Dict String AccountState)
  unfolding fold_step
  fold_all states [] = ok states
  fold_all states (e ∷ es) = do states' ← fold_step states e; fold_all states' es

  unfoldable pub fold : List Event → R (Dict String AccountState)
  unfolding fold_all ordered
  fold es = fold_all [] (ordered es)

  unfoldable pub fold_account : List Event → String → R AccountState
  unfolding fold of_account state_of
  fold_account es account = do
    states ← fold (of_account account (ordered es))
    ok (state_of account states)
