-- ===== src/Ledger/Mirror.antt =====
-- The state of the venue mirror and its handlers of queued, refused and acknowledged tickets
-- (crates/te_core/src/ledger/mirror.rs, with the payloads of crates/te_core/src/ledger/model.rs).
pub mod Filling
pub mod Views
pub mod Entries
pub mod Filled
pub mod Consistent
pub mod Queued
pub mod Same
pub mod Redelivery
pub mod Lasting
use trade_engine.Base.{
  Bool, true, false, not, ◌&&◌, ◌||◌, Option, none, some, List, [], ◌∷◌, String, ok, err, ◌>>=◌,
  ◌>>◌, err_if, ok_or, str_eq, if◌then◌else◌,
}
use trade_engine.Money.Decimal.{Money, zero_money}
use trade_engine.Money.Order.{Decimals, eq, ge}
use trade_engine.Ledger.Errors.{LErr, R, sub}
use trade_engine.Ledger.Dict.{Dict, get, contains, put}
use trade_engine.Ledger.Model.{
  Side, OrderType, Tif, OrderState, cancelled, expired, rejected, Instrument, DateTime, side_eq,
  order_type_eq, tif_eq, same, same_time, opt_dec_eq,
}

pub record MirrorAllocation : Type 0 where
  pub strategy_order_id : String
  pub strategy_account : String
  pub quantity : Money

pub record MirrorQueued : Type 0 where
  pub venue : String
  pub ticket_key : String
  pub instrument : Instrument
  pub side : Side
  pub quantity : Money
  pub order_type : OrderType
  pub limit_price : Option Money
  pub tif : Tif
  pub allocations : List MirrorAllocation
  pub at : DateTime

pub record MirrorRefused : Type 0 where
  pub venue : String
  pub strategy_order_id : String
  pub strategy_account : String
  pub reason : String
  pub at : DateTime

pub record MirrorAck : Type 0 where
  pub venue : String
  pub ticket_key : String
  pub status : String
  pub message : String
  pub at : DateTime
  pub venue_order_id : Option String
  pub book_status : Option OrderState

pub record MirrorFill : Type 0 where
  pub venue : String
  pub ticket_key : String
  pub venue_order_id : String
  pub filled : Money
  pub avg_price : Money
  pub at : DateTime

pub record MirrorTicketState : Type 0 where
  pub queued : MirrorQueued
  pub ack : Option MirrorAck
  pub venue_order_id : Option String
  pub book_status : Option OrderState
  pub filled : Money
  pub avg_price : Option Money
  pub closed : Bool
  pub allocated : Dict String Money

pub record MirrorState : Type 0 where
  pub venue : Option String
  pub tickets : Dict String MirrorTicketState
  pub book : Dict (String × Instrument) Money
  pub queued_orders : Dict String String
  pub refused_orders : Dict String String
  pub order_ids : Dict String String

-- `MirrorState::default()`
unfoldable pub new_mirror : MirrorState
new_mirror = record {
  venue = none;
  tickets = [];
  book = [];
  queued_orders = [];
  refused_orders = [];
  order_ids = [];
}

unfoldable pub new_ticket : MirrorQueued → MirrorTicketState
new_ticket q = record {
  queued = q;
  ack = none;
  venue_order_id = none;
  book_status = none;
  filled = zero_money;
  avg_price = none;
  closed = false;
  allocated = [];
}

unfoldable pub handled : MirrorState → String → Bool
handled st oid = contains oid st.queued_orders || contains oid st.refused_orders

-- A text is known and is not the given one.
abbrev pub differs : Option String → String → Bool
differs none s = false
differs (some t) s = not (str_eq t s)

unfoldable pub check_venue : MirrorState → String → R (Unit {0})
check_venue st venue = err_if (differs st.venue venue) LErr.mirror_fold

unfoldable pub ticket : MirrorState → String → R MirrorTicketState
ticket st key = ok_or (get key st.tickets) LErr.mirror_fold

-- Every strategy order of the ticket is new to this venue.
unfoldable pub check_fresh : MirrorState → List MirrorAllocation → R (Unit {0})
check_fresh st [] = ok tt
check_fresh st (a ∷ as') = do
  err_if (contains a.strategy_order_id st.queued_orders) LErr.mirror_fold
  err_if (contains a.strategy_order_id st.refused_orders) LErr.mirror_fold
  check_fresh st as'

unfoldable pub put_queued : List MirrorAllocation → String → Dict String String → Dict String String
put_queued [] key orders = orders
put_queued (a ∷ as') key orders = put_queued as' key (put a.strategy_order_id key orders)

unfoldable pub queue_ticket : MirrorState → MirrorQueued → R MirrorState
unfolding check_fresh put_queued new_ticket
queue_ticket st q = do
  check_fresh st q.allocations
  ok (record st {
    queued_orders = put_queued q.allocations q.ticket_key st.queued_orders;
    venue = some q.venue;
    tickets = put q.ticket_key (new_ticket q) st.tickets;
  })

unfoldable pub on_refused : MirrorState → MirrorRefused → R MirrorState
unfolding check_venue
on_refused st r =
    let oid = r.strategy_order_id in
    let recorded = record st {
      refused_orders = put oid r.reason st.refused_orders;
      venue = some r.venue;
    } in
    do
      check_venue st r.venue
      err_if (contains oid st.queued_orders) LErr.mirror_fold
      ok (if contains oid st.refused_orders then st else recorded)

-- `Option::or`
abbrev pub or_else {ℓ} : {A : Type ℓ} → Option A → Option A → Option A
or_else none o = o
or_else (some a) o = some a

-- The venue's order id is the one known for the ticket, and no other ticket's.
unfoldable pub check_owner : MirrorState → MirrorTicketState → String → Option String → R (Unit {0})
check_owner st t key none = ok tt
check_owner st t key (some v) = do
  err_if (differs t.venue_order_id v) LErr.mirror_fold
  err_if (differs (get v st.order_ids) key) LErr.mirror_fold

unfoldable pub closes : Option OrderState → Bool
closes (some cancelled) = true
closes (some expired) = true
closes (some rejected) = true
closes s = false

unfoldable pub put_order_id : Option String → String → Dict String String → Dict String String
put_order_id none key ids = ids
put_order_id (some v) key ids = put v key ids

unfoldable pub acked : MirrorTicketState → MirrorAck → MirrorTicketState
unfolding closes
acked t a = record t {
  ack = some a;
  venue_order_id = or_else a.venue_order_id t.venue_order_id;
  book_status = or_else a.book_status t.book_status;
  closed = t.closed || str_eq a.status "REJECTED" || closes a.book_status;
}

unfoldable pub on_ack : MirrorState → MirrorAck → R MirrorState
unfolding check_venue ticket check_owner put_order_id acked
on_ack st a = do
  check_venue st a.venue
  t ← ticket st a.ticket_key
  check_owner st t a.ticket_key a.venue_order_id
  ok (record st {
    order_ids = put_order_id a.venue_order_id a.ticket_key st.order_ids;
    tickets = put a.ticket_key (acked t a) st.tickets;
  })

module _ ⦃d : Decimals⦄ where
  -- `zip` with equal lengths.
  unfoldable pub same_allocations : List MirrorAllocation → List MirrorAllocation → Bool
  same_allocations [] [] = true
  same_allocations (a ∷ as') (b ∷ bs) =
      str_eq a.strategy_order_id b.strategy_order_id
      && str_eq a.strategy_account b.strategy_account
      && eq a.quantity b.quantity
      && same_allocations as' bs
  same_allocations _ _ = false

  unfoldable pub same_queued : MirrorQueued → MirrorQueued → Bool
  unfolding same side_eq order_type_eq opt_dec_eq tif_eq same_allocations same_time
  same_queued a b =
      str_eq a.venue b.venue
      && str_eq a.ticket_key b.ticket_key
      && same a.instrument b.instrument
      && side_eq a.side b.side
      && eq a.quantity b.quantity
      && order_type_eq a.order_type b.order_type
      && opt_dec_eq a.limit_price b.limit_price
      && tif_eq a.tif b.tif
      && same_allocations a.allocations b.allocations
      && same_time a.at b.at

  unfoldable pub terminal : MirrorTicketState → Bool
  terminal t = t.closed || ge t.filled t.queued.quantity

  unfoldable pub remaining : MirrorTicketState → R Money
  unfolding terminal
  remaining t =
      let rest = sub t.queued.quantity t.filled in if terminal t then ok zero_money else rest

  -- A ticket delivered again must have the same contents.
  unfoldable pub queue_on : MirrorState → MirrorQueued → Option MirrorTicketState → R MirrorState
  unfolding same_queued queue_ticket
  queue_on st q none = queue_ticket st q
  queue_on st q (some t) = if same_queued t.queued q then ok st else err LErr.mirror_fold

  unfoldable pub on_queued : MirrorState → MirrorQueued → R MirrorState
  unfolding check_venue queue_on
  on_queued st q = do check_venue st q.venue; queue_on st q (get q.ticket_key st.tickets)
