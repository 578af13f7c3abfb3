-- ===== src/Ledger/Mirror/Queued.antt =====
-- A queued ticket keeps the mirror consistent (`on_queued` of crates/te_core/src/ledger/mirror.rs).
use trade_engine.Base.{
  ◌≡◌, refl, sym, ap, ◌∙◌, true, false, Option, none, some, String, ok, inl, inr, if_true, if_false,
  Bool-cases,
}
use trade_engine.Base.OnOk.{OnOk, holds, fails, OnOk-if, OnOk-bind_eq, OnOk-err_if}
use trade_engine.Money.Order.{Decimals}
use trade_engine.Ledger.Dict.{get, contains, put, get-contains}
use trade_engine.Ledger.Mirror.{
  MirrorQueued, MirrorTicketState, MirrorState, new_ticket, differs, check_venue, check_fresh,
  put_queued, queue_ticket, same_queued, queue_on, on_queued,
}
use trade_engine.Ledger.Mirror.Entries.{
  entries-put, names_order, get-put_queued, contains-put_queued, check_fresh-unknown,
}
use trade_engine.Ledger.Mirror.Consistent.{TicketIs, IsConsistent, check_venue-same}

module _ ⦃d : Decimals⦄ where
  module _ (m : MirrorState) (q : MirrorQueued) (h : IsConsistent m)
      (same_venue : differs m.venue q.venue ≡ false)
      (fresh : check_fresh m q.allocations ≡ ok tt) where
    with_ticket : MirrorState
    with_ticket = record m {
      queued_orders = put_queued q.allocations q.ticket_key m.queued_orders;
      venue = some q.venue;
      tickets = put q.ticket_key (new_ticket q) m.tickets;
    }

    queued_once :
        (oid : String)
        → contains oid (put_queued q.allocations q.ticket_key m.queued_orders) ≡ true
        → contains oid m.refused_orders ≡ false
    queued_once oid c =
        let entry = contains-put_queued oid q.ticket_key q.allocations m.queued_orders in
        elim (Bool-cases (names_order oid q.allocations)) [
          | inl n ↦ (check_fresh-unknown m q.allocations fresh oid n).1
          | inr n ↦ h.once oid (sym (entry ∙ if_false _ _ n) ∙ c)
        ]

    -- A strategy order that is on a ticket is none of the new ones.
    not_named :
        (oid k : String) → get oid m.queued_orders ≡ some k → names_order oid q.allocations ≡ false
    not_named oid k g = elim (Bool-cases (names_order oid q.allocations)) [
      | inl n ↦
          let known = get-contains oid m.queued_orders g in
          let unknown = (check_fresh-unknown m q.allocations fresh oid n).0 in cc
      | inr n ↦ n
    ]

    old_ticket :
        (k : String) (t : MirrorTicketState) → get k m.tickets ≡ some t → TicketIs with_ticket k t
    unfolding with_ticket
    old_ticket k t g =
        let old = h.tickets k t g in
        record {
          named = old.named;
          at_venue = ap some (sym (check_venue-same m.venue _ q.venue same_venue old.at_venue));
          on_it = λ oid n.
              get-put_queued oid q.ticket_key q.allocations m.queued_orders
              ∙ (if_false _ _ (not_named oid k (old.on_it oid n)) ∙ old.on_it oid n);
          owns = old.owns;
          within = old.within;
        }

    queued_ticket : TicketIs with_ticket q.ticket_key (new_ticket q)
    unfolding with_ticket new_ticket
    queued_ticket = record {
      named = refl;
      at_venue = refl;
      on_it =
          λ oid n. get-put_queued oid q.ticket_key q.allocations m.queued_orders ∙ if_true _ _ n;
      owns = λ v e. cc;
      within = inl refl;
    }

    with_ticket-IsConsistent : IsConsistent with_ticket
    unfolding with_ticket
    with_ticket-IsConsistent = record {
      once = queued_once;
      tickets =
          entries-put (TicketIs with_ticket) q.ticket_key (new_ticket q) m.tickets old_ticket
            queued_ticket;
    }

  pub on_queued-IsConsistent :
      (m : MirrorState) (q : MirrorQueued) → IsConsistent m → OnOk IsConsistent (on_queued m q)
  unfolding on_queued check_venue queue_ticket with_ticket
  on_queued-IsConsistent m q h =
      OnOk-err_if (differs m.venue q.venue) _
        λ same_venue. go same_venue (get q.ticket_key m.tickets)
    where
      go :
          differs m.venue q.venue ≡ false
          → (o : Option MirrorTicketState) → OnOk IsConsistent (queue_on m q o)
      go same_venue none =
          OnOk-bind_eq (check_fresh m q.allocations)
            λ u fresh. holds (with_ticket-IsConsistent m q h same_venue fresh)
      go same_venue (some t) = OnOk-if (same_queued t.queued q) (holds h) fails
