-- ===== src/Ledger/Mirror/Redelivery.antt =====
-- A mirror event that is delivered again (crates/te_core/src/ledger/mirror.rs).
use trade_engine.Base.{
  ◌≡◌, refl, ◌∙◌, Bool, true, false, not, ◌||◌, Option, none, some, String, ok, ok_or, arith,
  str_eq, str_eq_self, inl, inr, if_true, Bool-cases,
}
use trade_engine.Base.OnOk.{
  OnOk, holds, fails, OnOk-if_eq, OnOk-ok, OnOk-of, OnOk-bind_eq, OnOk-err_if,
}
use trade_engine.Money.Order.{Decimals, gt}
use trade_engine.Money.Sums.{eq_self, lt_self}
use trade_engine.Ledger.Errors.{LErr, R}
use trade_engine.Ledger.Dict.{Dict, get, contains, put, get-put, put-put}
use trade_engine.Ledger.Model.{same}
use trade_engine.Ledger.Mirror.{
  MirrorQueued, MirrorRefused, MirrorAck, MirrorFill, MirrorTicketState, MirrorState, new_ticket,
  differs, check_venue, ticket, check_fresh, queue_ticket, on_refused, or_else, check_owner,
  put_order_id, acked, closes, on_ack, same_queued, queue_on, on_queued,
}
use trade_engine.Ledger.Mirror.Filling.{proven, fill_ticket, on_fill}
use trade_engine.Ledger.Mirror.Filled.{FillOutcome, raised, known, more, on_fill-Filled}
use trade_engine.Ledger.Mirror.Entries.{contains-put}
use trade_engine.Ledger.Mirror.Same.{opt_dec_eq_self, same_queued_self}

differs_self : (s : String) → differs (some s) s ≡ false
differs_self s = rw (str_eq_self s) refl

or_else-or_else : {A : Type 0} (o p : Option A) → or_else o (or_else o p) ≡ or_else o p
or_else-or_else none p = refl
or_else-or_else (some a) p = refl

or-or : (a b c : Bool) → (a || b || c) || b || c ≡ a || b || c
or-or a b c = ground arith

acked-acked : (t : MirrorTicketState) (a : MirrorAck) → acked (acked t a) a ≡ acked t a
unfolding acked
acked-acked t a = λ i. record t {
  ack = some a;
  venue_order_id = or_else-or_else a.venue_order_id t.venue_order_id i;
  book_status = or_else-or_else a.book_status t.book_status i;
  closed = or-or t.closed (str_eq a.status "REJECTED") (closes a.book_status) i;
}

-- The step `f` returns the same state again from the state it returned.
abbrev pub Settles : (MirrorState → R MirrorState) → MirrorState → Type 0
Settles f m = OnOk (λ m'. f m' ≡ ok m') (f m)

contains-put_self : (k v : String) (d : Dict String String) → contains k (put k v d) ≡ true
contains-put_self k v d = contains-put k k v d ∙ if_true _ _ (str_eq_self k)

pub on_refused-Settles : (m : MirrorState) (r : MirrorRefused) → Settles (λ n. on_refused n r) m
unfolding on_refused check_venue
on_refused-Settles m r = OnOk-err_if (differs m.venue r.venue) _ λ same_venue.
    OnOk-err_if (contains r.strategy_order_id m.queued_orders) _ λ not_queued.
      holds (elim (Bool-cases (contains r.strategy_order_id m.refused_orders)) [
        | inl e ↦ rw (e, same_venue, not_queued, e) refl
        | inr e ↦
            rw
              (
                e,
                str_eq_self r.venue,
                not_queued,
                contains-put_self r.strategy_order_id r.reason m.refused_orders,
              )
              refl
      ])

-- The owner's test passes on what an acknowledgement left.
check_owner-again :
    (n : MirrorState) (u : MirrorTicketState) (k : String) (o w : Option String)
    (ids : Dict String String)
    → n.order_ids ≡ put_order_id o k ids
    → u.venue_order_id ≡ or_else o w
    → check_owner n u k o ≡ ok tt
unfolding check_owner put_order_id
check_owner-again n u k none w ids h g = refl
check_owner-again n u k (some v) w ids h g =
    rw (g, str_eq_self v, h, get-put v k ids, str_eq_self k) refl

put_order_id-again :
    (o : Option String) (k : String) (ids : Dict String String)
    → put_order_id o k (put_order_id o k ids) ≡ put_order_id o k ids
unfolding put_order_id
put_order_id-again none k ids = refl
put_order_id-again (some v) k ids = put-put v k ids

pub on_ack-Settles : (m : MirrorState) (a : MirrorAck) → Settles (λ n. on_ack n a) m
unfolding on_ack check_venue ticket
on_ack-Settles m a = OnOk-err_if (differs m.venue a.venue) _ λ same_venue.
    OnOk-bind_eq (ok_or (get a.ticket_key m.tickets) LErr.mirror_fold) λ t found.
      OnOk-bind_eq (check_owner m t a.ticket_key a.venue_order_id) λ u own.
        let after : MirrorState = record m {
          order_ids = put_order_id a.venue_order_id a.ticket_key m.order_ids;
          tickets = put a.ticket_key (acked t a) m.tickets;
        } in
        let owner =
          check_owner-again after (acked t a) a.ticket_key a.venue_order_id t.venue_order_id
            m.order_ids refl (unfold acked in refl) in
        holds (
          rw
            (
              same_venue,
              get-put a.ticket_key (acked t a) m.tickets,
              owner,
              acked-acked t a,
              put-put a.ticket_key (acked t a) m.tickets,
              put_order_id-again a.venue_order_id a.ticket_key m.order_ids,
            )
            refl)

module _ ⦃d : Decimals⦄ where
  pub on_queued-Settles : (m : MirrorState) (q : MirrorQueued) → Settles (λ n. on_queued n q) m
  unfolding on_queued check_venue queue_on queue_ticket
  on_queued-Settles m q =
      OnOk-err_if (differs m.venue q.venue) _
        λ same_venue. go same_venue (get q.ticket_key m.tickets) refl
    where
      go :
          differs m.venue q.venue ≡ false
          → (o : Option MirrorTicketState) → get q.ticket_key m.tickets ≡ o
          → OnOk (λ m'. on_queued m' q ≡ ok m') (queue_on m q o)
      go same_venue none found = OnOk-bind_eq (check_fresh m q.allocations) λ u fresh.
          let same : same_queued (new_ticket q).queued q ≡ true =
            unfold new_ticket in same_queued_self q in
          holds (rw (str_eq_self q.venue, get-put q.ticket_key (new_ticket q) m.tickets, same) refl)
      go same_venue (some t) found =
          OnOk-if_eq (same_queued t.queued q) (λ same. holds (rw (same_venue, found, same) refl))
            (λ other. fails)

  filled_again :
      (m : MirrorState) (f : MirrorFill) (t : MirrorTicketState)
      → differs m.venue f.venue ≡ false
      → not (proven t.venue_order_id f.venue_order_id) ≡ false
      → gt f.filled t.queued.quantity ≡ false
      → {m' : MirrorState} → on_fill m f ≡ ok m'
      → FillOutcome m t f m'
      → on_fill m' f ≡ ok m'
  unfolding on_fill check_venue ticket fill_ticket
  filled_again m f t same_venue own bounded e (known same priced) = e
  filled_again m f t same_venue own bounded e (more allocated book) =
      rw
        (
          same_venue,
          get-put f.ticket_key (raised t f allocated) m.tickets,
          own,
          bounded,
          lt_self f.filled,
          eq_self f.filled,
          opt_dec_eq_self (some f.avg_price),
        )
        refl

  pub on_fill-Settles : (m : MirrorState) (f : MirrorFill) → Settles (λ n. on_fill n f) m
  on_fill-Settles m f = OnOk-of (on_fill m f) λ m' e.
      let b = OnOk-ok (on_fill-Filled m f) e in
      filled_again m f b.of_ticket b.same_venue b.own b.bounded e b.outcome
