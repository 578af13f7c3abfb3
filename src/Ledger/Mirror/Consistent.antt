-- ===== src/Ledger/Mirror/Consistent.antt =====
-- What every step of the venue mirror keeps (crates/te_core/src/ledger/mirror.rs).
use trade_engine.Base.{
  ◌≡◌, sym, ap, subst, ◌∙◌, Bool, true, false, Option, none, some, String, ok, ok_or, ok_or-some,
  ◌⊎◌, inl, inr, arith, str_eq, str_eq_iff, if◌then◌else◌, if_true, if_false, Bool-cases, some_inj,
}
use trade_engine.Base.OnOk.{OnOk, holds, OnOk-ok, OnOk-of, OnOk-bind_eq, OnOk-err_if}
use trade_engine.Money.Decimal.{zero_money}
use trade_engine.Money.Order.{Decimals, gt}
use trade_engine.Ledger.Errors.{LErr}
use trade_engine.Ledger.Dict.{get, contains, put, get-insert}
use trade_engine.Ledger.Mirror.{
  MirrorRefused, MirrorAck, MirrorFill, MirrorTicketState, MirrorState, new_mirror, differs,
  check_venue, ticket, on_refused, or_else, check_owner, put_order_id, acked, on_ack,
}
use trade_engine.Ledger.Mirror.Filling.{on_fill}
use trade_engine.Ledger.Mirror.Entries.{entries-put, names_order, contains-put}
use trade_engine.Ledger.Mirror.Filled.{FillOutcome, raised, known, more, on_fill-Filled}

-- What is true of the ticket `t` at the key `k`.
pub record TicketIs ⦃d : Decimals⦄ (m : MirrorState) (k : String) (t : MirrorTicketState)
    : Type 0 where
  pub named : t.queued.ticket_key ≡ k
  pub at_venue : m.venue ≡ some t.queued.venue
  pub on_it :
      (oid : String)
      → names_order oid t.queued.allocations ≡ true
      → get oid m.queued_orders ≡ some k
  pub owns : (v : String) → t.venue_order_id ≡ some v → get v m.order_ids ≡ some k
  pub within : (t.filled ≡ zero_money) ⊎ (gt t.filled t.queued.quantity ≡ false)

-- No strategy order is both queued and refused, and every ticket is as above.
pub record IsConsistent ⦃d : Decimals⦄ (m : MirrorState) : Type 0 where
  pub once :
      (oid : String) → contains oid m.queued_orders ≡ true → contains oid m.refused_orders ≡ false
  pub tickets : (k : String) (t : MirrorTicketState) → get k m.tickets ≡ some t → TicketIs m k t

module _ ⦃d : Decimals⦄ where
  pub new_mirror-IsConsistent : IsConsistent new_mirror
  unfolding new_mirror get contains
  new_mirror-IsConsistent = record { once = λ oid h. cc; tickets = λ k t h. cc }

  -- A known venue is the one that an event names.
  pub check_venue-same :
      (o : Option String) (v w : String) → differs o w ≡ false → o ≡ some v → v ≡ w
  check_venue-same none v w h e = cc
  check_venue-same (some u) v w h e = sym (some_inj e) ∙ ground (arith, str_eq_iff u w)

  pub on_refused-IsConsistent :
      (m : MirrorState) (r : MirrorRefused) → IsConsistent m → OnOk IsConsistent (on_refused m r)
  unfolding on_refused check_venue
  on_refused-IsConsistent m r h = OnOk-err_if (differs m.venue r.venue) _ λ same_venue.
      OnOk-err_if (contains r.strategy_order_id m.queued_orders) _ λ not_queued.
        holds (go same_venue not_queued (contains r.strategy_order_id m.refused_orders))
    where
      recorded : MirrorState
      recorded = record m {
        refused_orders = put r.strategy_order_id r.reason m.refused_orders;
        venue = some r.venue;
      }

      go :
          differs m.venue r.venue ≡ false
          → contains r.strategy_order_id m.queued_orders ≡ false
          → (b : Bool) → IsConsistent (if b then m else recorded)
      go same_venue not_queued true = h
      go same_venue not_queued false = record {
        once = λ oid c.
            let entry = contains-put oid r.strategy_order_id r.reason m.refused_orders in
            let other : str_eq r.strategy_order_id oid ≡ false =
              elim (Bool-cases (str_eq r.strategy_order_id oid)) [
                | inl e ↦
                    let same = (str_eq_iff r.strategy_order_id oid).0 e in
                    let clash = subst (λ i. contains i m.queued_orders ≡ false) same not_queued in
                    cc
                | inr e ↦ e
              ] in
            entry ∙ (if_false _ _ other ∙ h.once oid c);
        tickets = λ k t g.
            let old = h.tickets k t g in
            record {
              named = old.named;
              at_venue = ap some (sym (check_venue-same m.venue _ r.venue same_venue old.at_venue));
              on_it = old.on_it;
              owns = old.owns;
              within = old.within;
            };
      }

  -- The ids that the venue gave, after one more.
  owned_ids :
      (m : MirrorState) (o : Option String) (key : String) (t : MirrorTicketState)
      → check_owner m t key o ≡ ok tt
      → (k v : String) → get v m.order_ids ≡ some k
      → get v (put_order_id o key m.order_ids) ≡ some k
  unfolding check_owner put_order_id put
  owned_ids m none key t c k v g = g
  owned_ids m (some w) key t c k v g =
      ground (arith, get-insert w v w key m.order_ids, str_eq_iff w v, str_eq_iff k key)

  acked-owns :
      (m : MirrorState) (o : Option String) (key : String) (t : MirrorTicketState)
      → ((v : String) → t.venue_order_id ≡ some v → get v m.order_ids ≡ some key)
      → check_owner m t key o ≡ ok tt
      → (v : String) → or_else o t.venue_order_id ≡ some v
      → get v (put_order_id o key m.order_ids) ≡ some key
  unfolding check_owner put_order_id put
  acked-owns m none key t old c v e = old v e
  acked-owns m (some w) key t old c v e =
      get-insert w v w key m.order_ids ∙ if_true _ _ ((str_eq_iff w v).1 (some_inj e))

  pub on_ack-IsConsistent :
      (m : MirrorState) (a : MirrorAck) → IsConsistent m → OnOk IsConsistent (on_ack m a)
  unfolding on_ack check_venue ticket acked
  on_ack-IsConsistent m a h = OnOk-err_if (differs m.venue a.venue) _ λ same_venue.
      OnOk-bind_eq (ok_or (get a.ticket_key m.tickets) LErr.mirror_fold) λ t known.
        OnOk-bind_eq (check_owner m t a.ticket_key a.venue_order_id) λ u own.
          let old = h.tickets a.ticket_key t (ok_or-some _ LErr.mirror_fold known) in
          holds (record {
            once = h.once;
            tickets =
                entries-put (TicketIs _) a.ticket_key (acked t a) m.tickets
                  (λ k s g.
                    let is = h.tickets k s g in
                    record {
                      named = is.named;
                      at_venue = is.at_venue;
                      on_it = is.on_it;
                      owns =
                          λ v e. owned_ids m a.venue_order_id a.ticket_key t own k v (is.owns v e);
                      within = is.within;
                    })
                  (record {
                    named = old.named;
                    at_venue = old.at_venue;
                    on_it = old.on_it;
                    owns = acked-owns m a.venue_order_id a.ticket_key t old.owns own;
                    within = old.within;
                  });
          })

  filled_tickets :
      (m : MirrorState) (t : MirrorTicketState) (f : MirrorFill) {m' : MirrorState}
      → IsConsistent m
      → get f.ticket_key m.tickets ≡ some t
      → gt f.filled t.queued.quantity ≡ false
      → FillOutcome m t f m'
      → IsConsistent m'
  filled_tickets m t f h found bounded (known same priced) = h
  filled_tickets m t f h found bounded (more allocated book) =
      let old = h.tickets f.ticket_key t found in
      record {
        once = h.once;
        tickets =
            entries-put (TicketIs _) f.ticket_key (raised t f allocated) m.tickets
              (λ k s g.
                let is = h.tickets k s g in
                record {
                  named = is.named;
                  at_venue = is.at_venue;
                  on_it = is.on_it;
                  owns = is.owns;
                  within = is.within;
                })
              (record {
                named = old.named;
                at_venue = old.at_venue;
                on_it = old.on_it;
                owns = old.owns;
                within = inr bounded;
              });
      }

  pub on_fill-IsConsistent :
      (m : MirrorState) (f : MirrorFill) → IsConsistent m → OnOk IsConsistent (on_fill m f)
  on_fill-IsConsistent m f h = OnOk-of (on_fill m f) λ m' e.
      let b = OnOk-ok (on_fill-Filled m f) e in
      filled_tickets m b.of_ticket f h b.found b.bounded b.outcome
