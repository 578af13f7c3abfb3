-- ===== src/Ledger/Mirror/Lasting.antt =====
-- What a step of the venue mirror never takes back (crates/te_core/src/ledger/mirror.rs).
use trade_engine.Base.{
  ◌≡◌, refl, sym, ap, subst, ◌∙◌, Bool, true, false, Option, none, some, String, ok, ok_or, ◌>>◌,
  err_if, arith, str_eq, str_eq_iff, inl, inr, ok_or-some, if◌then◌else◌, if_true, if_false,
  some_inj, Bool-cases,
}
use trade_engine.Base.OnOk.{
  OnOk, holds, fails, OnOk-if_eq, OnOk-ok, OnOk-of, OnOk-bind_eq, OnOk-err_if,
}
use trade_engine.Money.Order.{Decimals, lt}
use trade_engine.Money.Ranking.{AtMost, AtMost-refl, AtMost-trans, not_lt-AtMost}
use trade_engine.Ledger.Errors.{LErr, R}
use trade_engine.Ledger.Dict.{Dict, get, contains, put, get-insert}
use trade_engine.Ledger.Mirror
use trade_engine.Ledger.Mirror.{
  MirrorAllocation, MirrorQueued, MirrorRefused, MirrorAck, MirrorFill, MirrorTicketState,
  MirrorState, new_ticket, differs, check_venue, ticket, check_fresh, put_queued, queue_ticket,
  on_refused, or_else, check_owner, put_order_id, acked, closes, on_ack, same_allocations,
  same_queued, queue_on, on_queued,
}
use trade_engine.Ledger.Mirror.Filling.{on_fill}
use trade_engine.Ledger.Mirror.Filled.{FillOutcome, raised, grown, known, more, on_fill-Filled}
use trade_engine.Ledger.Mirror.Entries.{contains-put, contains-put_queued}

-- The ticket's later state: the same contents, closed if it was, filled at least as far, its venue
-- order proven if it was.
pub record Continues (t t' : MirrorTicketState) : Type 0 where
  pub same : t'.queued ≡ t.queued
  pub closed : t.closed ≡ true → t'.closed ≡ true
  pub filled : AtMost t.filled t'.filled
  pub proven : (v : String) → t.venue_order_id ≡ some v → t'.venue_order_id ≡ some v

-- Every ticket continues, and every strategy order that was handled still is.
pub record Outlasts (m m' : MirrorState) : Type 0 where
  pub tickets :
      (k : String) (t : MirrorTicketState)
      → get k m.tickets ≡ some t
      → (t' : MirrorTicketState) × (get k m'.tickets ≡ some t') × Continues t t'
  pub handled : (oid : String) → Mirror.handled m oid ≡ true → Mirror.handled m' oid ≡ true

Continues-refl : (t : MirrorTicketState) → Continues t t
Continues-refl t = record {
  same = refl;
  closed = λ h. h;
  filled = AtMost-refl t.filled;
  proven = λ v h. h;
}

pub Outlasts-refl : (m : MirrorState) → Outlasts m m
Outlasts-refl m = record { tickets = λ k t h. (t, h, Continues-refl t); handled = λ oid h. h }

pub Outlasts-trans : (a b c : MirrorState) → Outlasts a b → Outlasts b c → Outlasts a c
Outlasts-trans a b c f g = record {
  tickets = λ k t h.
      let (u, first, now) = f.tickets k t h in
      let (v, later, then_on) = g.tickets k u first in
      (
        v,
        later,
        record {
          same = then_on.same ∙ now.same;
          closed = λ e. then_on.closed (now.closed e);
          filled = AtMost-trans t.filled u.filled v.filled now.filled then_on.filled;
          proven = λ w e. then_on.proven w (now.proven w e);
        },
      );
  handled = λ oid h. g.handled oid (f.handled oid h);
}

-- A ticket that is replaced by a later state of it.
put-Continues :
    (k : String) (t t' : MirrorTicketState) (d : Dict String MirrorTicketState)
    → get k d ≡ some t
    → Continues t t'
    → (j : String) (w : MirrorTicketState) → get j d ≡ some w
    → (w' : MirrorTicketState) × (get j (put k t' d) ≡ some w') × Continues w w'
unfolding put
put-Continues k t t' d found c j w h = elim (Bool-cases (str_eq k j)) [
  | inl e ↦
      let same : t ≡ w = some_inj (sym found ∙ (ap (λ i. get i d) ((str_eq_iff k j).0 e) ∙ h)) in
      (t', get-insert k j k t' d ∙ if_true _ _ e, subst (λ u. Continues u t') same c)
  | inr e ↦ (w, get-insert k j k t' d ∙ (if_false _ _ e ∙ h), Continues-refl w)
]

-- A ticket at a key that had none.
put-new :
    (k : String) (t' : MirrorTicketState) (d : Dict String MirrorTicketState)
    → get k d ≡ none
    → (j : String) (w : MirrorTicketState) → get j d ≡ some w
    → (w' : MirrorTicketState) × (get j (put k t' d) ≡ some w') × Continues w w'
unfolding put
put-new k t' d fresh j w h = elim (Bool-cases (str_eq k j)) [
  | inl e ↦ let clash = sym fresh ∙ (ap (λ i. get i d) ((str_eq_iff k j).0 e) ∙ h) in cc
  | inr e ↦ (w, get-insert k j k t' d ∙ (if_false _ _ e ∙ h), Continues-refl w)
]

-- An order stays handled where both maps keep their keys.
handled_more :
    (m m' : MirrorState)
    → ((oid : String) → contains oid m.queued_orders ≡ true → contains oid m'.queued_orders ≡ true)
    → ((oid : String)
        → contains oid m.refused_orders ≡ true
        → contains oid m'.refused_orders ≡ true)
    → (oid : String) → Mirror.handled m oid ≡ true
    → Mirror.handled m' oid ≡ true
unfolding Mirror.handled
handled_more m m' f g oid h = ground (arith, f oid, g oid)

or_true : (b : Bool) {c : Bool} → c ≡ true → (if b then true else c) ≡ true
or_true true h = refl
or_true false h = h

-- A test that was passed.
passed :
    {B : Type 0} (b : Bool) (k : R B) {u : B} → (err_if b LErr.mirror_fold >> k) ≡ ok u → b ≡ false
passed true k h = cc
passed false k h = refl

on_refused-Outlasts : (m : MirrorState) (r : MirrorRefused) → OnOk (Outlasts m) (on_refused m r)
unfolding on_refused check_venue
on_refused-Outlasts m r = OnOk-err_if (differs m.venue r.venue) _ λ same_venue.
    OnOk-err_if (contains r.strategy_order_id m.queued_orders) _
      λ not_queued. holds (go (contains r.strategy_order_id m.refused_orders))
  where
    recorded : MirrorState
    recorded = record m {
      refused_orders = put r.strategy_order_id r.reason m.refused_orders;
      venue = some r.venue;
    }

    go : (b : Bool) → Outlasts m (if b then m else recorded)
    go true = Outlasts-refl m
    go false = record {
      tickets = λ k t h. (t, h, Continues-refl t);
      handled =
          handled_more m recorded (λ oid h. h)
            (λ oid h. contains-put oid r.strategy_order_id r.reason m.refused_orders ∙ or_true _ h);
    }

acked-Continues :
    (m : MirrorState) (t : MirrorTicketState) (a : MirrorAck)
    → check_owner m t a.ticket_key a.venue_order_id ≡ ok tt
    → Continues t (acked t a)
unfolding acked check_owner
acked-Continues m t a own = record {
  same = refl;
  closed = λ h. rw h refl;
  filled = AtMost-refl t.filled;
  proven = go a.venue_order_id own;
}
  where
    go :
        (o : Option String)
        → check_owner m t a.ticket_key o ≡ ok tt
        → (v : String) → t.venue_order_id ≡ some v
        → or_else o t.venue_order_id ≡ some v
    go none own v h = h
    go (some w) own v h =
        let fits : differs (some v) w ≡ false =
          subst (λ o. differs o w ≡ false) h (passed _ _ own) in
        ground (arith, str_eq_iff v w)

on_ack-Outlasts : (m : MirrorState) (a : MirrorAck) → OnOk (Outlasts m) (on_ack m a)
unfolding on_ack check_venue ticket Mirror.handled
on_ack-Outlasts m a = OnOk-err_if (differs m.venue a.venue) _ λ same_venue.
    OnOk-bind_eq (ok_or (get a.ticket_key m.tickets) LErr.mirror_fold) λ t found.
      OnOk-bind_eq (check_owner m t a.ticket_key a.venue_order_id) λ u own. holds (record {
        tickets =
            put-Continues a.ticket_key t (acked t a) m.tickets (ok_or-some _ LErr.mirror_fold found)
              (acked-Continues m t a own);
        handled = λ oid h. h;
      })

module _ ⦃d : Decimals⦄ where
  on_queued-Outlasts : (m : MirrorState) (q : MirrorQueued) → OnOk (Outlasts m) (on_queued m q)
  unfolding on_queued check_venue queue_on queue_ticket
  on_queued-Outlasts m q =
      OnOk-err_if (differs m.venue q.venue) _ λ same_venue. go (get q.ticket_key m.tickets) refl
    where
      go :
          (o : Option MirrorTicketState)
          → get q.ticket_key m.tickets ≡ o
          → OnOk (Outlasts m) (queue_on m q o)
      go none fresh = OnOk-bind_eq (check_fresh m q.allocations) λ u known.
          let after : MirrorState = record m {
            queued_orders = put_queued q.allocations q.ticket_key m.queued_orders;
            venue = some q.venue;
            tickets = put q.ticket_key (new_ticket q) m.tickets;
          } in
          holds {a = after} (record {
            tickets = put-new q.ticket_key (new_ticket q) m.tickets fresh;
            handled =
                handled_more m after
                  (λ oid h.
                    contains-put_queued oid q.ticket_key q.allocations m.queued_orders
                    ∙ or_true _ h)
                  (λ oid h. h);
          })
      go (some t) found =
          OnOk-if_eq (same_queued t.queued q) (λ again. holds (Outlasts-refl m)) (λ other. fails)

  filled-Outlasts :
      (m : MirrorState) (f : MirrorFill) (t : MirrorTicketState)
      → get f.ticket_key m.tickets ≡ some t
      → lt f.filled t.filled ≡ false
      → {m' : MirrorState} → FillOutcome m t f m'
      → Outlasts m m'
  filled-Outlasts m f t found rising (known again priced) = Outlasts-refl m
  filled-Outlasts m f t found rising (more allocated book) = record {
    tickets = put-Continues f.ticket_key t (raised t f allocated) m.tickets found (record {
      same = refl;
      closed = λ h. h;
      filled = not_lt-AtMost f.filled t.filled rising;
      proven = λ v h. h;
    });
    handled = handled_more m (grown m t f allocated book) (λ oid h. h) (λ oid h. h);
  }

  on_fill-Outlasts : (m : MirrorState) (f : MirrorFill) → OnOk (Outlasts m) (on_fill m f)
  on_fill-Outlasts m f = OnOk-of (on_fill m f) λ m' e.
      let b = OnOk-ok (on_fill-Filled m f) e in
      filled-Outlasts m f b.of_ticket b.found b.rising b.outcome

-- Lasting from an earlier state on, as an invariant of the steps.
module _ ⦃d : Decimals⦄ (m : MirrorState) where
  since :
      (n : MirrorState) {r : R MirrorState}
      → Outlasts m n
      → OnOk (Outlasts n) r
      → OnOk (Outlasts m) r
  since n h (holds {a = k} g) = holds (Outlasts-trans m n k h g)
  since n h fails = fails

  pub on_queued-since :
      (n : MirrorState) (q : MirrorQueued) → Outlasts m n → OnOk (Outlasts m) (on_queued n q)
  on_queued-since n q h = since n h (on_queued-Outlasts n q)

  pub on_refused-since :
      (n : MirrorState) (r : MirrorRefused) → Outlasts m n → OnOk (Outlasts m) (on_refused n r)
  on_refused-since n r h = since n h (on_refused-Outlasts n r)

  pub on_ack-since :
      (n : MirrorState) (a : MirrorAck) → Outlasts m n → OnOk (Outlasts m) (on_ack n a)
  on_ack-since n a h = since n h (on_ack-Outlasts n a)

  pub on_fill-since :
      (n : MirrorState) (f : MirrorFill) → Outlasts m n → OnOk (Outlasts m) (on_fill n f)
  on_fill-since n f h = since n h (on_fill-Outlasts n f)
