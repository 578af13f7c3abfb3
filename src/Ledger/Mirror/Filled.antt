-- ===== src/Ledger/Mirror/Filled.antt =====
-- The steps of a mirrored fill that is not refused (`on_fill` of
-- crates/te_core/src/ledger/mirror.rs).
use trade_engine.Base.{
  ◌≡◌, refl, Bool, true, false, not, some, String, ok, ok_or, ok_or-some, ◌>>◌, err_if,
}
use trade_engine.Base.OnOk.{
  OnOk, holds, OnOk-if_eq, OnOk-ok, OnOk-of, OnOk-bind, OnOk-bind_eq, OnOk-err_if,
}
use trade_engine.Money.Decimal.{Money}
use trade_engine.Money.Order.{Decimals, eq, lt, gt}
use trade_engine.Ledger.Errors.{LErr}
use trade_engine.Ledger.Dict.{Dict, get, put}
use trade_engine.Ledger.Model.{Instrument, opt_dec_eq}
use trade_engine.Ledger.Mirror.{
  MirrorFill, MirrorTicketState, MirrorState, differs, check_venue, ticket,
}
use trade_engine.Ledger.Mirror.Filling.{proven, book_fill, fill_ticket, on_fill}

-- The ticket after a fill that raised its quantity.
abbrev pub raised : MirrorTicketState → MirrorFill → Dict String Money → MirrorTicketState
raised t f allocated = record t {
  filled = f.filled;
  avg_price = some f.avg_price;
  allocated = allocated;
}

-- The state after it.
abbrev pub grown :
    MirrorState
    → MirrorTicketState
    → MirrorFill
    → Dict String Money
    → Dict (String × Instrument) Money
    → MirrorState
grown m t f allocated book = record m {
  tickets = put f.ticket_key (raised t f allocated) m.tickets;
  book = book;
}

-- The same fill again changes nothing; a greater one is booked.
pub data FillOutcome ⦃d : Decimals⦄ (m : MirrorState) (t : MirrorTicketState) (f : MirrorFill)
    : MirrorState → Type 0 where
  known :
      eq f.filled t.filled ≡ true
      → opt_dec_eq (some f.avg_price) t.avg_price ≡ true
      → FillOutcome m t f m
  more :
      (allocated : Dict String Money) (book : Dict (String × Instrument) Money)
      → FillOutcome m t f (grown m t f allocated book)

pub record Filled ⦃d : Decimals⦄ (m : MirrorState) (f : MirrorFill) (m' : MirrorState)
    : Type 0 where
  pub of_ticket : MirrorTicketState
  pub same_venue : differs m.venue f.venue ≡ false
  pub found : get f.ticket_key m.tickets ≡ some of_ticket
  pub own : not (proven of_ticket.venue_order_id f.venue_order_id) ≡ false
  pub bounded : gt f.filled of_ticket.queued.quantity ≡ false
  pub rising : lt f.filled of_ticket.filled ≡ false
  pub outcome : FillOutcome m of_ticket f m'

module _ ⦃d : Decimals⦄ where
  passes : (b : Bool) → not b ≡ false → b ≡ true
  passes true h = refl
  passes false h = cc

  book_fill-more :
      (m : MirrorState) (t : MirrorTicketState) (f : MirrorFill)
      → OnOk (FillOutcome m t f) (book_fill m t f)
  unfolding book_fill
  book_fill-more m t f = search (OnOk-bind, holds, more) depth 10

  known_fill :
      (m : MirrorState) (t : MirrorTicketState) (f : MirrorFill)
      → eq f.filled t.filled ≡ true
      → OnOk
          (FillOutcome m t f)
          (err_if (not (opt_dec_eq (some f.avg_price) t.avg_price)) LErr.mirror_fold >> ok m)
  known_fill m t f same = OnOk-err_if _ _ λ priced. holds (known same (passes _ priced))

  pub on_fill-Filled : (m : MirrorState) (f : MirrorFill) → OnOk (Filled m f) (on_fill m f)
  unfolding on_fill check_venue ticket fill_ticket
  on_fill-Filled m f = OnOk-err_if (differs m.venue f.venue) _ λ same_venue.
      OnOk-bind_eq (ok_or (get f.ticket_key m.tickets) LErr.mirror_fold) λ t found.
        OnOk-err_if (not (proven t.venue_order_id f.venue_order_id)) _ λ own.
          OnOk-err_if (gt f.filled t.queued.quantity) _ λ bounded.
            OnOk-err_if (lt f.filled t.filled) _ λ rising. OnOk-of _ λ m' e. record {
              of_ticket = t;
              same_venue = same_venue;
              found = ok_or-some _ LErr.mirror_fold found;
              own = own;
              bounded = bounded;
              rising = rising;
              outcome =
                  OnOk-ok
                    (OnOk-if_eq (eq f.filled t.filled) (known_fill m t f)
                      (λ k. book_fill-more m t f))
                    e;
            }
