-- ===== src/Ledger/Mirror/Views.antt =====
-- What the mirror's state shows: open tickets, exposure and expected positions
-- (crates/te_core/src/ledger/mirror.rs).
use trade_engine.Base.{not, List, [], ◌∷◌, String, ok, ◌>>=◌, if◌then◌else◌}
use trade_engine.Base.Text.{str_leb}
use trade_engine.Money.Decimal.{Money, zero_money}
use trade_engine.Money.Order.{Decimals, eq}
use trade_engine.Ledger.Errors.{R, add, sub}
use trade_engine.Ledger.Dict.{Dict, get, insert}
use trade_engine.Ledger.Keys.{hk, book_hk}
use trade_engine.Ledger.Model.{Instrument}
use trade_engine.Ledger.FillHandler.{get_or}
use trade_engine.Ledger.Mirror.{
  MirrorAllocation, MirrorTicketState, MirrorState, terminal, remaining,
}
use trade_engine.Ledger.Mirror.Filling.{ticket_contracts}

-- The library's stable sort by the ticket key, as an insertion sort.
unfoldable pub place_ticket :
    String → MirrorTicketState → Dict String MirrorTicketState → Dict String MirrorTicketState
place_ticket k t [] = (k, k, t) ∷ []
place_ticket k t ((j, key, u) ∷ rest) =
    if str_leb k j then (k, k, t) ∷ (j, key, u) ∷ rest else (j, key, u) ∷ place_ticket k t rest

unfoldable pub sort_tickets : Dict String MirrorTicketState → Dict String MirrorTicketState
unfolding place_ticket
sort_tickets [] = []
sort_tickets ((k, key, t) ∷ rest) = place_ticket k t (sort_tickets rest)

-- `exposure` and `expected` add to an entry that may not be there.
unfoldable pub add_contracts :
    String
    → Dict Instrument Money
    → Dict (String × Instrument) Money
    → R (Dict (String × Instrument) Money)
add_contracts account [] out = ok out
add_contracts account ((k, contract, quantity) ∷ rest) out =
    let key = book_hk account contract in
    do
      total ← add (get_or zero_money (get key out)) quantity
      add_contracts account rest (insert key (account, contract) total out)

unfoldable pub expect_contracts :
    Dict Instrument Money → Dict Instrument Money → R (Dict Instrument Money)
expect_contracts [] out = ok out
expect_contracts ((k, contract, quantity) ∷ rest) out = do
  total ← add (get_or zero_money (get (hk contract) out)) quantity
  expect_contracts rest (insert (hk contract) contract total out)

unfoldable pub expect_book :
    Dict (String × Instrument) Money → Dict Instrument Money → R (Dict Instrument Money)
expect_book [] out = ok out
expect_book ((k, (account, contract), quantity) ∷ rest) out = do
  total ← add (get_or zero_money (get (hk contract) out)) quantity
  expect_book rest (insert (hk contract) contract total out)

unfoldable pub expose_allocations :
    MirrorTicketState
    → List MirrorAllocation
    → Dict (String × Instrument) Money
    → R (Dict (String × Instrument) Money)
unfolding add_contracts
expose_allocations t [] out = ok out
expose_allocations t (a ∷ as') out = do
  rest ← sub a.quantity (get_or zero_money (get a.strategy_order_id t.allocated))
  contracts ← ticket_contracts t.queued rest
  out' ← add_contracts a.strategy_account contracts out
  expose_allocations t as' out'

unfoldable pub expose_tickets :
    List MirrorTicketState → Dict (String × Instrument) Money → R (Dict (String × Instrument) Money)
unfolding expose_allocations
expose_tickets [] out = ok out
expose_tickets (t ∷ ts) out = do
  out' ← expose_allocations t t.queued.allocations out
  expose_tickets ts out'

unfoldable pub copy_book :
    Dict (String × Instrument) Money
    → Dict (String × Instrument) Money
    → Dict (String × Instrument) Money
copy_book [] out = out
copy_book ((k, (account, contract), quantity) ∷ rest) out =
    copy_book rest (insert (book_hk account contract) (account, contract) quantity out)

module _ ⦃d : Decimals⦄ where
  unfoldable pub open_only : Dict String MirrorTicketState → List MirrorTicketState
  unfolding terminal
  open_only [] = []
  open_only ((k, key, t) ∷ rest) =
      let others = open_only rest in if not (terminal t) then t ∷ others else others

  unfoldable pub open_tickets : MirrorState → List MirrorTicketState
  unfolding open_only sort_tickets
  open_tickets st = open_only (sort_tickets st.tickets)

  unfoldable pub nonzero :
      Dict (String × Instrument) Money
      → Dict (String × Instrument) Money
      → Dict (String × Instrument) Money
  nonzero [] out = out
  nonzero ((k, (account, contract), v) ∷ rest) out = nonzero rest (
      if not (eq v zero_money)
      then insert (book_hk account contract) (account, contract) v out
      else out)

  unfoldable pub exposure : MirrorState → R (Dict (String × Instrument) Money)
  unfolding open_tickets expose_tickets copy_book nonzero
  exposure st = do
    out ← expose_tickets (open_tickets st) (copy_book st.book [])
    ok (nonzero out [])

  unfoldable pub expect_tickets :
      List MirrorTicketState → Dict Instrument Money → R (Dict Instrument Money)
  unfolding remaining expect_contracts
  expect_tickets [] out = ok out
  expect_tickets (t ∷ ts) out = do
    rest ← remaining t
    contracts ← ticket_contracts t.queued rest
    out' ← expect_contracts contracts out
    expect_tickets ts out'

  unfoldable pub expected : MirrorState → R (Dict Instrument Money)
  unfolding open_tickets expect_book expect_tickets
  expected st = do out ← expect_book st.book []; expect_tickets (open_tickets st) out
