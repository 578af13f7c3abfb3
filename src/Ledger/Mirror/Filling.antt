-- ===== src/Ledger/Mirror/Filling.antt =====
-- The mirror's fills (crates/te_core/src/ledger/mirror.rs): the increment of a ticket's fill is
-- split over its strategy orders and booked per account and contract.
use trade_engine.Base.{
  Bool, false, not, Option, none, some, List, [], ◌∷◌, String, ok, ◌>>=◌, ◌>>◌, err_if, map_err,
  str_eq, if◌then◌else◌,
}
use trade_engine.Base.Int.{ℤ, pos, negsuc, ◌-ℤ◌, eq_ℤ}
use trade_engine.Money.Decimal.{Money, zero_money}
use trade_engine.Money.Rounding.{floor}
use trade_engine.Money.Integral.{int, to_integral, trunc_i128, add_i128}
use trade_engine.Money.Order.{Decimals, eq, lt, gt}
use trade_engine.Ledger.Errors.{LErr, R, derr, add, sub, mul, mul_i, div, neg}
use trade_engine.Ledger.Dict.{Dict, get, insert, remove, put}
use trade_engine.Ledger.Keys.{hk, book_hk}
use trade_engine.Ledger.Model.{Side, buy, sell, Instrument, combo, Legs, none_left, leg, opt_dec_eq}
use trade_engine.Ledger.FillHandler.{get_or}
use trade_engine.Ledger.Mirror.{
  MirrorAllocation, MirrorQueued, MirrorFill, MirrorTicketState, MirrorState, check_venue, ticket,
}

-- The floors of the exact shares.
unfoldable pub floor_shares : List Money → Money → Money → R (List Money)
floor_shares [] whole amount = ok []
floor_shares (w ∷ ws) whole amount = do
  product ← mul w amount
  x ← div product whole
  share ← map_err derr (to_integral x floor)
  shares ← floor_shares ws whole amount
  ok (share ∷ shares)

unfoldable pub sum_from : Money → List Money → R Money
sum_from total [] = ok total
sum_from total (x ∷ xs) = do total' ← add total x; sum_from total' xs

module _ ⦃d : Decimals⦄ where
  -- One more for each of the first shares under their weight, while the remainder lasts.
  unfoldable pub spread : List Money → List Money → ℤ → R (List Money)
  spread [] ws remainder = ok []
  spread (share ∷ shares) [] remainder = ok (share ∷ shares)
  spread (share ∷ shares) (w ∷ ws) remainder =
      let raised = (do
        more ← map_err derr (add_i128 share (pos 1))
        rest ← spread shares ws (remainder -ℤ pos 1)
        ok (more ∷ rest)) in
      let kept = (do rest ← spread shares ws remainder; ok (share ∷ rest)) in
      if eq_ℤ remainder (pos 0) then ok (share ∷ shares) else if lt share w then raised else kept

  unfoldable pub pro_rata : List Money → Money → Money → R (List Money)
  unfolding floor_shares sum_from spread
  pro_rata weights whole amount = do
    shares ← floor_shares weights whole amount
    total ← sum_from zero_money shares
    left ← sub amount total
    remainder ← map_err derr (trunc_i128 left)
    spread shares weights remainder

unfoldable pub sign : Side → ℤ
sign buy = pos 1
sign sell = negsuc 0

pub data SignAt : Type 0 where
  first last : SignAt

unfoldable pub units_signed : Side → Money → R Money
unfolding sign
units_signed side units = mul (int (sign side)) units

abbrev pub mul_ratio : Money → Option ℤ → R Money
mul_ratio m none = ok m
mul_ratio m (some r) = mul_i m r

abbrev pub negated_for : Side → Money → R Money
negated_for buy m = ok m
negated_for sell m = neg m

-- The closure `one` of `signed_contracts`.
unfoldable pub signed_one : Side → Option ℤ → Money → SignAt → R Money
unfolding units_signed
signed_one side ratio units first = do signed ← units_signed side units; mul_ratio signed ratio
signed_one side ratio units last = do m ← mul_ratio units ratio; negated_for side m

unfoldable pub signed_legs :
    Legs → Money → SignAt → Dict Instrument Money → R (Dict Instrument Money)
unfolding signed_one
signed_legs none_left units at out = ok out
signed_legs (leg i ratio s rest) units at out = do
  v ← signed_one s (some ratio) units at
  signed_legs rest units at (insert (hk i) i v out)

unfoldable pub signed_contracts : Instrument → Side → Money → SignAt → R (Dict Instrument Money)
unfolding signed_legs signed_one
signed_contracts (combo legs) side units at = signed_legs legs units at []
signed_contracts i side units at = do v ← signed_one side none units at; ok (insert (hk i) i v [])

unfoldable pub ticket_contracts : MirrorQueued → Money → R (Dict Instrument Money)
unfolding signed_contracts
ticket_contracts q units = signed_contracts q.instrument q.side units first

-- What each strategy order still lacks.
unfoldable pub lacking : List MirrorAllocation → Dict String Money → R (List Money)
lacking [] allocated = ok []
lacking (a ∷ as') allocated = do
  l ← sub a.quantity (get_or zero_money (get a.strategy_order_id allocated))
  ls ← lacking as' allocated
  ok (l ∷ ls)

module _ ⦃d : Decimals⦄ where
  -- An entry that comes to zero leaves the book.
  unfoldable pub book_entry :
      String
      → Instrument
      → Money
      → Dict (String × Instrument) Money
      → R (Dict (String × Instrument) Money)
  book_entry account contract quantity book =
      let key = book_hk account contract in
      do
        total ← add (get_or zero_money (get key book)) quantity
        ok (
            if eq total zero_money
            then remove key book
            else insert key (account, contract) total book)

  unfoldable pub book_contracts :
      String
      → Dict Instrument Money
      → Dict (String × Instrument) Money
      → R (Dict (String × Instrument) Money)
  unfolding book_entry
  book_contracts account [] book = ok book
  book_contracts account ((key, contract, quantity) ∷ rest) book = do
    book' ← book_entry account contract quantity book
    book_contracts account rest book'

  -- The loop over the allocations and their pieces.
  unfoldable pub allocate_pieces :
      MirrorQueued
      → List MirrorAllocation
      → List Money
      → Dict String Money
      → Dict (String × Instrument) Money
      → R (Dict String Money × Dict (String × Instrument) Money)
  unfolding ticket_contracts book_contracts
  allocate_pieces q [] pieces allocated book = ok (allocated, book)
  allocate_pieces q (a ∷ as') [] allocated book = ok (allocated, book)
  allocate_pieces q (a ∷ as') (piece ∷ pieces) allocated book = do
    now ← add (get_or zero_money (get a.strategy_order_id allocated)) piece
    contracts ← ticket_contracts q piece
    book' ← book_contracts a.strategy_account contracts book
    allocate_pieces q as' pieces (put a.strategy_order_id now allocated) book'

  -- A fill that raises the cumulative quantity.
  unfoldable pub book_fill : MirrorState → MirrorTicketState → MirrorFill → R MirrorState
  unfolding lacking pro_rata allocate_pieces
  book_fill st t f = do
    weights ← lacking t.queued.allocations t.allocated
    whole ← sub t.queued.quantity t.filled
    amount ← sub f.filled t.filled
    pieces ← pro_rata weights whole amount
    (allocated, book) ← allocate_pieces t.queued t.queued.allocations pieces t.allocated st.book
    ok (record st {
      tickets =
          put f.ticket_key
            (record t { filled = f.filled; avg_price = some f.avg_price; allocated = allocated })
            st.tickets;
      book = book;
    })

  -- The ticket's proven order id.
  abbrev pub proven : Option String → String → Bool
  proven none v = false
  proven (some w) v = str_eq w v

  unfoldable pub fill_ticket : MirrorState → MirrorTicketState → MirrorFill → R MirrorState
  unfolding book_fill
  fill_ticket st t f =
      let known = (do
        err_if (not (opt_dec_eq (some f.avg_price) t.avg_price)) LErr.mirror_fold
        ok st) in
      let grown = book_fill st t f in
      do
        err_if (not (proven t.venue_order_id f.venue_order_id)) LErr.mirror_fold
        err_if (gt f.filled t.queued.quantity) LErr.mirror_fold
        err_if (lt f.filled t.filled) LErr.mirror_fold
        if eq f.filled t.filled then known else grown

  unfoldable pub on_fill : MirrorState → MirrorFill → R MirrorState
  unfolding check_venue ticket fill_ticket
  on_fill st f = do check_venue st f.venue; t ← ticket st f.ticket_key; fill_ticket st t f
