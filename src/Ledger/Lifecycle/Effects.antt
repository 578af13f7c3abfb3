-- ===== src/Ledger/Lifecycle/Effects.antt =====
-- What an option event may do to an account (`on_lifecycle` of crates/te_core/src/ledger/fold.rs),
-- described on the states before and after.
use trade_engine.Base.{
  ◌≡◌, ◌≢◌, Bool, true, false, Option, none, some, List, [], ◌∷◌, String, ok, if◌then◌else◌,
}
use trade_engine.Base.Int.{ℤ}
use trade_engine.Money.Decimal.{Money, zero_money}
use trade_engine.Money.Order.{Decimals, eq, lt, gt}
use trade_engine.Money.Literal.{try_parse}
use trade_engine.Money.Spelling.{canon}
use trade_engine.Ledger.Errors.{add, sub, mul, mul_i, abs}
use trade_engine.Ledger.Dict.{get, insert}
use trade_engine.Ledger.Keys.{hk}
use trade_engine.Ledger.Model.{
  EventKind, expiry, exercise, Side, buy, sell, Instrument, equity, option, Right, call, put, Lot,
}
use trade_engine.Ledger.Lots.{Position}
use trade_engine.Ledger.Lots.Closing.{Closes, gains}
use trade_engine.Ledger.Lots.Taking.{Takes}
use trade_engine.Ledger.Trade.{multiplier}
use trade_engine.Ledger.Trade.Balanced.{IsBalanced}
use trade_engine.Ledger.Trade.Kinds.{Change, Averages, Traded}
use trade_engine.Ledger.State.{AccountState}
use trade_engine.Ledger.Lifecycle.{OptionLifecycle, Settling, lot_name}
use trade_engine.Options.{wire, equity_symbol}
use trade_engine.Options.Lifecycle.{
  deliverable, delivery, intrinsic, is_cash_settled, can_exercise_early,
}

-- A cent, the threshold of exercise.
abbrev pub cent : Money
cent = record { neg = false; coef = 1; scale = 2 }

-- Who holds a call buys the shares, and who wrote a put does.
abbrev pub buys_shares : Right → Side → Bool
buys_shares call buy = true
buys_shares call sell = false
buys_shares put buy = false
buys_shares put sell = true

-- An amount that comes in or goes out.
abbrev pub Receives : Bool → Money → Money → Money → Type 0
Receives true before amount after = add before amount ≡ ok after
Receives false before amount after = sub before amount ≡ ok after

abbrev pub bought : Side → Bool
bought buy = true
bought sell = false

abbrev pub pnl_before : Option Position → Money
pnl_before none = zero_money
pnl_before (some p) = p.realized_pnl

module _ ⦃d : Decimals⦄ where
  -- The side on which a quantity is held.
  abbrev pub HeldOn : Side → Money → Type 0
  HeldOn buy quantity = gt quantity zero_money ≡ true
  HeldOn sell quantity = gt quantity zero_money ≡ false

  -- A position with given lots and result, whose lots add up, at their average cost.
  pub record Remains (p : Position) (kept : List Lot) (realized : Money) (t : Position)
      : Type 0 where
    pub lots : t.open_lots ≡ kept
    pub pnl : t.realized_pnl ≡ realized
    pub average : Averages (eq t.quantity zero_money) t.quantity kept t.avg_cost
    pub balanced : IsBalanced t

  -- The lots are closed from the oldest on at the exit price: who bought them receives the exit
  -- price for every unit, who sold them pays it.
  pub record ClosedInCash (st : AccountState) (n : OptionLifecycle) (p : Position) (held : Side)
      (exit_price : Money) (s : Settling) : Type 0 where
    pub kept : List Lot
    pub pieces : List (Lot × Money)
    pub closes : Closes n.quantity p.open_lots kept pieces
    pub earned : Money
    pub earns : gains exit_price n.contract.multiplier pieces zero_money ≡ ok earned
    pub realized : add zero_money earned ≡ ok s.realized
    pub total : Money
    pub totals : add p.realized_pnl earned ≡ ok total
    pub left : Position
    pub remains : Remains p kept total left
    pub positions :
        s.positions ≡ insert (hk (option n.contract)) (option n.contract) left st.positions
    pub notional : Money
    pub priced : mul exit_price n.quantity ≡ ok notional
    pub amount : Money
    pub scaled : mul_i notional n.contract.multiplier ≡ ok amount
    pub paid : Receives (bought held) st.cash amount s.cash

  -- One lot becomes a trade of its shares, and the strike is paid for them or received.
  pub record Delivered (st : AccountState) (n : OptionLifecycle) (k : EventKind) (held : Side)
      (shares : Instrument) (s : Settling) (l : Lot) (t : Settling) : Type 0 where
    pub buys : Bool
    pub buying : buys ≡ buys_shares n.contract.right held
    pub text : String
    pub delivers : delivery (wire n.contract) (bought held) (canon l.cost_basis) ≡ ok (buys, text)
    pub price : Money
    pub read : try_parse text ≡ ok price
    pub amount : Money
    pub units : mul_i l.quantity n.contract.multiplier ≡ ok amount
    pub each : ℤ
    pub multiplied : multiplier shares ≡ ok each
    pub change : Money
    pub changed : Change (if buys then buy else sell) amount change
    pub traded : Position
    pub balanced : IsBalanced traded
    pub trade :
        Traded
          (if buys then buy else sell)
          amount
          price
          n.as_of
          (lot_name n k l)
          each
          change
          (get (hk shares) s.positions)
          traded
    pub positions : t.positions ≡ insert (hk shares) shares traded s.positions
    pub gained : Money
    pub gains_it : sub traded.realized_pnl (pnl_before (get (hk shares) s.positions)) ≡ ok gained
    pub realized : add s.realized gained ≡ ok t.realized
    pub strike_total : Money
    pub strikes : mul n.contract.strike amount ≡ ok strike_total
    pub paid : Receives (if buys then false else true) s.cash strike_total t.cash

  -- The lots one after the other.
  pub data AllDelivered (st : AccountState) (n : OptionLifecycle) (k : EventKind) (held : Side)
      (shares : Instrument) : Settling → List Lot → Settling → Type 0 where
    all_done : (s : Settling) → AllDelivered st n k held shares s [] s
    and_then :
        (s next t : Settling) (l : Lot) (ls : List Lot)
        → Delivered st n k held shares s l next
        → AllDelivered st n k held shares next ls t
        → AllDelivered st n k held shares s (l ∷ ls) t

  -- Lots are taken out from the oldest on and delivered, each as a trade of shares.
  pub record SettledInShares (st : AccountState) (n : OptionLifecycle) (k : EventKind)
      (p : Position) (held : Side) (s : Settling) : Type 0 where
    pub kept : List Lot
    pub taken : List Lot
    pub takes : Takes n.quantity p.open_lots kept taken
    pub left : Position
    pub remains : Remains p kept p.realized_pnl left
    pub root : String
    pub rooted : deliverable (wire n.contract) ≡ ok root
    pub symbol : String
    pub named : equity_symbol root ≡ ok symbol
    pub delivered :
        AllDelivered st n k held
          (equity symbol)
          (record {
            positions = insert (hk (option n.contract)) (option n.contract) left st.positions;
            cash = st.cash;
            realized = zero_money;
          })
          taken
          s

  -- When an event may be booked, by its kind and the value of the contract.
  pub record Timely (n : OptionLifecycle) (k : EventKind) (worth : Money) (american : Bool)
      : Type 0 where
    pub expires : k ≡ expiry → (n.early ≡ false) × (lt worth cent ≡ true)
    pub in_the_money : k ≢ expiry → lt worth cent ≡ false
    pub early : k ≢ expiry → n.early ≡ true → american ≡ true
    pub exercises : k ≡ exercise → n.held ≡ buy
    pub assigns : k ≢ expiry → k ≢ exercise → n.held ≡ sell

  -- An event that is booked, and the state it leaves.
  pub record Booked (st : AccountState) (n : OptionLifecycle) (k : EventKind) (t : AccountState)
      : Type 0 where
    pub position : Position
    pub found : get (hk (option n.contract)) st.positions ≡ some position
    pub some_held : eq position.quantity zero_money ≡ false
    pub side : HeldOn n.held position.quantity
    pub size : Money
    pub sized : abs position.quantity ≡ ok size
    pub within : gt n.quantity size ≡ false
    pub text : String
    pub valued : intrinsic (wire n.contract) (canon n.underlying_price) ≡ ok text
    pub worth : Money
    pub read : try_parse text ≡ ok worth
    pub in_cash : Bool
    pub settlement : is_cash_settled (wire n.contract) ≡ ok in_cash
    pub american : Bool
    pub styled : can_exercise_early (wire n.contract) ≡ ok american
    pub timely : Timely n k worth american
    pub settling : Settling
    pub expired : k ≡ expiry → ClosedInCash st n position n.held zero_money settling
    pub cash : k ≢ expiry → in_cash ≡ true → ClosedInCash st n position n.held worth settling
    pub shares : k ≢ expiry → in_cash ≡ false → SettledInShares st n k position n.held settling
    pub realized : Money
    pub gained : add st.realized_pnl settling.realized ≡ ok realized
    pub result : t ≡ record st {
      positions = settling.positions;
      cash = settling.cash;
      realized_pnl = realized;
    }
