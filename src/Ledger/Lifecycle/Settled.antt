-- ===== src/Ledger/Lifecycle/Settled.antt =====
-- What an option event that is booked has checked and done (crates/te_core/src/ledger/fold.rs,
-- `on_lifecycle`).
use trade_engine.Base.{
  ◌≡◌, refl, sym, ap, subst, Bool, true, false, not, ◌&&◌, some, String, Result, ok, err, ◌>>◌,
  err_if, ok_or, ok_or-some, map_err, if◌then◌else◌, ok-injective,
}
use trade_engine.Base.OnOk.{OnOk, holds, fails, OnOk-ok, OnOk-of, OnOk-bind_eq, OnOk-err_if}
use trade_engine.Money.Decimal.{Money, zero_money}
use trade_engine.Money.Order.{Decimals, eq, lt, gt, ge}
use trade_engine.Money.Literal.{try_parse}
use trade_engine.Money.Spelling.{canon}
use trade_engine.Ledger.Errors.{LErr, add, abs}
use trade_engine.Ledger.Dict.{get}
use trade_engine.Ledger.Keys.{hk}
use trade_engine.Ledger.Model.{EventKind, Side, buy, sell, option, side_eq}
use trade_engine.Ledger.Lots.{Position}
use trade_engine.Ledger.State.{AccountState}
use trade_engine.Ledger.Lifecycle.{
  OptionLifecycle, is_expiry, is_exercise, lifecycle_wrap, Settling, held_side, open_position,
  check_event, settle_lots, on_lifecycle,
}
use trade_engine.Options.{oerr, wire, occ}
use trade_engine.Options.Lifecycle.{threshold, intrinsic, is_cash_settled, can_exercise_early}

pub map_err-ok :
    {E F A : Type 0} (f : E → F) (r : Result E A) {a : A} → map_err f r ≡ ok a → r ≡ ok a
map_err-ok f (ok b) h = ap ok (ok-injective h)
map_err-ok f (err e) h = cc

module _ ⦃d : Decimals⦄ where
  -- An expiry is not early and out of the money; any other event is in the money, of the side that
  -- its kind is for, and early only for an American contract.
  abbrev pub MayHappen : Bool → Bool → OptionLifecycle → Side → Money → Bool → Type 0
  MayHappen true exercised n held value style = (n.early ≡ false) × (ge value threshold ≡ false)
  MayHappen false exercised n held value style =
      (side_eq held (if exercised then buy else sell) ≡ true)
      × (lt value threshold ≡ false)
      × (n.early ≡ true → style ≡ true)

  -- The checks passed, and the state as it was but for what the lots' settlement gives.
  pub record Settled (st : AccountState) (n : OptionLifecycle) (k : EventKind) (t : AccountState)
      : Type 0 where
    pub position : Position
    pub found : get (hk (option n.contract)) st.positions ≡ some position
    pub nonflat : eq position.quantity zero_money ≡ false
    pub side : side_eq (held_side position) n.held ≡ true
    pub size : Money
    pub sized : abs position.quantity ≡ ok size
    pub within : gt n.quantity size ≡ false
    pub text : String
    pub valued : intrinsic (wire n.contract) (canon n.underlying_price) ≡ ok text
    pub worth : Money
    pub read : try_parse text ≡ ok worth
    pub in_cash : Bool
    pub settlement : is_cash_settled (wire n.contract) ≡ ok in_cash
    pub style : Bool
    pub styled : can_exercise_early (wire n.contract) ≡ ok style
    pub allowed : MayHappen (is_expiry k) (is_exercise k) n (held_side position) worth style
    pub settling : Settling
    pub settled : settle_lots st n k position worth in_cash ≡ ok settling
    pub realized : Money
    pub gained : add st.realized_pnl settling.realized ≡ ok realized
    pub result : t ≡ record st {
      positions = settling.positions;
      cash = settling.cash;
      realized_pnl = realized;
    }

  open_position-ok :
      (st : AccountState) (n : OptionLifecycle)
      → OnOk
          (λ p.
            (get (hk (option n.contract)) st.positions ≡ some p)
            × (eq p.quantity zero_money ≡ false))
          (open_position st n)
  unfolding open_position
  open_position-ok st n =
      OnOk-bind_eq (ok_or (get (hk (option n.contract)) st.positions) LErr.fold) λ p found.
        OnOk-err_if (eq p.quantity zero_money) _
          λ some_left. holds (ok_or-some _ LErr.fold found, some_left)

  not-false : (b : Bool) → not b ≡ false → b ≡ true
  not-false true h = refl
  not-false false h = cc

  only_if : (b c : Bool) → (b && not c) ≡ false → b ≡ true → c ≡ true
  only_if true true h e = refl
  only_if true false h e = cc
  only_if false c h e = cc

  last : (b : Bool) {P : Unit {0} → Type 0} → (b ≡ false → P tt) → OnOk P (err_if b LErr.fold)
  last true f = fails
  last false f = holds (f refl)

  check_event-MayHappen :
      (k : EventKind) (n : OptionLifecycle) (held : Side) (value : Money) (style : Bool)
      → OnOk
          (λ u. MayHappen (is_expiry k) (is_exercise k) n held value style)
          (check_event k n held value style)
  unfolding check_event
  check_event-MayHappen k n held value style = go (is_expiry k) (is_exercise k)
    where
      go :
          (expires exercised : Bool)
          → OnOk
              (λ (u : Unit {0}). MayHappen expires exercised n held value style)
              (if expires
                then (err_if n.early LErr.fold >> err_if (ge value threshold) LErr.fold)
                else (err_if (not (side_eq held (if exercised then buy else sell))) LErr.fold
                    >> (err_if (lt value threshold) LErr.fold
                        >> err_if (n.early && not style) LErr.fold)))
      go true exercised = OnOk-err_if n.early _ λ late. last (ge value threshold) λ out. (late, out)
      go false exercised =
          OnOk-err_if (not (side_eq held (if exercised then buy else sell))) _ λ fits.
            OnOk-err_if (lt value threshold) _ λ inside.
              last (n.early && not style)
                λ timely. (not-false _ fits, inside, only_if n.early style timely)

  -- An expiry, exercise or assignment that is booked is of contracts the account holds on the
  -- side the event says, no more of them than it holds. An expiry is not early and its value at
  -- the underlying's price is below the threshold of a cent; an exercise is of bought contracts
  -- and any other event of sold ones, in the money and early only for an American contract. Then
  -- only the positions, the cash and the realized result change: to the positions and the cash
  -- that settling the lots leaves, and by the result that it realizes.
  pub on_lifecycle-Settled :
      (st : AccountState) (n : OptionLifecycle) (k : EventKind)
      → OnOk (Settled st n k) (on_lifecycle st n k)
  unfolding on_lifecycle
  on_lifecycle-Settled st n k = OnOk-bind_eq (map_err oerr (occ (wire n.contract))) λ symbol named.
      OnOk-bind_eq (open_position st n) λ p opened.
        OnOk-err_if (not (side_eq (held_side p) n.held)) _ λ sided.
          OnOk-bind_eq (abs p.quantity) λ size sized. OnOk-err_if (gt n.quantity size) _ λ within.
            OnOk-bind_eq
              (map_err lifecycle_wrap (intrinsic (wire n.contract) (canon n.underlying_price)))
              λ text valued. OnOk-bind_eq (map_err (λ e. LErr.value) (try_parse text)) λ worth read.
                OnOk-bind_eq (map_err lifecycle_wrap (is_cash_settled (wire n.contract)))
                  λ in_cash settlement.
                    OnOk-bind_eq (map_err lifecycle_wrap (can_exercise_early (wire n.contract)))
                      λ style styled.
                        OnOk-bind_eq (check_event k n (held_side p) worth style) λ u checked.
                          OnOk-bind_eq (settle_lots st n k p worth in_cash) λ s settled.
                            OnOk-bind_eq (add st.realized_pnl s.realized) λ realized gained.
                              let (found, nonflat) = OnOk-ok (open_position-ok st n) opened in
                              holds (record {
                                position = p;
                                found = found;
                                nonflat = nonflat;
                                side = not-false _ sided;
                                size = size;
                                sized = sized;
                                within = within;
                                text = text;
                                valued = map_err-ok lifecycle_wrap _ valued;
                                worth = worth;
                                read = map_err-ok _ (try_parse text) read;
                                in_cash = in_cash;
                                settlement = map_err-ok lifecycle_wrap _ settlement;
                                style = style;
                                styled = map_err-ok lifecycle_wrap _ styled;
                                allowed =
                                    OnOk-ok (check_event-MayHappen k n (held_side p) worth style)
                                      checked;
                                settling = s;
                                settled = settled;
                                realized = realized;
                                gained = gained;
                                result = refl;
                              })

  -- The state after an option event, but for the parts that it settles.
  pub on_lifecycle-keeps {ℓ} :
      (P : AccountState → Type ℓ) (st : AccountState) (n : OptionLifecycle) (k : EventKind)
      → ((s : Settling) (realized : Money)
          → P (record st { positions = s.positions; cash = s.cash; realized_pnl = realized }))
      → OnOk P (on_lifecycle st n k)
  on_lifecycle-keeps P st n k keep = OnOk-of (on_lifecycle st n k) λ t e.
      let b = OnOk-ok (on_lifecycle-Settled st n k) e in
      subst P (sym b.result) (keep b.settling b.realized)
