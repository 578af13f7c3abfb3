-- ===== src/Ledger/Lots/Closing.antt =====
-- Closing lots from the oldest on (`consume_lots` of crates/te_core/src/ledger/fold.rs), against a
-- relation on the lots before and after.
use trade_engine.Base.{
  ◌≡◌, refl, sym, ap, subst, ◌∙◌, Bool, true, false, not, List, [], ◌∷◌, ◌++◌, ok, ◌>>=◌, >>=-eq-ok,
  Ordering,
}
use trade_engine.Base.Int.{ℤ}
use trade_engine.Base.OnOk.{OnOk, holds, OnOk-if_eq, OnOk-ok, OnOk-of, OnOk-bind_eq, OnOk-err_if}
use trade_engine.Base.Powers.{pow10}
use trade_engine.Money.Decimal.{Money, zero_money}
use trade_engine.Money.Order.{Decimals, eq, le, value_order}
use trade_engine.Ledger.Errors.{LErr, R, add, sub, mul, mul_i, ne}
use trade_engine.Ledger.Model.{Side, buy, sell, Lot}
use trade_engine.Ledger.Lots.{
  make_lot, lot_with, gain_per_unit, realized_with, consume_from, consume_lots,
}

-- What closing a quantity of a lot earns for each unit: a lot that was bought earns the exit
-- price less its cost, a lot that was sold its cost less the exit price.
abbrev pub unit_gain : Side → Money → Money → R Money
unit_gain buy cost exit_price = sub exit_price cost
unit_gain sell cost exit_price = sub cost exit_price

-- The gains of the closed pieces, times the multiplier, added up from the oldest.
unfoldable pub gains : Money → ℤ → List (Lot × Money) → Money → R Money
gains exit_price multiplier [] total = ok total
gains exit_price multiplier ((l, closed) ∷ pieces) total = do
  per ← unit_gain l.side l.cost_basis exit_price
  gross ← mul per closed
  whole ← mul_i gross multiplier
  next ← add total whole
  gains exit_price multiplier pieces next

module _ ⦃d : Decimals⦄ where
  -- Closing a quantity takes lots from the oldest on, each as long as it is not greater than what
  -- is left to close; one that is greater is cut; the later lots stay. The pieces are what was
  -- closed of each lot.
  pub data Closes : Money → List Lot → List Lot → List (Lot × Money) → Type 0 where
    enough : (left : Money) (ls : List Lot) → eq left zero_money ≡ true → Closes left ls ls []
    whole :
        (left next : Money) (l : Lot) (ls kept : List Lot) (pieces : List (Lot × Money))
        → le l.quantity left ≡ true
        → sub left l.quantity ≡ ok next
        → Closes next ls kept pieces
        → Closes left (l ∷ ls) kept ((l, l.quantity) ∷ pieces)
    part :
        (left rest : Money) (l : Lot) (ls : List Lot)
        → le l.quantity left ≡ false
        → sub l.quantity left ≡ ok rest
        → Closes left (l ∷ ls) (record l { quantity = rest } ∷ ls) ((l, left) ∷ [])

  -- What the loop does from a point on, with what it has kept and earned before.
  abbrev Walked :
      List Lot → Money → ℤ → Money → List Lot → Money → Money × List Lot × Money → Type 0
  Walked ls exit_price multiplier left kept realized r =
      eq r.0 zero_money ≡ true
      → (after : List Lot) × (pieces : List (Lot × Money)) × (r.1 ≡ kept ++ after)
        × Closes left ls after pieces
        × (gains exit_price multiplier pieces realized ≡ ok r.2)

  pub snoc_append :
      (kept : List Lot) (l : Lot) (ls : List Lot) → (kept ++ l ∷ []) ++ ls ≡ kept ++ l ∷ ls
  snoc_append [] l ls = refl
  snoc_append (k ∷ kept) l ls = ap (λ t. k ∷ t) (snoc_append kept l ls)

  pub append_nil : (kept : List Lot) → kept ≡ kept ++ []
  append_nil [] = refl
  append_nil (k ∷ kept) = ap (λ t. k ∷ t) (append_nil kept)

  consume_from-skips :
      (ls : List Lot) (exit_price : Money) (multiplier : ℤ) (left : Money) (kept : List Lot)
      (realized : Money)
      → le left zero_money ≡ true
      → consume_from ls exit_price multiplier left kept realized ≡ ok (left, kept ++ ls, realized)
  unfolding consume_from
  consume_from-skips [] exit_price multiplier left kept realized h =
      ap (λ t. ok (left, t, realized)) (append_nil kept)
  consume_from-skips (l ∷ ls) exit_price multiplier left kept realized h = rw h (
      consume_from-skips ls exit_price multiplier left (kept ++ l ∷ []) realized h
      ∙ ap (λ t. ok (left, t, realized)) (snoc_append kept l ls))

  none_left : le zero_money zero_money ≡ true
  unfolding le value_order pow10
  none_left =
      ap (λ (o : Ordering). elim o as (λ x. Bool) [ Ordering.gt ↦ false | _ ↦ true ])
        (d.cmp_by_value zero_money zero_money)

  pub lot_with-Cut :
      (l : Lot) (q : Money) → OnOk (λ c. c ≡ record l { quantity = q }) (lot_with l q)
  unfolding lot_with make_lot
  lot_with-Cut l q = search (OnOk-err_if, holds) depth 8

  gains-step :
      (l : Lot) (exit_price closed : Money) (multiplier : ℤ) (total : Money)
      (pieces : List (Lot × Money)) {next : Money}
      → realized_with l exit_price closed multiplier total ≡ ok next
      → gains exit_price multiplier ((l, closed) ∷ pieces) total
        ≡ gains exit_price multiplier pieces next
  unfolding realized_with gain_per_unit gains
  gains-step l exit_price closed multiplier total pieces h =
      let (per, one, h1) = >>=-eq-ok (gain_per_unit l.side exit_price l.cost_basis) _ h in
      let (gross, two, h2) = >>=-eq-ok (mul per closed) _ h1 in
      let (whole_gain, three, four) = >>=-eq-ok (mul_i gross multiplier) _ h2 in
      rw (same l.side, one, two, three, four) refl
    where
      same :
          (side : Side)
          → unit_gain side l.cost_basis exit_price ≡ gain_per_unit side exit_price l.cost_basis
      same buy = refl
      same sell = refl

  consume_from-Walked :
      (ls : List Lot) (exit_price : Money) (multiplier : ℤ) (left : Money) (kept : List Lot)
      (realized : Money)
      → OnOk
          (Walked ls exit_price multiplier left kept realized)
          (consume_from ls exit_price multiplier left kept realized)
  unfolding consume_from gains
  consume_from-Walked [] exit_price multiplier left kept realized =
      holds (λ z. ([], [], append_nil kept, enough left [] z, refl))
  consume_from-Walked (l ∷ ls) exit_price multiplier left kept realized =
      let Goal = Walked (l ∷ ls) exit_price multiplier left kept realized in
      OnOk-if_eq (le left zero_money)
        (λ over.
          subst (OnOk Goal)
            (sym (consume_from-skips ls exit_price multiplier left (kept ++ l ∷ []) realized over))
            (holds (λ z. (l ∷ ls, [], snoc_append kept l ls, enough left (l ∷ ls) z, refl))))
        (λ more.
          OnOk-if_eq (le l.quantity left)
            (λ fits. OnOk-bind_eq (sub left l.quantity) λ next taken.
              OnOk-bind_eq (realized_with l exit_price l.quantity multiplier realized) λ r earned.
                OnOk-of (consume_from ls exit_price multiplier next kept r) λ x ex z.
                  let (after, pieces, k, c, g) =
                    OnOk-ok (consume_from-Walked ls exit_price multiplier next kept r) ex z in
                  (
                    after,
                    (l, l.quantity) ∷ pieces,
                    k,
                    whole left next l ls after pieces fits taken c,
                    gains-step l exit_price l.quantity multiplier realized pieces earned ∙ g,
                  ))
            (λ bigger. OnOk-bind_eq (sub l.quantity left) λ rest cut.
              OnOk-bind_eq (lot_with l rest) λ smaller made.
                OnOk-bind_eq (realized_with l exit_price left multiplier realized) λ r earned.
                  subst (OnOk Goal)
                    (sym (
                      consume_from-skips ls exit_price multiplier zero_money (kept ++ smaller ∷ [])
                        r none_left))
                    (holds (λ z. (
                      record l { quantity = rest } ∷ ls,
                      (l, left) ∷ [],
                      snoc_append kept smaller ls
                          ∙ ap (λ c. kept ++ c ∷ ls) (OnOk-ok (lot_with-Cut l rest) made),
                      part left rest l ls bigger cut,
                      gains-step l exit_price left multiplier realized [] earned,
                    )))))

  -- What `consume_lots` keeps and earns, when it is not refused.
  pub consume_lots-Closes :
      (lots : List Lot) (quantity exit_price : Money) (multiplier : ℤ)
      → OnOk
          (λ r.
            (pieces : List (Lot × Money)) × Closes quantity lots r.0 pieces
            × (gains exit_price multiplier pieces zero_money ≡ ok r.1))
          (consume_lots lots quantity exit_price multiplier)
  unfolding consume_lots ne
  consume_lots-Closes lots quantity exit_price multiplier =
      OnOk-bind_eq (consume_from lots exit_price multiplier quantity [] zero_money) λ r walked.
        OnOk-err_if (not (eq r.0 zero_money)) LErr.fold λ settled.
          let (after, pieces, k, c, g) =
            OnOk-ok (consume_from-Walked lots exit_price multiplier quantity [] zero_money) walked
              (passed (eq r.0 zero_money) settled) in
          holds (pieces, subst (λ t. Closes quantity lots t pieces) (sym k) c, g)
    where
      passed : (b : Bool) → not b ≡ false → b ≡ true
      passed true h = refl
      passed false h = cc
