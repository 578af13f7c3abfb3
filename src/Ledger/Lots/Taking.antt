-- ===== src/Ledger/Lots/Taking.antt =====
-- Taking lots from the oldest on (`take_lots` of crates/te_core/src/ledger/fold.rs), against a
-- relation on the lots before and after.
use trade_engine.Base.{
  ℕ, ◌+◌, ◌≡◌, refl, sym, ap, subst, ◌∙◌, Bool, true, false, not, List, [], ◌∷◌, ◌++◌, ok, ◌>>=◌,
  Bool-cases, inl, inr, Ordering, compare, arith, ok-injective, >>=-eq-ok,
}
use trade_engine.Base.OnOk.{OnOk, holds, OnOk-if_eq, OnOk-ok, OnOk-of, OnOk-bind_eq, OnOk-err_if}
use trade_engine.Money.Decimal.{Money, zero_money}
use trade_engine.Money.Order.{Decimals, eq, le, lt, value_order, pos_at, neg_at}
use trade_engine.Ledger.Errors.{LErr, sub, ne}
use trade_engine.Ledger.Model.{Lot}
use trade_engine.Ledger.Lots.{lot_with, take_from, take_lots}
use trade_engine.Ledger.Lots.Closing.{snoc_append, append_nil, lot_with-Cut}

module _ ⦃d : Decimals⦄ where
  -- Taking a quantity moves lots out from the oldest on, each whole unless it is greater than what
  -- is left to take; of one that is greater that much is moved and the rest stays.
  pub data Takes : Money → List Lot → List Lot → List Lot → Type 0 where
    enough : (left : Money) (ls : List Lot) → eq left zero_money ≡ true → Takes left ls ls []
    whole :
        (left next : Money) (l : Lot) (ls kept taken : List Lot)
        → lt left l.quantity ≡ false
        → sub left l.quantity ≡ ok next
        → Takes next ls kept taken
        → Takes left (l ∷ ls) kept (l ∷ taken)
    part :
        (left next rest : Money) (l : Lot) (ls kept taken : List Lot)
        → lt left l.quantity ≡ true
        → sub l.quantity left ≡ ok rest
        → sub left left ≡ ok next
        → Takes next ls kept taken
        → Takes left
            (l ∷ ls)
            (record l { quantity = rest } ∷ kept)
            (record l { quantity = left } ∷ taken)

  abbrev Walked : List Lot → Money → List Lot → List Lot → Money × List Lot × List Lot → Type 0
  Walked ls left kept taken r =
      eq r.0 zero_money ≡ true
      → (after : List Lot) × (moved : List Lot) × (r.1 ≡ kept ++ after)
        × (r.2 ≡ taken ++ moved)
        × Takes left ls after moved

  take_from-skips :
      (ls : List Lot) (left : Money) (kept taken : List Lot)
      → le left zero_money ≡ true
      → take_from ls left kept taken ≡ ok (left, kept ++ ls, taken)
  unfolding take_from
  take_from-skips [] left kept taken h = ap (λ t. ok (left, t, taken)) (append_nil kept)
  take_from-skips (l ∷ ls) left kept taken h = rw h (
      take_from-skips ls left (kept ++ l ∷ []) taken h
      ∙ ap (λ t. ok (left, t, taken)) (snoc_append kept l ls))

  not_below_itself : (q : Money) → lt q q ≡ false
  unfolding lt value_order
  not_below_itself q =
      ap (λ (o : Ordering). elim o as (λ x. Bool) [ Ordering.lt ↦ true | _ ↦ false ])
        (d.cmp_by_value q q)
      ∙ same (pos_at q q.scale + neg_at q q.scale)
    where
      same :
          (n : ℕ) → (elim (compare n n) as (λ x. Bool) [ Ordering.lt ↦ true | _ ↦ false ]) ≡ false
      same n = ground arith

  -- After a lot, what the loop does with the rest.
  next_lot :
      (ls : List Lot) (next : Money) (kept taken before : List Lot) (moved : Lot)
      (more : List Lot → List Lot) (left : Money) (l : Lot)
      → OnOk
          (Walked ls next before (taken ++ moved ∷ []))
          (take_from ls next before (taken ++ moved ∷ []))
      → ((after : List Lot) → before ++ after ≡ kept ++ more after)
      → ((after out : List Lot)
          → Takes next ls after out
          → Takes left (l ∷ ls) (more after) (moved ∷ out))
      → OnOk (Walked (l ∷ ls) left kept taken) (take_from ls next before (taken ++ moved ∷ []))
  next_lot ls next kept taken before moved more left l rest same step =
      OnOk-of (take_from ls next before (taken ++ moved ∷ [])) λ x ex z.
        let (after, out, k, o, t) = OnOk-ok rest ex z in
        (more after, moved ∷ out, k ∙ same after, o ∙ snoc_append taken moved out, step after out t)

  take_from-Walked :
      (ls : List Lot) (left : Money) (kept taken : List Lot)
      → OnOk (Walked ls left kept taken) (take_from ls left kept taken)
  unfolding take_from
  take_from-Walked [] left kept taken =
      holds (λ z. ([], [], append_nil kept, append_nil taken, enough left [] z))
  take_from-Walked (l ∷ ls) left kept taken =
      let Goal = Walked (l ∷ ls) left kept taken in
      OnOk-if_eq (le left zero_money)
        (λ over. subst (OnOk Goal) (sym (take_from-skips ls left (kept ++ l ∷ []) taken over)) (
          holds
            (λ z. (l ∷ ls, [], snoc_append kept l ls, append_nil taken, enough left (l ∷ ls) z))))
        (λ more. elim (Bool-cases (lt left l.quantity)) [
          | inl smaller ↦
              rw (smaller, smaller)
                (OnOk-bind_eq (lot_with l left) λ moved em.
                  OnOk-bind_eq
                    (sub l.quantity left >>= λ rest.
                      lot_with l rest >>= λ cut. ok (kept ++ cut ∷ []))
                    λ before eb. OnOk-bind_eq (sub left left) λ next en.
                      let (rest, er, eb') = >>=-eq-ok (sub l.quantity left) _ eb in
                      let (cut, ec, ek) = >>=-eq-ok (lot_with l rest) _ eb' in
                      let was : moved ≡ record l { quantity = left } =
                        OnOk-ok (lot_with-Cut l left) em in
                      let cut_is : cut ≡ record l { quantity = rest } =
                        OnOk-ok (lot_with-Cut l rest) ec in
                      next_lot ls next kept taken before moved
                        (λ after. record l { quantity = rest } ∷ after) left l
                        (take_from-Walked ls next before (taken ++ moved ∷ []))
                        (λ after.
                          ap (λ t. t ++ after) (sym (ok-injective ek))
                          ∙ (snoc_append kept cut after ∙ ap (λ c. kept ++ c ∷ after) cut_is))
                        (λ after out t.
                          subst
                            (λ m.
                              Takes left (l ∷ ls) (record l { quantity = rest } ∷ after) (m ∷ out))
                            (sym was) (part left next rest l ls after out smaller er en t)))
          | inr fits ↦
              rw (fits, not_below_itself l.quantity)
                (OnOk-bind_eq (lot_with l l.quantity) λ moved em.
                  OnOk-bind_eq (sub left l.quantity) λ next en.
                    let was : moved ≡ l = OnOk-ok (lot_with-Cut l l.quantity) em in
                    next_lot ls next kept taken kept moved (λ after. after) left l
                      (take_from-Walked ls next kept (taken ++ moved ∷ [])) (λ after. refl)
                      (λ after out t.
                        subst (λ m. Takes left (l ∷ ls) after (m ∷ out)) (sym was)
                          (whole left next l ls after out fits en t)))
        ])

  -- What `take_lots` keeps and takes, when it is not refused.
  pub take_lots-Takes :
      (lots : List Lot) (quantity : Money)
      → OnOk (λ r. Takes quantity lots r.0 r.1) (take_lots lots quantity)
  unfolding take_lots ne
  take_lots-Takes lots quantity = OnOk-bind_eq (take_from lots quantity [] []) λ r walked.
      OnOk-err_if (not (eq r.0 zero_money)) LErr.fold λ settled.
        let (after, moved, k, o, t) =
          OnOk-ok (take_from-Walked lots quantity [] []) walked
            (passed (eq r.0 zero_money) settled) in
        holds (
          subst (λ a. Takes quantity lots a r.2) (sym k)
            (subst (λ a. Takes quantity lots after a) (sym o) t))
    where
      passed : (b : Bool) → not b ≡ false → b ≡ true
      passed true h = refl
      passed false h = cc
