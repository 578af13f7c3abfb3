-- ===== src/Ledger/Fold/Isolation.antt =====
-- The accounts of a log do not touch each other (`fold_refs` and `fold_account` of
-- crates/te_core/src/ledger/fold.rs).
use trade_engine.Base.{
  ◌≡◌, refl, sym, ap, subst, ◌∙◌, true, false, List, [], ◌∷◌, String, ok, >>=-eq-ok, ok-injective,
  str_eq, str_eq_iff, Bool-cases, inl, inr,
}
use trade_engine.Ledger.Dict.{Dict, put}
use trade_engine.Money.Order.{Decimals}
use trade_engine.Ledger.State.{AccountState}
use trade_engine.Ledger.Fold.{Event, apply_event, state_of, of_account, fold_step, fold_all}
use trade_engine.Ledger.Fold.Terminal.{state_of-put}

module _ ⦃d : Decimals⦄ (account : String) where
  abbrev Same : Dict String AccountState → Dict String AccountState → Type 0
  Same s t = state_of account s ≡ state_of account t

  -- A step of another account leaves this one as it was.
  step_elsewhere :
      (s : Dict String AccountState) (e : Event) {s' : Dict String AccountState}
      → str_eq e.account account ≡ false
      → fold_step s e ≡ ok s'
      → Same s' s
  unfolding fold_step
  step_elsewhere s e other h =
      let (st, applied, same) = >>=-eq-ok (apply_event (state_of e.account s) e) _ h in
      sym (ap (state_of account) (ok-injective same))
      ∙ (state_of-put e.account account st s ∙ rw other)

  -- A step of this account needs nothing but its state.
  step_here :
      (s t : Dict String AccountState) (e : Event) {s' : Dict String AccountState}
      → str_eq e.account account ≡ true
      → Same s t
      → fold_step s e ≡ ok s'
      → (t' : Dict String AccountState) × (fold_step t e ≡ ok t') × Same s' t'
  unfolding fold_step
  step_here s t e {s'} here same h =
      let (st, applied, put_s) = >>=-eq-ok (apply_event (state_of e.account s) e) _ h in
      let same' : state_of e.account s ≡ state_of e.account t =
        subst (λ a. state_of a s ≡ state_of a t) (sym ((str_eq_iff e.account account).0 here))
          same in
      let applied' : apply_event (state_of e.account t) e ≡ ok st =
        subst (λ u. apply_event u e ≡ ok st) same' applied in
      let left : state_of account s' ≡ st =
        sym (ap (state_of account) (ok-injective put_s))
        ∙ (state_of-put e.account account st s ∙ rw here) in
      let right : state_of account (put e.account st t) ≡ st =
        state_of-put e.account account st t ∙ rw here in
      (put e.account st t, rw applied', left ∙ sym right)

  -- If a log is folded to its end, then folding only an account's own events, in their order and
  -- from states that agree on that account, is not refused either and gives the account the same
  -- state: what other accounts do does not touch it.
  pub fold_all-isolated :
      (es : List Event) (s t : Dict String AccountState) {s' : Dict String AccountState}
      → state_of account s ≡ state_of account t
      → fold_all s es ≡ ok s'
      → (t' : Dict String AccountState) × (fold_all t (of_account account es) ≡ ok t')
        × (state_of account s' ≡ state_of account t')
  unfolding fold_all of_account
  fold_all-isolated [] s t {s'} same h =
      (t, refl, sym (ap (state_of account) (ok-injective h)) ∙ same)
  fold_all-isolated (e ∷ es) s t {s'} same h =
      let (mid, stepped, rest) = >>=-eq-ok (fold_step s e) _ h in
      elim (Bool-cases (str_eq e.account account)) [
        | inl here ↦
            let (t1, step_t, same1) = step_here s t e here same stepped in
            let (t', folded, done) = fold_all-isolated es mid t1 same1 rest in
            (t', rw here (rw step_t folded), done)
        | inr other ↦
            let (t', folded, done) =
              fold_all-isolated es mid t (step_elsewhere s e other stepped ∙ same) rest in
            (t', rw other folded, done)
      ]
