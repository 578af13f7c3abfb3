-- ===== src/Ledger/Fold/Always.antt =====
-- Invariants of a whole log, from those of one event (`fold` and `fold_account` of
-- crates/te_core/src/ledger/fold.rs).
use trade_engine.Base.{
  ◌≡◌, refl, sym, subst, Bool, true, false, List, [], ◌∷◌, String, ok, err, ◌>>=◌, >>=-eq-ok,
  ok-injective, str_eq, str_eq_iff, if◌then◌else◌, ◌++◌,
}
use trade_engine.Base.OnOk.{OnOk, holds, OnOk-bind_eq, OnOk-ok}
use trade_engine.Ledger.Errors.{R}
use trade_engine.Ledger.Dict.{Dict, get}
use trade_engine.Money.Order.{Decimals}
use trade_engine.Ledger.State.{AccountState, new_account}
use trade_engine.Ledger.Fold.{
  Event, apply_event, state_of, fold_step, fold_all, fold, fold_account, ordered, of_account,
}
use trade_engine.Ledger.Fold.Terminal.{state_of-put}

module _ {ℓ} ⦃d : Decimals⦄ (P : AccountState → Type ℓ)
    (start : (account : String) → P (new_account account))
    (step : (st : AccountState) (e : Event) → P st → OnOk P (apply_event st e)) where
  -- Every account is as `P` says.
  abbrev Everywhere : Dict String AccountState → Type ℓ
  Everywhere states = (account : String) → P (state_of account states)

  fold_step-Everywhere :
      (states : Dict String AccountState) (e : Event)
      → Everywhere states
      → OnOk Everywhere (fold_step states e)
  unfolding fold_step
  fold_step-Everywhere states e h =
      OnOk-bind_eq (apply_event (state_of e.account states) e) λ st est.
        let good : P st = OnOk-ok (step (state_of e.account states) e (h e.account)) est in
        holds (λ account.
          subst P (sym (state_of-put e.account account st states))
            (choose (str_eq e.account account) good (h account)))
    where
      choose : (b : Bool) {s t : AccountState} → P s → P t → P (if b then s else t)
      choose true p q = p
      choose false p q = q

  fold_all-Everywhere :
      (es : List Event) (states : Dict String AccountState)
      → Everywhere states
      → OnOk Everywhere (fold_all states es)
  unfolding fold_all
  fold_all-Everywhere [] states h = holds h
  fold_all-Everywhere (e ∷ es) states h =
      OnOk-bind_eq (fold_step states e)
        λ t et. fold_all-Everywhere es t (OnOk-ok (fold_step-Everywhere states e h) et)

  pub fold-Always :
      (es : List Event) {states : Dict String AccountState}
      → fold es ≡ ok states
      → (account : String) → P (state_of account states)
  unfolding fold state_of get new_account
  fold-Always es e = OnOk-ok (fold_all-Everywhere (ordered es) [] (λ account. start account)) e

  pub fold_account-Always :
      (es : List Event) (account : String) {st : AccountState}
      → fold_account es account ≡ ok st
      → P st
  unfolding fold_account
  fold_account-Always es account e =
      let (states, folded, same) = >>=-eq-ok (fold (of_account account (ordered es))) _ e in
      subst P (ok-injective same) (fold-Always (of_account account (ordered es)) folded account)

-- What the events of a log preserve of one account.
module _ {ℓ} ⦃d : Decimals⦄ (account : String) (P : AccountState → Type ℓ)
    (step : (st : AccountState) (e : Event) → P st → OnOk P (apply_event st e)) where
  abbrev pub At : Dict String AccountState → Type ℓ
  At states = P (state_of account states)

  fold_step-At :
      (states : Dict String AccountState) (e : Event) → At states → OnOk At (fold_step states e)
  unfolding fold_step
  fold_step-At states e h = OnOk-bind_eq (apply_event (state_of e.account states) e) λ st est.
      holds (
        subst P (sym (state_of-put e.account account st states))
          (choose (str_eq e.account account) refl st est))
    where
      choose :
          (b : Bool)
          → str_eq e.account account ≡ b
          → (st : AccountState) → apply_event (state_of e.account states) e ≡ ok st
          → P (if b then st else state_of account states)
      choose true same st est =
          let here = subst At' (sym ((str_eq_iff e.account account).0 same)) h in
          OnOk-ok (step (state_of e.account states) e here) est
        where
          At' : String → Type ℓ
          At' a = P (state_of a states)
      choose false other st est = h

  pub fold_all-At :
      (es : List Event) (states : Dict String AccountState)
      → At states
      → OnOk At (fold_all states es)
  unfolding fold_all
  fold_all-At [] states h = holds h
  fold_all-At (e ∷ es) states h =
      OnOk-bind_eq (fold_step states e)
        λ t et. fold_all-At es t (OnOk-ok (fold_step-At states e h) et)

-- A log is folded in parts: the tail goes on from the states that the head left.
module _ ⦃d : Decimals⦄ where
  -- Folding a log is folding its head and then its tail from the states that the head left; a
  -- refusal in the head is the refusal of the whole.
  pub fold_all-append :
      (es fs : List Event) (states : Dict String AccountState)
      → fold_all states (es ++ fs) ≡ (fold_all states es >>= λ t. fold_all t fs)
  unfolding fold_all
  fold_all-append [] fs states = refl
  fold_all-append (e ∷ es) fs states = go (fold_step states e) (λ t. fold_all-append es fs t)
    where
      go :
          (r : R (Dict String AccountState))
          → ((t : Dict String AccountState)
              → fold_all t (es ++ fs) ≡ (fold_all t es >>= λ u. fold_all u fs))
          → (r >>= λ t. fold_all t (es ++ fs)) ≡ ((r >>= λ t. fold_all t es) >>= λ t. fold_all t fs)
      go (ok t) h = h t
      go (err x) h = refl
