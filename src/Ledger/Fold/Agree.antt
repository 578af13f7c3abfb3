-- ===== src/Ledger/Fold/Agree.antt =====
-- `fold_account` against `fold` (crates/te_core/src/ledger/fold.rs).
use trade_engine.Base.{
  ◌≡◌, refl, true, false, List, [], ◌∷◌, String, ok, arith, str_eq, Bool-cases, inl, inr,
}
use trade_engine.Base.Int.{ℤ, leb_ℤ}
use trade_engine.Money.Order.{Decimals}
use trade_engine.Ledger.Dict.{Dict}
use trade_engine.Ledger.State.{AccountState}
use trade_engine.Ledger.Fold.{
  Event, all_numbered, seq_of, place, sort_by_seq, ordered, state_of, of_account, fold,
  fold_account,
}
use trade_engine.Ledger.Fold.Isolation.{fold_all-isolated}

leb_trans : (a b c : ℤ) → leb_ℤ a b ≡ true → leb_ℤ b c ≡ true → leb_ℤ a c ≡ true
leb_trans a b c h k = ground arith

leb_total : (a b : ℤ) → leb_ℤ a b ≡ false → leb_ℤ b a ≡ true
leb_total a b h = ground arith

-- The event's number is not above those of the events.
Below : Event → List Event → Type 0
Below e [] = Unit {0}
Below e (f ∷ fs) = (leb_ℤ (seq_of e) (seq_of f) ≡ true) × Below e fs

-- Every event's number is not above those of the events after it.
InOrder : List Event → Type 0
InOrder [] = Unit {0}
InOrder (e ∷ es) = Below e es × InOrder es

Below-trans :
    (e f : Event) (es : List Event) → leb_ℤ (seq_of e) (seq_of f) ≡ true → Below f es → Below e es
unfolding Below
Below-trans e f [] h b = tt
Below-trans e f (g ∷ gs) h (low, b) =
    (leb_trans (seq_of e) (seq_of f) (seq_of g) h low, Below-trans e f gs h b)

place-Below :
    (e f : Event) (es : List Event)
    → leb_ℤ (seq_of e) (seq_of f) ≡ true
    → Below e es
    → Below e (place f es)
unfolding Below place
place-Below e f [] h b = (h, tt)
place-Below e f (g ∷ gs) h (low, b) = elim (Bool-cases (leb_ℤ (seq_of f) (seq_of g))) [
  | inl first ↦ rw first (h, (low, b))
  | inr later ↦ rw later (low, place-Below e f gs h b)
]

place-InOrder : (e : Event) (es : List Event) → InOrder es → InOrder (place e es)
unfolding InOrder place Below
place-InOrder e [] o = (tt, tt)
place-InOrder e (f ∷ fs) (b, o) = elim (Bool-cases (leb_ℤ (seq_of e) (seq_of f))) [
  | inl first ↦ rw first ((first, Below-trans e f fs first b), (b, o))
  | inr later ↦
      rw later (place-Below f e fs (leb_total (seq_of e) (seq_of f) later) b, place-InOrder e fs o)
]

sort_by_seq-InOrder : (es : List Event) → InOrder (sort_by_seq es)
unfolding sort_by_seq InOrder
sort_by_seq-InOrder [] = tt
sort_by_seq-InOrder (e ∷ es) = place-InOrder e (sort_by_seq es) (sort_by_seq-InOrder es)

of_account-Below :
    (account : String) (e : Event) (es : List Event) → Below e es → Below e (of_account account es)
unfolding Below of_account
of_account-Below account e [] b = tt
of_account-Below account e (f ∷ fs) (low, b) = elim (Bool-cases (str_eq f.account account)) [
  | inl here ↦ rw here (low, of_account-Below account e fs b)
  | inr other ↦ rw other (of_account-Below account e fs b)
]

of_account-InOrder :
    (account : String) (es : List Event) → InOrder es → InOrder (of_account account es)
unfolding InOrder of_account
of_account-InOrder account [] o = tt
of_account-InOrder account (e ∷ es) (b, o) = elim (Bool-cases (str_eq e.account account)) [
  | inl here ↦ rw here (of_account-Below account e es b, of_account-InOrder account es o)
  | inr other ↦ rw other (of_account-InOrder account es o)
]

-- Events in order stay where they are.
sort_by_seq-same : (es : List Event) → InOrder es → sort_by_seq es ≡ es
unfolding sort_by_seq InOrder place Below
sort_by_seq-same [] o = refl
sort_by_seq-same (e ∷ es) (b, o) = rw (sort_by_seq-same es o) (place_first e es b)
  where
    place_first : (e : Event) (es : List Event) → Below e es → place e es ≡ e ∷ es
    place_first e [] b = refl
    place_first e (f ∷ fs) (low, b) = rw low refl

ordered-InOrder : (es : List Event) → all_numbered es ≡ true → InOrder (ordered es)
unfolding ordered
ordered-InOrder es n = rw n (sort_by_seq-InOrder es)

ordered-same : (es : List Event) → InOrder es → ordered es ≡ es
unfolding ordered
ordered-same es o = elim (Bool-cases (all_numbered es)) [
  | inl n ↦ rw n (sort_by_seq-same es o)
  | inr n ↦ rw n refl
]

module _ ⦃d : Decimals⦄ where
  -- If every event of a log has a number and the log folds, then folding one account alone is not
  -- refused and gives the state that the whole fold has for the account, the empty state if it
  -- has none.
  pub fold_account-fold :
      (es : List Event) (account : String) {states : Dict String AccountState}
      → all_numbered es ≡ true
      → fold es ≡ ok states
      → fold_account es account ≡ ok (state_of account states)
  unfolding fold fold_account
  fold_account-fold es account n h =
      let mine = of_account account (ordered es) in
      let stays : ordered mine ≡ mine =
        ordered-same mine (of_account-InOrder account (ordered es) (ordered-InOrder es n)) in
      let (t, folded, same) = fold_all-isolated account (ordered es) [] [] refl h in
      rw (stays, folded, same) refl
