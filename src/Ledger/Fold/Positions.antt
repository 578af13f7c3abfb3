-- ===== src/Ledger/Fold/Positions.antt =====
-- The positions of an account (crates/te_core/src/ledger/fold.rs).
use trade_engine.Base.{◌≡◌, sym, subst, List, String, ok}
use trade_engine.Base.OnOk.{OnOk, OnOk-of}
use trade_engine.Ledger.Dict.{get}
use trade_engine.Ledger.Keys.{hk}
use trade_engine.Ledger.Model.{EventKind, Fill}
use trade_engine.Money.Order.{Decimals}
use trade_engine.Ledger.State.{AccountState, new_account}
use trade_engine.Ledger.FillHandler.{on_fill}
use trade_engine.Ledger.FillHandler.Effect.{on_fill-Effect}
use trade_engine.Ledger.Lifecycle.{OptionLifecycle, on_lifecycle}
use trade_engine.Ledger.Lifecycle.Balanced.{
  EachBalanced, insert-EachBalanced, on_lifecycle-EachBalanced,
}
use trade_engine.Ledger.Fold.{Event, fold_account}
use trade_engine.Ledger.Fold.Books.{Books, books, apply_event-preserves}
use trade_engine.Ledger.Fold.Always.{fold_account-Always}

module _ ⦃d : Decimals⦄ where
  -- Every position of the books has lots that add up to its quantity.
  abbrev pub AllBalanced : Books → Type 0
  AllBalanced b = EachBalanced b.positions

  on_fill-AllBalanced :
      (st : AccountState) (f : Fill)
      → AllBalanced (books st)
      → OnOk (λ t. AllBalanced (books t)) (on_fill st f)
  unfolding books
  on_fill-AllBalanced st f h = OnOk-of (on_fill st f) λ t e.
      let b = on_fill-Effect st f e in
      subst EachBalanced (sym b.held) (
        insert-EachBalanced (hk f.instrument) f.instrument
          (record b.traded { realized_pnl = b.net }) st.positions b.balanced h)

  on_lifecycle-AllBalanced :
      (st : AccountState) (n : OptionLifecycle) (k : EventKind)
      → AllBalanced (books st)
      → OnOk (λ t. AllBalanced (books t)) (on_lifecycle st n k)
  unfolding books
  on_lifecycle-AllBalanced = on_lifecycle-EachBalanced

  new_account-AllBalanced : (account : String) → AllBalanced (books (new_account account))
  unfolding new_account books get
  new_account-AllBalanced account k p g = cc

  -- In the state that a log folds to, the signed lots of every position that has any lots add up
  -- to the position's quantity (I2).
  pub fold_account-AllBalanced :
      (es : List Event) (account : String) {st : AccountState}
      → fold_account es account ≡ ok st
      → AllBalanced (books st)
  fold_account-AllBalanced =
      fold_account-Always (λ st. AllBalanced (books st)) new_account-AllBalanced
        (apply_event-preserves AllBalanced on_fill-AllBalanced on_lifecycle-AllBalanced)
