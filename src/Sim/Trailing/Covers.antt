-- ===== src/Sim/Trailing/Covers.antt =====
-- Which prices a running trailing stop has followed (crates/te_core/src/sim/trailing.rs).
use trade_engine.Base.{
  ◌≡◌, sym, ap, subst, ◌∙◌, Bool, true, false, Option, none, some, List, [], ◌∷◌, ◌⊎◌, inl, inr,
  Bool-cases, if_false, All,
}
use trade_engine.Money.Decimal.{Money, zero_money}
use trade_engine.Money.Order.{Decimals, le}
use trade_engine.Money.Ranking.{AtMost-refl}
use trade_engine.Ledger.Errors.{R}
use trade_engine.Ledger.Model.{Side, buy, sell}
use trade_engine.Sim.Trailing.{Trail, next_extreme, observe, update, watch}
use trade_engine.Sim.Trailing.Follows.{
  AsGood, AsGood-trans, Follows, next_extreme-AsGood, observe-Kept, update-Follows, watch-Follows,
}

-- The best price is as good as the price `p`.
pub record Covers (t : Trail) (p : Money) : Type 0 where
  pub best : Money
  pub known : t.extreme ≡ some best
  pub as_good : AsGood t.side p best

module _ ⦃d : Decimals⦄ where
  observe-Covers : (t : Trail) (p : Money) → Covers (observe t p).0 p
  unfolding next_extreme
  observe-Covers t p =
      let (side, amount, extreme) = observe-Kept t p in
      record {
        best = next_extreme t.side t.extreme p;
        known = extreme;
        as_good =
            subst (λ s. AsGood s p (next_extreme t.side t.extreme p)) (sym side) (go t.extreme);
      }
    where
      same : (s : Side) → AsGood s p p
      same sell = AtMost-refl p
      same buy = AtMost-refl p

      go : (o : Option Money) → AsGood t.side p (next_extreme t.side o p)
      go none = same t.side
      go (some e) = (next_extreme-AsGood t.side e p).1

  Covers-later : (t u : Trail) (p : Money) → Follows t u → Covers t p → Covers u p
  Covers-later t u p f c =
      let (best, known, better) = f.extreme c.best c.known in
      record {
        best = best;
        known = known;
        as_good =
            subst (λ s. AsGood s p best) (sym f.side)
              (AsGood-trans t.side p c.best best c.as_good better);
      }

  running_before : (t u : Trail) → Follows t u → u.triggered ≡ false → t.triggered ≡ false
  running_before t u f running = elim (Bool-cases t.triggered) [
    | inl done ↦ let clash = sym running ∙ (ap Trail.triggered (f.final done) ∙ done) in cc
    | inr r ↦ r
  ]

  update-Covers :
      (t : Trail) (p : Money)
      → t.triggered ≡ false
      → (le p zero_money ≡ true) ⊎ Covers (update t p).0 p
  unfolding update
  update-Covers t p running = elim (Bool-cases (le p zero_money)) [
    | inl refused ↦ inl refused
    | inr valid ↦
        let moved : update t p ≡ observe t p = if_false _ _ valid ∙ if_false _ _ running in
        inr (
          subst (λ u. Covers u p) (ap (λ (r : Trail × R Bool). r.0) (sym moved))
            (observe-Covers t p))
  ]

  -- If a trailing stop has not triggered after a list of prices, then each of those prices was
  -- refused as zero or less, or the best price that the stop follows is at least as good as it.
  pub watch-Covers :
      (t : Trail) (ps : List Money)
      → (watch t ps).triggered ≡ false
      → All (λ p. (le p zero_money ≡ true) ⊎ Covers (watch t ps) p) ps
  unfolding watch
  watch-Covers t [] running = tt
  watch-Covers t (p ∷ ps) running =
      let u = (update t p).0 in
      let later = watch-Follows u ps in
      let before =
        running_before t u (update-Follows t p) (running_before u (watch u ps) later running) in
      (
        elim (update-Covers t p before) [
          | inl refused ↦ inl refused
          | inr covered ↦ inr (Covers-later u (watch u ps) p later covered)
        ],
        watch-Covers u ps running,
      )
