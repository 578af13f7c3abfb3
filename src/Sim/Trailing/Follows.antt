-- ===== src/Sim/Trailing/Follows.antt =====
-- A trailing stop follows the best price and never loosens (crates/te_core/src/sim/trailing.rs).
use trade_engine.Base.{
  ◌≡◌, refl, sym, ap, subst, ◌∙◌, Bool, true, false, some, List, [], ◌∷◌, ok, err, ◌⊎◌, inl, inr,
  Bool-cases, if◌then◌else◌,
}
use trade_engine.Money.Decimal.{Money, zero_money}
use trade_engine.Money.Order.{Decimals, lt, le, gt}
use trade_engine.Money.Ranking.{
  AtMost, AtMost-refl, AtMost-trans, not_lt-AtMost, lt-AtMost, not_gt-AtMost, gt-AtMost,
}
use trade_engine.Ledger.Errors.{LErr, R}
use trade_engine.Ledger.Model.{Side, buy, sell}
use trade_engine.Sim.Trailing.{
  Trail, dmin, dmax, next_extreme, stop_at, trigger, with_stop, observe, update, watch,
}

-- The price `b` is as good as `a` for the stop to follow.
abbrev pub AsGood : Side → Money → Money → Type 0
AsGood sell a b = AtMost a b
AsGood buy a b = AtMost b a

pub AsGood-trans : (s : Side) (a b c : Money) → AsGood s a b → AsGood s b c → AsGood s a c
AsGood-trans sell a b c h k = AtMost-trans a b c h k
AsGood-trans buy a b c h k = AtMost-trans c b a k h

-- The stop's later state: the same side and amount, a best price as good as before, and once it
-- has triggered, nothing changes.
pub record Follows (t u : Trail) : Type 0 where
  pub side : u.side ≡ t.side
  pub amount : u.trail_amount ≡ t.trail_amount
  pub extreme :
      (e : Money) → t.extreme ≡ some e → (f : Money) × (u.extreme ≡ some f) × AsGood t.side e f
  pub final : t.triggered ≡ true → u ≡ t

pub Follows-refl : (t : Trail) → Follows t t
Follows-refl t = record {
  side = refl;
  amount = refl;
  extreme = λ e h. (e, h, good t.side e);
  final = λ h. refl;
}
  where
    good : (s : Side) (e : Money) → AsGood s e e
    good sell e = AtMost-refl e
    good buy e = AtMost-refl e

pub Follows-trans : (t u v : Trail) → Follows t u → Follows u v → Follows t v
Follows-trans t u v h k = record {
  side = k.side ∙ h.side;
  amount = k.amount ∙ h.amount;
  extreme = λ e known.
      let (f, first, better) = h.extreme e known in
      let (g, second, best) = k.extreme f first in
      (g, second, AsGood-trans t.side e f g better (subst (λ s. AsGood s f g) h.side best));
  final = λ done. let same = h.final done in k.final (ap Trail.triggered same ∙ done) ∙ same;
}

module _ ⦃d : Decimals⦄ where
  -- The next best price is as good as the last, and as the price observed.
  dmax-AtMost : (e p : Money) → AtMost e (dmax e p) × AtMost p (dmax e p)
  unfolding dmax
  dmax-AtMost e p = elim (Bool-cases (gt p e)) [
    | inl h ↦ rw h (gt-AtMost p e h, AtMost-refl p)
    | inr h ↦ rw h (AtMost-refl e, not_gt-AtMost p e h)
  ]

  dmin-AtMost : (e p : Money) → AtMost (dmin e p) e × AtMost (dmin e p) p
  unfolding dmin
  dmin-AtMost e p = elim (Bool-cases (lt p e)) [
    | inl h ↦ rw h (lt-AtMost p e h, AtMost-refl p)
    | inr h ↦ rw h (AtMost-refl e, not_lt-AtMost p e h)
  ]

  pub next_extreme-AsGood :
      (s : Side) (e p : Money)
      → AsGood s e (next_extreme s (some e) p) × AsGood s p (next_extreme s (some e) p)
  unfolding next_extreme
  next_extreme-AsGood sell e p = dmax-AtMost e p
  next_extreme-AsGood buy e p = dmin-AtMost e p

  -- What an observation leaves as it was.
  abbrev pub Kept : Trail → Money → Trail → Type 0
  Kept t x u = (u.side ≡ t.side) × (u.trail_amount ≡ t.trail_amount) × (u.extreme ≡ some x)

  trigger-Kept :
      (t : Trail) (s : Side) (p stop x : Money)
      → t.extreme ≡ some x
      → Kept t x (trigger t s p stop).0
  unfolding trigger
  trigger-Kept t sell p stop x h = go (le stop zero_money)
    where
      go :
          (b : Bool)
          → Kept t x
              (let refused : Trail × R Bool = (t, err LErr.value) in
                let answer : Trail × R Bool =
                  (record t { triggered = le p stop }, ok (le p stop)) in
                if b then refused else answer).0
      go true = (refl, refl, h)
      go false = (refl, refl, h)
  trigger-Kept t buy p stop x h = (refl, refl, h)

  with_stop-Kept :
      (t : Trail) (p x : Money) (r : R Money) → t.extreme ≡ some x → Kept t x (with_stop t p r).0
  unfolding with_stop
  with_stop-Kept t p x (err e) h = (refl, refl, h)
  with_stop-Kept t p x (ok stop) h =
      trigger-Kept (record t { stop_price = some stop }) t.side p stop x h

  pub observe-Kept :
      (t : Trail) (p : Money) → Kept t (next_extreme t.side t.extreme p) (observe t p).0
  unfolding observe
  observe-Kept t p =
      let x = next_extreme t.side t.extreme p in
      with_stop-Kept (record t { extreme = some x }) p x (stop_at t.side x t.trail_amount) refl

  observe-Follows : (t : Trail) (p : Money) → t.triggered ≡ false → Follows t (observe t p).0
  observe-Follows t p running =
      let (side, amount, extreme) = observe-Kept t p in
      record {
        side = side;
        amount = amount;
        extreme = λ e known.
            let x = next_extreme t.side (some e) p in
            (
              x,
              extreme ∙ ap (λ o. some (next_extreme t.side o p)) known,
              (next_extreme-AsGood t.side e p).0,
            );
        final = λ done. let clash = sym running ∙ done in cc;
      }

  pub update-Follows : (t : Trail) (p : Money) → Follows t (update t p).0
  unfolding update
  update-Follows t p = go (le p zero_money) (Bool-cases t.triggered)
    where
      refused : Trail × R Bool
      refused = (t, err LErr.value)

      done : Trail × R Bool
      done = (t, ok true)

      go :
          (b : Bool)
          → (t.triggered ≡ true) ⊎ (t.triggered ≡ false)
          → Follows t (if b then refused else if t.triggered then done else observe t p).0
      go true h = Follows-refl t
      go false (inl h) =
          subst (λ (b : Bool). Follows t (if b then done else observe t p).0) (sym h)
            (Follows-refl t)
      go false (inr h) =
          subst (λ (b : Bool). Follows t (if b then done else observe t p).0) (sym h)
            (observe-Follows t p h)

  -- Whatever prices a trailing stop observes, refused ones included: its side and amount stay,
  -- the best price that it follows never gets worse, so the highest price of a stop that sells
  -- never falls and the lowest of one that buys never rises, and once the stop has triggered
  -- nothing of it changes any more.
  pub watch-Follows : (t : Trail) (ps : List Money) → Follows t (watch t ps)
  unfolding watch
  watch-Follows t [] = Follows-refl t
  watch-Follows t (p ∷ ps) =
      Follows-trans t (update t p).0 (watch (update t p).0 ps) (update-Follows t p)
        (watch-Follows (update t p).0 ps)
