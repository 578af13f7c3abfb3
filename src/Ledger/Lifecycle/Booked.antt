-- ===== src/Ledger/Lifecycle/Booked.antt =====
-- What an option event that is booked does to the account (`on_lifecycle` of
-- crates/te_core/src/ledger/fold.rs).
use trade_engine.Base.{
  ◌≡◌, ◌≢◌, refl, sym, ap, subst, ◌∙◌, Bool, true, false, not, ◌||◌, ok, if◌then◌else◌,
}
use trade_engine.Base.OnOk.{OnOk-ok}
use trade_engine.Money.Decimal.{Money, zero_money}
use trade_engine.Money.Order.{Decimals, lt, gt, ge}
use trade_engine.Ledger.Model.{EventKind, expiry, exercise, Side, buy, sell, side_eq}
use trade_engine.Ledger.Lots.{Position}
use trade_engine.Ledger.State.{AccountState}
use trade_engine.Ledger.Lifecycle.{
  OptionLifecycle, Settling, is_expiry, is_exercise, held_side, close_lots, deliver_lots,
  settle_lots, on_lifecycle,
}
use trade_engine.Ledger.Lifecycle.Settled.{MayHappen, on_lifecycle-Settled}
use trade_engine.Ledger.Lifecycle.Outcome.{ge-not-lt}
use trade_engine.Ledger.Lifecycle.Effects.{
  HeldOn, ClosedInCash, SettledInShares, Timely, Booked, cent,
}
use trade_engine.Ledger.Lifecycle.InCash.{close_lots-Closed}
use trade_engine.Ledger.Lifecycle.InShares.{deliver_lots-Settled}
use trade_engine.Options.Lifecycle.{threshold}

side_eq-same : (a b : Side) → side_eq a b ≡ true → a ≡ b
unfolding side_eq
side_eq-same buy buy h = refl
side_eq-same buy sell h = cc
side_eq-same sell buy h = cc
side_eq-same sell sell h = refl

not_expiry : (k : EventKind) → k ≢ expiry → is_expiry k ≡ false
unfolding is_expiry
not_expiry expiry h = absurd (h refl)
not_expiry k h = refl

not_exercise : (k : EventKind) → k ≢ exercise → is_exercise k ≡ false
unfolding is_exercise
not_exercise exercise h = absurd (h refl)
not_exercise k h = refl

an_expiry : (k : EventKind) → k ≡ expiry → is_expiry k ≡ true
unfolding is_expiry
an_expiry k h = subst (λ x. is_expiry x ≡ true) (sym h) refl

an_exercise : (k : EventKind) → k ≡ exercise → (is_expiry k ≡ false) × (is_exercise k ≡ true)
unfolding is_expiry is_exercise
an_exercise k h = subst (λ x. (is_expiry x ≡ false) × (is_exercise x ≡ true)) (sym h) (refl, refl)

is_cent : threshold ≡ cent
is_cent = refl

module _ ⦃d : Decimals⦄ where
  held_side-HeldOn : (p : Position) → HeldOn (held_side p) p.quantity
  unfolding held_side
  held_side-HeldOn p = go (gt p.quantity zero_money) refl
    where
      go : (b : Bool) → gt p.quantity zero_money ≡ b → HeldOn (if b then buy else sell) p.quantity
      go true h = h
      go false h = h

  low : (worth : Money) → ge worth threshold ≡ false → lt worth cent ≡ true
  low worth h =
      let same : not (lt worth cent) ≡ false =
        sym (ap (λ t. not (lt worth t)) is_cent) ∙ sym (ge-not-lt worth threshold) ∙ h in
      back (lt worth cent) same
    where
      back : (b : Bool) → not b ≡ false → b ≡ true
      back true h = refl
      back false h = cc

  may-Timely :
      (n : OptionLifecycle) (k : EventKind) (worth : Money) (american : Bool)
      → MayHappen (is_expiry k) (is_exercise k) n n.held worth american
      → Timely n k worth american
  may-Timely n k worth american h = record {
    expires = λ e.
        let (late, out) = at true (is_exercise k) (an_expiry k e) refl in (late, low worth out);
    in_the_money =
        λ e. ap (lt worth) (sym is_cent) ∙ (at false (is_exercise k) (not_expiry k e) refl).1;
    early = λ e. (at false (is_exercise k) (not_expiry k e) refl).2;
    exercises = λ e. let (a, b) = an_exercise k e in side_eq-same n.held buy (at false true a b).0;
    assigns =
        λ e x. side_eq-same n.held sell (at false false (not_expiry k e) (not_exercise k x)).0;
  }
    where
      at :
          (a b : Bool) → is_expiry k ≡ a → is_exercise k ≡ b → MayHappen a b n n.held worth american
      at a b ea eb =
          subst (λ x. MayHappen a x n n.held worth american) eb
            (subst (λ x. MayHappen x (is_exercise k) n n.held worth american) ea h)

  -- What settling the lots comes to, by the kind of event and the settlement of the contract.
  settle_lots-by :
      (st : AccountState) (n : OptionLifecycle) (k : EventKind) (p : Position) (value : Money)
      (in_cash expires : Bool)
      → is_expiry k ≡ expires
      → settle_lots st n k p value in_cash ≡ (
          if expires || in_cash
          then close_lots st n p (if expires then zero_money else value)
          else deliver_lots st n k p)
  unfolding settle_lots
  settle_lots-by st n k p value in_cash expires h =
      ap
        (λ b.
          if b || in_cash
          then close_lots st n p (if b then zero_money else value)
          else deliver_lots st n k p)
        h

  settle_lots-as :
      (st : AccountState) (n : OptionLifecycle) (k : EventKind) (p : Position) (value : Money)
      (in_cash : Bool) {s : Settling}
      → settle_lots st n k p value in_cash ≡ ok s
      → (k ≡ expiry → ClosedInCash st n p (held_side p) zero_money s)
        × (k ≢ expiry → in_cash ≡ true → ClosedInCash st n p (held_side p) value s)
        × (k ≢ expiry → in_cash ≡ false → SettledInShares st n k p (held_side p) s)
  settle_lots-as st n k p value in_cash h = (
    λ e.
        OnOk-ok (close_lots-Closed st n p zero_money)
          (sym (settle_lots-by st n k p value in_cash true (an_expiry k e)) ∙ h),
    λ e c. OnOk-ok (close_lots-Closed st n p value) (
        sym (
          subst
            (λ b.
              settle_lots st n k p value in_cash
              ≡ (if b then close_lots st n p value else deliver_lots st n k p))
            c (settle_lots-by st n k p value in_cash false (not_expiry k e)))
        ∙ h),
    λ e c. OnOk-ok (deliver_lots-Settled st n k p) (
        sym (
          subst
            (λ b.
              settle_lots st n k p value in_cash
              ≡ (if b then close_lots st n p value else deliver_lots st n k p))
            c (settle_lots-by st n k p value in_cash false (not_expiry k e)))
        ∙ h),
  )

  -- An option event that is booked is of contracts the account holds, on the side the event says,
  -- and no more than it holds. An expiry is not early and of a value below a cent; any other
  -- event is of a value of at least a cent and early only for an American contract, an exercise
  -- of contracts bought and an assignment of contracts sold. At an expiry the lots are closed
  -- from the oldest on at zero, at the settlement of a contract in cash at its value, which who
  -- bought them receives and who sold them pays, unit by unit. At any other settlement the lots
  -- are taken from the oldest on, and each becomes a trade of its multiplier in shares at the
  -- price of `delivery`, a purchase for who bought a call or sold a put and a sale for the
  -- others; the strike of every share is paid at a purchase and received at a sale. The realized
  -- result grows by what the lots or the share trades realize, and nothing but positions, cash
  -- and realized result changes.
  pub on_lifecycle-Booked :
      (st : AccountState) (n : OptionLifecycle) (k : EventKind) {t : AccountState}
      → on_lifecycle st n k ≡ ok t
      → Booked st n k t
  on_lifecycle-Booked st n k h =
      let b = OnOk-ok (on_lifecycle-Settled st n k) h in
      let same = side_eq-same (held_side b.position) n.held b.side in
      let (out, cash, shares) = settle_lots-as st n k b.position b.worth b.in_cash b.settled in
      record {
        position = b.position;
        found = b.found;
        some_held = b.nonflat;
        side = subst (λ s. HeldOn s b.position.quantity) same (held_side-HeldOn b.position);
        size = b.size;
        sized = b.sized;
        within = b.within;
        text = b.text;
        valued = b.valued;
        worth = b.worth;
        read = b.read;
        in_cash = b.in_cash;
        settlement = b.settlement;
        american = b.style;
        styled = b.styled;
        timely = may-Timely n k b.worth b.style (
            subst (λ s. MayHappen (is_expiry k) (is_exercise k) n s b.worth b.style) same
              b.allowed);
        settling = b.settling;
        expired =
            λ e. subst (λ s. ClosedInCash st n b.position s zero_money b.settling) same (out e);
        cash =
            λ e c. subst (λ s. ClosedInCash st n b.position s b.worth b.settling) same (cash e c);
        shares =
            λ e c. subst (λ s. SettledInShares st n k b.position s b.settling) same (shares e c);
        realized = b.realized;
        gained = b.gained;
        result = b.result;
      }
