-- ===== src/Ledger/Lifecycle/Outcome.antt =====
-- The outcome that an option's expiry has (`expiry_outcome` of
-- crates/te_core/src/options/lifecycle.rs) against the events that the fold accepts
-- (`on_lifecycle` of crates/te_core/src/ledger/fold.rs).
use trade_engine.Base.{
  ◌≡◌, refl, ap, ◌↔◌, Bool, true, false, not, ◌&&◌, String, ok, ◌>>◌, err_if, if◌then◌else◌,
  Ordering, str_eq, str_eq_iff, ok-injective,
}
use trade_engine.Money.Decimal.{Money}
use trade_engine.Money.Order.{Decimals, lt, ge}
use trade_engine.Ledger.Errors.{LErr, R}
use trade_engine.Ledger.Model.{EventKind, Side, buy, sell, side_eq}
use trade_engine.Ledger.Lifecycle.{OptionLifecycle, is_expiry, is_exercise, check_event}
use trade_engine.Options.{ContractWire, Res}
use trade_engine.Options.Lifecycle.{threshold, intrinsic_value, expiry_outcome}

-- The outcome that an event of the kind settles.
abbrev outcome : Bool → Bool → String
outcome true exercised = "expire"
outcome false true = "exercise"
outcome false false = "assign"

abbrev pub outcome_of : EventKind → String
outcome_of k = outcome (is_expiry k) (is_exercise k)

-- An event at the expiry, for a value that is below the threshold or not.
accepts : Bool → Bool → Bool → Bool → Side → R (Unit {0})
accepts low american expires exercised held =
    if expires
    then (err_if false LErr.fold >> err_if (not low) LErr.fold)
    else (err_if (not (side_eq held (if exercised then buy else sell))) LErr.fold
        >> (err_if low LErr.fold >> err_if (false && not american) LErr.fold))

names : Bool → Side → Res String
names low held = ok (if low then "expire" else if side_eq held buy then "exercise" else "assign")

apart : {A : Type 0} (s t : String) → str_eq s t ≡ false → ◌≡◌ {A = Res String} (ok s) (ok t) → A
apart s t h e = let same : str_eq s t ≡ true = (str_eq_iff s t).1 (ok-injective e) in cc

agrees :
    (low american expires exercised : Bool) (held : Side)
    → (accepts low american expires exercised held ≡ ok tt)
      ↔ (names low held ≡ ok (outcome expires exercised))
unfolding accepts names side_eq
agrees true american true exercised held = (λ e. refl, λ e. refl)
agrees true american false true buy = (λ e. cc, apart "expire" "exercise" refl)
agrees true american false true sell = (λ e. cc, apart "expire" "exercise" refl)
agrees true american false false buy = (λ e. cc, apart "expire" "assign" refl)
agrees true american false false sell = (λ e. cc, apart "expire" "assign" refl)
agrees false american true exercised buy = (λ e. cc, apart "exercise" "expire" refl)
agrees false american true exercised sell = (λ e. cc, apart "assign" "expire" refl)
agrees false american false true buy = (λ e. refl, λ e. refl)
agrees false american false true sell = (λ e. cc, apart "assign" "exercise" refl)
agrees false american false false buy = (λ e. cc, apart "exercise" "assign" refl)
agrees false american false false sell = (λ e. refl, λ e. refl)

module _ ⦃d : Decimals⦄ where
  pub ge-not-lt : (a b : Money) → ge a b ≡ not (lt a b)
  unfolding ge lt
  ge-not-lt a b = go (d.cmp a b)
    where
      go :
          (o : Ordering)
          → (elim o [ Ordering.lt ↦ false | _ ↦ true ])
            ≡ not (elim o [ Ordering.lt ↦ true | _ ↦ false ])
      go Ordering.lt = refl
      go Ordering.eq = refl
      go Ordering.gt = refl

  -- For an event that is not early and a contract whose value at the price has a comparison with
  -- the threshold that its parsed text keeps, the fold's check accepts the event exactly if
  -- `expiry_outcome` names the event's kind.
  pub check_event-expiry_outcome :
      (c : ContractWire) (price : String) (v m : Money) (k : EventKind) (n : OptionLifecycle)
      (held : Side) (american : Bool)
      → intrinsic_value c price ≡ ok v
      → d.cmp m threshold ≡ d.cmp v threshold
      → n.early ≡ false
      → (check_event k n held m american ≡ ok tt)
        ↔ (expiry_outcome c (side_eq held buy) price ≡ ok (outcome_of k))
  unfolding check_event expiry_outcome accepts names lt
  check_event-expiry_outcome c price v m k n held american worth same late =
      let below : lt m threshold ≡ lt v threshold =
        ap (λ (o : Ordering). elim o as (λ x. Bool) [ Ordering.lt ↦ true | _ ↦ false ]) same in
      rw (worth, late, ge-not-lt m threshold, below)
        (agrees (lt v threshold) american (is_expiry k) (is_exercise k) held)
