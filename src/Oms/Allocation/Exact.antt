-- ===== src/Oms/Allocation/Exact.antt =====
-- The portions of a quantity add up to it (`allocate_quantity` of crates/te_core/src/oms/manager.rs).
use native.Mathlib.Nat.{mul-div_cancel, mul-one, mul-pos, zero-mul, div-one}
use native.Mathlib.Decide.{ℕ_discrete}
use trade_engine.Base.{
  ℕ, zero, suc, ◌+◌, ◌*◌, ◌/◌, ◌^◌, ◌%◌, ◌<◌, ◌≡◌, ◌≢◌, refl, sym, ap, subst, ◌∙◌, Bool, true,
  false, not, ◌&&◌, List, [], ◌∷◌, map, length, compare, Ordering, arith, ok, err, ◌>>◌, err_if,
  map_err, All, ltb, leb, ◌==◌, ==_iff, if◌then◌else◌, Result, ok-injective,
}
use trade_engine.Base.OnOk.{
  OnOk, holds, fails, OnOk-if_eq, OnOk-ok, OnOk-of, OnOk-bind_eq, OnOk-err_if,
}
use trade_engine.Base.Int.{ℤ, pos, pos_part, neg_part}
use trade_engine.Base.Powers.{pow10, pow10-zero, pow10-pos, pow10-suc}
use trade_engine.Money.Decimal.{Money, DecErr, zero_money}
use trade_engine.Money.Arithmetic.{parts_neg}
use trade_engine.Money.Integral.{from_i128, is_negative_int, magnitude, is_integral}
use trade_engine.Money.Canonical.{build_lem}
use trade_engine.Money.Order.{Decimals, le, value_order}
use trade_engine.Ledger.Errors.{LErr, R, derr}
use trade_engine.Ledger.Model.{Instrument}
use trade_engine.Oms.Replace.{is_equity, quantity_check}
use trade_engine.Oms.Allocation.{
  signed, big_integer, sum_int, as_money, all_as_money, check_weights, check_whole, sum_money,
  largest_remainder, allocate_some, allocate, is_future, allocate_quantity,
}
use trade_engine.Oms.Allocation.Conserved.{IsPositive, largest_remainder_lem}

map_err-ok : {A : Type 0} (r : Result DecErr A) {a : A} → map_err derr r ≡ ok a → r ≡ ok a
map_err-ok (ok a) h = cc
map_err-ok (err e) h = cc

of_sign : (n : ℤ) → signed (is_negative_int n) (magnitude n) ≡ n
of_sign n = ground arith

read_back :
    (negative : Bool) (c q : ℕ) (n : ℤ)
    → 0 < c
    → negative ≡ is_negative_int n
    → q ≡ magnitude n
    → (if c == 0 then pos 0 else signed (negative && not (c == 0)) q) ≡ n
read_back negative c q n h e v = ground arith

of_zero : (n : ℤ) → magnitude n ≡ 0 → pos 0 ≡ n
of_zero n z = ground arith

-- An integer that becomes a decimal is read back as itself.
big_integer-from_i128 : (n : ℤ) (m : Money) → from_i128 n ≡ ok m → big_integer m ≡ n
unfolding from_i128 big_integer
big_integer-from_i128 n m h =
    let (good, value, zero_is) = build_lem (is_negative_int n) (magnitude n) (pos 0) h in
    elim (ℕ_discrete (magnitude n) 0) [
      | yes z ↦ rw (zero_is z) (of_zero n z)
      | no p ↦
          let denotes = value (omega arith) in
          let exact : m.coef ≡ magnitude n * pow10 m.scale = omega (
            arith,
            denotes.value,
            ap (λ (t : ℕ). m.coef * t) pow10-zero,
            ap (λ (t : ℕ). magnitude n * t * pow10 m.scale) pow10-zero,
            ap (λ (t : ℕ). t * pow10 m.scale) (mul-one (magnitude n)),
          ) in
          let whole : m.coef / pow10 m.scale ≡ magnitude n =
            ap (λ (t : ℕ). t / pow10 m.scale) exact
            ∙ mul-div_cancel (magnitude n) (pow10-pos m.scale) in
          let some_digit : 0 < m.coef = rw exact (mul-pos (omega arith) (pow10-pos m.scale)) in
          read_back m.neg m.coef (m.coef / pow10 m.scale) n some_digit denotes.sign whole
    ]

-- It has no decimals, since a decimal's last digit behind the point is not zero.
from_i128-whole : (n : ℤ) (m : Money) → from_i128 n ≡ ok m → is_integral m ≡ true
unfolding from_i128 is_integral
from_i128-whole n m h =
    let (good, value, zero_is) = build_lem (is_negative_int n) (magnitude n) (pos 0) h in
    elim (ℕ_discrete (magnitude n) 0) [
      | yes z ↦ rw (zero_is z) refl
      | no p ↦
          let denotes = value (omega arith) in
          no_decimals m.scale m.coef (magnitude n) good.last (
            omega (
              arith,
              denotes.value,
              ap (λ (t : ℕ). m.coef * t) pow10-zero,
              ap (λ (t : ℕ). magnitude n * t * pow10 m.scale) pow10-zero,
              ap (λ (t : ℕ). t * pow10 m.scale) (mul-one (magnitude n)),
            ))
    ]
  where
    no_decimals :
        (scale c k : ℕ) → (0 < scale → c % 10 ≢ 0) → c ≡ k * pow10 scale → (scale == 0) ≡ true
    no_decimals zero c k last e = refl
    no_decimals (suc s) c k last e =
        absurd (last (omega arith) (tenfold (pow10 s) (e ∙ ap (λ (t : ℕ). k * t) (pow10-suc s))))
      where
        tenfold : (t : ℕ) → c ≡ k * (10 * t) → c % 10 ≡ 0
        tenfold t e =
            let moved : k * (10 * t) ≡ 10 * (k * t) = grind arith in omega (arith, e, moved)

-- A portion without decimals.
abbrev pub IsWhole : Money → Type 0
IsWhole m = is_integral m ≡ true

-- Whole portions that add up to a whole quantity.
abbrev pub Divides : Money → List Money → Type 0
Divides q ms = IsWhole q × All IsWhole ms × (sum_int (map big_integer ms) ≡ big_integer q)

as_money-exact : (n : ℤ) → OnOk (λ m. (big_integer m ≡ n) × IsWhole m) (as_money n)
unfolding as_money
as_money-exact n = OnOk-of (as_money n) λ m e.
    OnOk-ok {P = λ m. (big_integer m ≡ n) × IsWhole m}
      (OnOk-if_eq (ltb (pos_part n) (2 ^ 127) && leb (neg_part n) (2 ^ 127))
        (λ fits. OnOk-of (map_err derr (from_i128 n)) λ k ke.
          let made = map_err-ok (from_i128 n) ke in
          (big_integer-from_i128 n k made, from_i128-whole n k made))
        (λ beyond. fails))
      e

all_as_money-exact :
    (ns : List ℤ) → OnOk (λ ms. (map big_integer ms ≡ ns) × All IsWhole ms) (all_as_money ns)
unfolding all_as_money
all_as_money-exact [] = holds (refl, tt)
all_as_money-exact (n ∷ ns) = OnOk-bind_eq (as_money n) λ m em.
    OnOk-bind_eq (all_as_money ns) λ ms ems.
      let (same, whole) = OnOk-ok (as_money-exact n) em in
      let (others, wholes) = OnOk-ok (all_as_money-exact ns) ems in
      holds ((λ i. same i ∷ others i), (whole, wholes))

length-map_big : (ws : List Money) → length (map big_integer ws) ≡ length ws
length-map_big [] = refl
length-map_big (w ∷ ws) = ap suc (length-map_big ws)

above :
    (negative : Bool) (c p z : ℕ)
    → 0 < p
    → compare ((if negative then 0 else c * p) + 0) (0 * z + (if negative then c * p else 0))
      ≡ Ordering.gt
    → (negative ≡ false) × (0 < c)
above true c p z h e = ground (arith, zero-mul z)
above false zero p z h e = ground (arith, zero-mul z, zero-mul p)
above false (suc c) p z h e = (refl, omega arith)

passes : (b : Bool) → not b ≡ false → b ≡ true
passes true h = refl
passes false h = cc

both_passed :
    (b : Bool) (k : R (Unit {0})) → (err_if b LErr.value >> k) ≡ ok tt → (b ≡ false) × (k ≡ ok tt)
both_passed true k h = cc
both_passed false k h = (refl, h)

module _ ⦃d : Decimals⦄ where
  quantity_check-IsWhole : (q : Money) → OnOk (λ u. IsWhole q) (quantity_check true q)
  unfolding quantity_check
  quantity_check-IsWhole q = go (is_integral q)
    where
      go : (b : Bool) → OnOk (λ (u : Unit {0}). b ≡ true) (err_if (not b) LErr.value)
      go true = holds refl
      go false = fails

  le-value_order : (a b : Money) → le a b ≡ false → value_order a b ≡ Ordering.gt
  unfolding le
  le-value_order a b h = sym (d.cmp_by_value a b) ∙ only (d.cmp a b) h
    where
      only : (o : Ordering) → (elim o [ Ordering.gt ↦ false | _ ↦ true ]) ≡ false → o ≡ Ordering.gt
      only Ordering.lt h = cc
      only Ordering.eq h = cc
      only Ordering.gt h = refl

  -- A weight above zero, in whole shares.
  big_integer-IsPositive :
      (w : Money) → le w zero_money ≡ false → is_integral w ≡ true → IsPositive (big_integer w)
  unfolding value_order is_integral big_integer
  big_integer-IsPositive w h k =
      let (plus, digits) =
        above (parts_neg w) w.coef (pow10 0) (pow10 w.scale) (pow10-pos 0)
          (le-value_order w zero_money h) in
      let whole : w.scale ≡ 0 = (==_iff w.scale 0).0 k in
      let same : w.coef / pow10 w.scale ≡ w.coef =
        ap (λ (s : ℕ). w.coef / pow10 s) whole
        ∙ (ap (λ (t : ℕ). w.coef / t) pow10-zero ∙ div-one w.coef) in
      (w.coef, digits, go (w.coef / pow10 w.scale) (parts_neg w) plus same digits)
    where
      go :
          (q : ℕ) (negative : Bool)
          → negative ≡ false
          → q ≡ w.coef
          → 0 < w.coef
          → (if w.coef == 0 then pos 0 else signed negative q) ≡ pos w.coef
      go q negative plus same digits = ground arith

  map-IsPositive :
      (ws : List Money)
      → check_weights ws ≡ ok tt
      → check_whole ws ≡ ok tt
      → All IsPositive (map big_integer ws)
  unfolding check_weights check_whole
  map-IsPositive [] h k = tt
  map-IsPositive (w ∷ ws) h k =
      let (over, others) = both_passed (le w zero_money) (check_weights ws) h in
      let (whole, rest) = both_passed (not (is_integral w)) (check_whole ws) k in
      (big_integer-IsPositive w over (passes (is_integral w) whole), map-IsPositive ws others rest)

  allocate-exact :
      (q : Money) (ws : List Money)
      → length ws < 2 ^ 64
      → 0 < length ws
      → OnOk (Divides q) (allocate_some q ws true)
  unfolding allocate_some
  allocate-exact q ws few some_weight = OnOk-bind_eq (check_weights ws) λ u over.
      OnOk-bind_eq (sum_money ws) λ total et. OnOk-bind_eq (quantity_check true q) λ v whole_q.
        OnOk-bind_eq (check_whole ws) λ x whole.
          let (shares, computed, added) =
            largest_remainder_lem (big_integer q) (map big_integer ws)
              (map-IsPositive ws over whole) (rw (length-map_big ws) some_weight)
              (rw (length-map_big ws) few) in
          OnOk-bind_eq (largest_remainder (big_integer q) (map big_integer ws)) λ xs exs.
            OnOk-of (all_as_money xs) λ ms ems.
              let (same, wholes) = OnOk-ok (all_as_money-exact xs) ems in
              (
                OnOk-ok (quantity_check-IsWhole q) whole_q,
                wholes,
                ap sum_int same ∙ (ap sum_int (ok-injective (sym exs ∙ computed)) ∙ added),
              )

  -- If a quantity of an equity is allocated to fewer than 2^64 targets, at least one, and is not
  -- refused, then the quantity is a whole number of shares, so is every portion, and the portions
  -- add up to exactly the quantity, whatever the weights are.
  pub allocate_quantity-exact :
      (q : Money) (w : Money) (ws : List Money) (i : Instrument)
      → is_equity i ≡ true
      → length (w ∷ ws) < 2 ^ 64
      → OnOk (Divides q) (allocate_quantity q (w ∷ ws) i)
  unfolding allocate_quantity allocate
  allocate_quantity-exact q w ws i whole few =
      OnOk-err_if (is_future i) LErr.unsupported λ no_future.
        subst (λ b. OnOk (Divides q) (allocate_some q (w ∷ ws) b)) (sym whole)
          (allocate-exact q (w ∷ ws) few (omega arith))
