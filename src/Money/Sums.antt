-- ===== src/Money/Sums.antt =====
-- Laws of the sum and of equality of decimals (crates/te_core/src/money.rs).
use trade_engine.Base.{
  ℕ, ◌+◌, ◌-◌, ◌*◌, ◌<◌, ◌≡◌, ◌↔◌, refl, sym, ap, ◌∙◌, Bool, true, false, not, xor, ◌&&◌, max, ok,
  arith, ◌==◌, compare, Ordering, ◌⊎◌, inl, inr, if◌then◌else◌,
}
use trade_engine.Base.Int.{sub_ℕ}
use trade_engine.Base.Powers.{pow10, pow10-pos}
use trade_engine.Money.Decimal.{Money, zero_money, finish_big}
use trade_engine.Money.Arithmetic.{parts_neg, signed_sum_big, add_big, add, sub}
use trade_engine.Money.Canonical.{IsCanonical, canonical_unique}
use trade_engine.Money.FastPath.{add_signed-eq-add_big, finish_big-zero}
use trade_engine.Money.Order.{Decimals, value_order, eq, lt, pos_at, neg_at}
use native.Mathlib.Decide.{ℕ_discrete}
use native.Mathlib.Nat.{zero-mul}

signed_sum_big_comm : (na nb : Bool) (x y : ℕ) → signed_sum_big na nb x y ≡ signed_sum_big nb na y x
unfolding signed_sum_big
signed_sum_big_comm true true x y = ground arith
signed_sum_big_comm true false x y = ground arith
signed_sum_big_comm false true x y = ground arith
signed_sum_big_comm false false x y = ground arith

xor-false : (b : Bool) → xor b false ≡ b
xor-false true = refl
xor-false false = refl

add_big_comm : (a b : Money) → add_big a b false ≡ add_big b a false
unfolding add_big
add_big_comm a b =
    let s = max a.scale b.scale in
    let swap : max b.scale a.scale ≡ s = omega arith in
    rw (
      xor-false (parts_neg a),
      xor-false (parts_neg b),
      swap,
      signed_sum_big_comm (parts_neg a) (parts_neg b) (a.coef * pow10 (s - a.scale))
          (b.coef * pow10 (s - b.scale)),
    )

-- The order of two summands does not matter, neither for the sum nor for a refusal.
pub add_comm : (a b : Money) → add a b ≡ add b a
unfolding add
add_comm a b =
    add_signed-eq-add_big a b false ∙ (add_big_comm a b ∙ sym (add_signed-eq-add_big b a false))

cancelled :
    (p full : Bool) (x : ℕ)
    → (p ≡ false) × (x ≡ 0) × (full ≡ false) ⊎ (full ≡ true)
    → (signed_sum_big p (xor p full) x x).1 ≡ 0
unfolding signed_sum_big
cancelled true true x h = ground arith
cancelled true false x h = ground arith
cancelled false true x h = ground arith
cancelled false false x h = ground arith

zero_or_full :
    (m : Money) (p : ℕ)
    → (parts_neg m ≡ false) × (m.coef * p ≡ 0) × (not (m.coef == 0) ≡ false)
      ⊎ (not (m.coef == 0) ≡ true)
zero_or_full m p = elim (ℕ_discrete m.coef 0) [
  | yes z ↦ inl (ground arith, rw z (zero-mul p), ground arith)
  | no n ↦ inr (ground arith)
]

-- A number taken from itself leaves exactly zero and is never refused.
pub sub_self : (a : Money) → sub a a ≡ ok zero_money
unfolding sub add_big
sub_self a =
    let s = max a.scale a.scale in
    let x = a.coef * pow10 (s - a.scale) in
    let t = signed_sum_big (parts_neg a) (xor (parts_neg a) (true && not (a.coef == 0))) x x in
    let nothing : t.1 ≡ 0 =
      cancelled (parts_neg a) (not (a.coef == 0)) x (zero_or_full a (pow10 (s - a.scale))) in
    add_signed-eq-add_big a a true
    ∙ (ap (λ (z : ℕ). finish_big t.0 z (sub_ℕ 0 s)) nothing ∙ finish_big-zero t.0 (sub_ℕ 0 s))

compare_signed :
    (p q : Bool) (x y : ℕ)
    → compare
        ((if p then 0 else x) + (if q then y else 0))
        ((if q then 0 else y) + (if p then x else 0))
      ≡ Ordering.eq
    → (p ≡ true → 0 < x)
    → (q ≡ true → 0 < y)
    → (p ≡ q) × (x ≡ y)
compare_signed true true x y h k l = ground arith
compare_signed true false x y h k l = ground (arith, k refl)
compare_signed false true x y h k l = ground (arith, l refl)
compare_signed false false x y h k l = ground arith

compare_same : (n : ℕ) → compare n n ≡ Ordering.eq
compare_same n = ground arith

negative_is_positive : (m : Money) (p : ℕ) → 0 < p → parts_neg m ≡ true → 0 < m.coef * p
negative_is_positive m p h k = let full : 0 < m.coef = ground arith in grind (arith, full, h)

module _ ⦃d : Decimals⦄ where
  eq-value_order : (a b : Money) → (eq a b ≡ true) ↔ (value_order a b ≡ Ordering.eq)
  unfolding eq
  eq-value_order a b = rw (← d.cmp_by_value a b) (only (d.cmp a b))
    where
      only :
          (o : Ordering) → ((elim o [ Ordering.eq ↦ true | _ ↦ false ]) ≡ true) ↔ (o ≡ Ordering.eq)
      only Ordering.lt = ((λ h. cc), λ h. cc)
      only Ordering.eq = ((λ h. refl), λ h. refl)
      only Ordering.gt = ((λ h. cc), λ h. cc)

  -- On canonical numbers, equality by value holds exactly if the signs, coefficients and scales
  -- are the same.
  pub eq_iff : (a b : Money) → IsCanonical a → IsCanonical b → (eq a b ≡ true) ↔ (a ≡ b)
  unfolding value_order
  eq_iff a b ha hb = (
    (λ h.
        let (signs, values) =
          compare_signed (parts_neg a) (parts_neg b) (a.coef * pow10 b.scale)
            (b.coef * pow10 a.scale) ((eq-value_order a b).0 h)
            (negative_is_positive a (pow10 b.scale) (pow10-pos b.scale))
            (negative_is_positive b (pow10 a.scale) (pow10-pos a.scale)) in
        canonical_unique a b ha hb signs values),
    λ e. (eq-value_order a b).1 (rw (← e) (compare_same _)),
  )

  pub lt_self : (m : Money) → lt m m ≡ false
  unfolding lt value_order
  lt_self m =
      ap (λ (o : Ordering). elim o as (λ _. Bool) [ Ordering.lt ↦ true | _ ↦ false ])
        (d.cmp_by_value m m ∙ compare_same (pos_at m m.scale + neg_at m m.scale))

  pub eq_self : (m : Money) → eq m m ≡ true
  unfolding value_order
  eq_self m = (eq-value_order m m).1 (compare_same _)
