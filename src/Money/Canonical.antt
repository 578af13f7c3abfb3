-- ===== src/Money/Canonical.antt =====
-- The canonical form of crates/te_core/src/money.rs (S1): what `build` returns is canonical and has
-- exactly the value that it was given, and a value has only one canonical form.
use trade_engine.Base.{
  ℕ, zero, suc, ◌+◌, ◌-◌, ◌*◌, ◌%◌, ◌≤◌, ◌<◌, ◌≡◌, ◌≢◌, refl, sym, ap, subst, ◌∙◌, ok-injective,
  Bool, false, ok, ◌>>=◌, >>=-eq-ok, arith, ◌==◌,
}
use trade_engine.Base.Int.{ℤ, pos, negsuc, pos_part, neg_part, ◌+ℤ◌, int_laws}
use trade_engine.Base.Powers.{pow10, pow10-zero, pow10-suc, pow10-pos, pow10-add}
use trade_engine.Money.Digits.{strip_zeros, strip_zeros-Stripped, Stripped}
use trade_engine.Money.Decimal.{Money, zero_money, align, bound, build, max_scale, mantissa_limit}
use trade_engine.Money.Arithmetic.{parts_neg}
use native.Mathlib.Decide.{dec_lt, ℕ_discrete}
use native.Mathlib.Nat.{mul_assoc, eq_of_mul-eq-mul_right}

-- The one spelling of a value: in bound, no trailing zero behind the point, no negative zero.
pub record IsCanonical (m : Money) : Type 0 where
  pub fits : m.coef < mantissa_limit
  pub fine : m.scale ≤ max_scale
  pub last : 0 < m.scale → m.coef % 10 ≢ 0
  pub unsigned : m.coef ≡ 0 → (m.scale ≡ 0) × (m.neg ≡ false)

-- `m` is `(-1)^neg * c * 10^e`, exactly.
pub record Denotes (neg : Bool) (c : ℕ) (e : ℤ) (m : Money) : Type 0 where
  pub sign : m.neg ≡ neg
  pub value : m.coef * pow10 (neg_part e) ≡ c * pow10 (pos_part e) * pow10 m.scale

align_lem :
    (c : ℕ) (e : ℤ) {r : ℕ × ℕ}
    → align c e ≡ ok r
    → (r.0 ≡ c * pow10 (pos_part e)) × (r.1 ≡ neg_part e)
unfolding align
align_lem c (pos zero) h = ground (arith, pow10-zero, ap (λ (t : ℕ). c * t) pow10-zero)
align_lem c (pos (suc n)) h = ground arith
align_lem c (negsuc n) h = ground (arith, pow10-zero, ap (λ (t : ℕ). c * t) pow10-zero)

bound_lem :
    (neg : Bool) (c s : ℕ) {m : Money}
    → bound neg c s ≡ ok m
    → (m ≡ record { neg = neg; coef = c; scale = s }) × (c < mantissa_limit) × (s ≤ max_scale)
unfolding bound
bound_lem neg c s h = ground arith

-- Both sides are `c'` times ten to the same sum of exponents.
rescale :
    (c c' k : ℕ) (e e' : ℤ)
    → c ≡ c' * pow10 k
    → e' ≡ e +ℤ pos k
    → c' * pow10 (pos_part e') * pow10 (neg_part e) ≡ c * pow10 (pos_part e) * pow10 (neg_part e')
rescale c c' k e e' v x =
    rw
      (
        v,
        mul_assoc c' (pow10 (pos_part e')) (pow10 (neg_part e)),
        ← pow10-add,
        mul_assoc c' (pow10 k) (pow10 (pos_part e)),
        ← pow10-add,
        mul_assoc c' (pow10 (k + pos_part e)) (pow10 (neg_part e')),
        ← pow10-add,
      )
      (ap (λ (t : ℕ). c' * pow10 t) same_power)
  where
    same_power : pos_part e' + neg_part e ≡ k + pos_part e + neg_part e'
    same_power = rw x (omega int_laws)

last_digit :
    (c' co sc : ℕ) (e' : ℤ)
    → c' % 10 ≢ 0
    → co ≡ c' * pow10 (pos_part e')
    → sc ≡ neg_part e'
    → 0 < sc
    → co % 10 ≢ 0
last_digit c' co sc (pos n) h v x p = absurd (omega arith)
last_digit c' co sc (negsuc n) h v x p =
    let same : co ≡ c' = omega (arith, v, ap (λ (t : ℕ). c' * t) pow10-zero) in rw same h

nonzero_scaled : (c p : ℕ) → 0 < c → 0 < p → c * p ≢ 0
nonzero_scaled c p h k = grind arith

build_parts :
    (neg : Bool) (c c' : ℕ) (e e' : ℤ) {m : Money}
    → 0 < c
    → Stripped c e (c', e')
    → (align c' e' >>= λ r. bound neg r.0 r.1) ≡ ok m
    → IsCanonical m × Denotes neg c e m
build_parts neg c c' e e' {m} p (k, v, x, last) h =
    let (r, aligned, bounded) = >>=-eq-ok (align c' e') (λ r. bound neg r.0 r.1) h in
    let (rc, rs) = align_lem c' e' aligned in
    let (same, fits, fine) = bound_lem neg r.0 r.1 bounded in
    let coef_is : m.coef ≡ c' * pow10 (pos_part e') = ap Money.coef same ∙ rc in
    let scale_is : m.scale ≡ neg_part e' = ap Money.scale same ∙ rs in
    let digit : 0 < c' = omega arith in
    let nonzero : m.coef ≢ 0 = λ z.
      nonzero_scaled c' (pow10 (pos_part e')) digit (pow10-pos (pos_part e')) (sym coef_is ∙ z) in
    (
      record {
        fits = rw same fits;
        fine = rw same fine;
        last = last_digit c' m.coef m.scale e' last coef_is scale_is;
        unsigned = λ z. absurd (nonzero z);
      },
      record { sign = ap Money.neg same; value = rw (coef_is, scale_is) (rescale c c' k e e' v x) },
    )

pub zero-IsCanonical : IsCanonical zero_money
zero-IsCanonical = record {
  fits = omega arith;
  fine = omega arith;
  last = λ h. absurd (omega arith);
  unsigned = λ h. (refl, refl);
}

pub build_step :
    (neg : Bool) (c : ℕ) (e : ℤ)
    → 0 < c
    → build neg c e ≡ (align (strip_zeros c e).0 (strip_zeros c e).1 >>= λ r. bound neg r.0 r.1)
unfolding build
build_step neg c e p = let full : (c == 0) ≡ false = ground arith in rw full

pub build_zero : (neg : Bool) (c : ℕ) (e : ℤ) → c ≡ 0 → build neg c e ≡ ok zero_money
unfolding build
build_zero neg c e z = rw z

-- If `build` returns a number, it is canonical; it has the sign and exactly the value of the
-- coefficient and exponent given, and it is zero if the coefficient is zero.
pub build_lem :
    (neg : Bool) (c : ℕ) (e : ℤ) {m : Money}
    → build neg c e ≡ ok m
    → IsCanonical m × (0 < c → Denotes neg c e m) × (c ≡ 0 → m ≡ zero_money)
build_lem neg c e {m} h = elim (ℕ_discrete c 0) [
  | yes z ↦
      let same : zero_money ≡ m = ok-injective (sym (build_zero neg c e z) ∙ h) in
      (subst IsCanonical same zero-IsCanonical, (λ p. absurd (omega arith)), λ q. sym same)
  | no n ↦
      let p : 0 < c = omega arith in
      let (good, value) =
        build_parts neg c (strip_zeros c e).0 e (strip_zeros c e).1 p (strip_zeros-Stripped c e p)
          (sym (build_step neg c e p) ∙ h) in
      (good, (λ q. value), λ z. absurd (n z))
]

-- Two canonical numbers with one sign and one value are the same.
unscaled : (a b sa sb : ℕ) → a * pow10 sb ≡ b * pow10 sa → sa < sb → b % 10 ≢ 0 → ⊥
unscaled a b sa sb v h last =
    let split : pow10 sb ≡ 10 * pow10 (sb - sa - 1) * pow10 sa =
      rw (← pow10-suc (sb - sa - 1), ← pow10-add (suc (sb - sa - 1)) sa) (ap pow10 (omega arith)) in
    let times : b ≡ a * (10 * pow10 (sb - sa - 1)) =
      eq_of_mul-eq-mul_right (pow10 sa) (pow10-pos sa) b (a * (10 * pow10 (sb - sa - 1))) (
        sym v
        ∙ (ap (λ (t : ℕ). a * t) split
            ∙ sym (mul_assoc a (10 * pow10 (sb - sa - 1)) (pow10 sa)))) in
    last (rw times (omega arith))

same_sign :
    (a b : Money)
    → IsCanonical a
    → IsCanonical b
    → a.coef ≡ b.coef
    → parts_neg a ≡ parts_neg b
    → a.neg ≡ b.neg
same_sign a b ha hb c s = elim (ℕ_discrete a.coef 0) [
  | yes z ↦ (ha.unsigned z).1 ∙ sym (hb.unsigned (sym c ∙ z)).1
  | no p ↦ ground arith
]

-- Two canonical numbers with the same sign and the same value have the same sign, coefficient and
-- scale: a value has one spelling.
pub canonical_unique :
    (a b : Money)
    → IsCanonical a
    → IsCanonical b
    → parts_neg a ≡ parts_neg b
    → a.coef * pow10 b.scale ≡ b.coef * pow10 a.scale
    → a ≡ b
canonical_unique a b ha hb s v =
    let scales : a.scale ≡ b.scale = elim (dec_lt a.scale b.scale) [
      | yes p ↦ absurd (unscaled a.coef b.coef a.scale b.scale v p (hb.last (omega arith)))
      | no p ↦ elim (dec_lt b.scale a.scale) [
        | yes q ↦ absurd (unscaled b.coef a.coef b.scale a.scale (sym v) q (ha.last (omega arith)))
        | no q ↦ omega arith
      ]
    ] in
    let coefs : a.coef ≡ b.coef =
      eq_of_mul-eq-mul_right (pow10 b.scale) (pow10-pos b.scale) a.coef b.coef
        (v ∙ ap (λ (t : ℕ). b.coef * pow10 t) scales) in
    let signs : a.neg ≡ b.neg = same_sign a b ha hb coefs s in
    λ i. record { neg = signs i; coef = coefs i; scale = scales i }
