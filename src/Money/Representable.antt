-- ===== src/Money/Representable.antt =====
-- Which values `build` accepts (crates/te_core/src/money.rs): all those of a canonical number.
use trade_engine.Base.{
  ℕ, zero, suc, ◌+◌, ◌*◌, ◌%◌, ◌≤◌, ◌<◌, ◌≡◌, ◌≢◌, refl, sym, ap, ◌∙◌, ok, ◌>>=◌, arith,
}
use trade_engine.Base.Int.{ℤ, pos, negsuc, pos_part, neg_part, sub_ℕ, ◌+ℤ◌, +ℤ_parts}
use trade_engine.Base.Powers.{pow10, pow10-zero, pow10-suc, pow10-pos, pow10-add, pow10-lt}
use trade_engine.Money.Digits.{strip_zeros, strip_zeros-Stripped}
use trade_engine.Money.Decimal.{Money, align, bound, build, mantissa_limit}
use trade_engine.Money.Canonical.{IsCanonical, build_step}
use native.Mathlib.Nat.{mul_assoc}

-- A power of ten that leaves a last digit.
no_power : (c k co : ℕ) → co ≡ c * pow10 k → co % 10 ≢ 0 → k ≡ 0
no_power c zero co v last = refl
no_power c (suc k) co v last =
    let times : co ≡ c * (10 * pow10 k) = v ∙ ap (λ (t : ℕ). c * t) (pow10-suc k) in
    absurd (last (rw times (omega arith)))

no_power_of_scale : (c k co s : ℕ) → co ≡ c * pow10 k → (0 < s → co % 10 ≢ 0) → 0 < s → k ≡ 0
no_power_of_scale c k co s v last p = no_power c k co v (last p)

-- The power of a number in bound.
pub power_bound : (c k co : ℕ) → 0 < c → co ≡ c * pow10 k → co < mantissa_limit → k ≤ 28
power_bound c k co p v fits =
    let more : pow10 k ≤ co = grind (arith, v, pow10-pos k) in
    let below : co < pow10 29 = unfold pow10 in omega (arith, fits) in
    omega (arith, pow10-lt k 29 (omega (arith, more, below)))

power_zero : (c k co : ℕ) → co ≡ c * pow10 k → k ≡ 0 → co ≡ c
power_zero c k co v z =
    v
    ∙ (ap (λ (t : ℕ). c * pow10 t) z ∙ omega (arith, pow10-zero, ap (λ (t : ℕ). c * t) pow10-zero))

align-power :
    (c k co s : ℕ) (e : ℤ)
    → 0 < c
    → co ≡ c * pow10 k
    → (0 < s → co % 10 ≢ 0)
    → co < mantissa_limit
    → pos_part e + s ≡ neg_part e + k
    → align c e ≡ ok (co, s)
unfolding align
align-power c k co zero (pos zero) p v last fits x =
    let same = power_zero c k co v (omega (arith, x)) in ap (λ t. ok (t, 0)) (sym same)
align-power c k co (suc s) (pos zero) p v last fits x =
    absurd (omega (arith, x, no_power_of_scale c k co (suc s) v last (omega arith)))
align-power c k co zero (pos (suc n)) p v last fits x =
    let power : suc n ≡ k = omega (arith, x) in
    let at : co ≡ c * pow10 (suc n) = v ∙ ap (λ (t : ℕ). c * pow10 t) (sym power) in
    ground (arith, power_bound c k co p v fits)
align-power c k co (suc s) (pos (suc n)) p v last fits x =
    absurd (omega (arith, x, no_power_of_scale c k co (suc s) v last (omega arith)))
align-power c k co s (negsuc n) p v last fits x =
    let none_left : k ≡ 0 = no_power_of_scale c k co s v last (omega (arith, x)) in
    let same = power_zero c k co v none_left in
    let scale : s ≡ suc n = omega (arith, x, none_left) in λ i. ok (sym same i, sym scale i)

bound_ok : (m : Money) → IsCanonical m → bound m.neg m.coef m.scale ≡ ok m
unfolding bound
bound_ok m h = ground (arith, h.fits, h.fine)

parts_after :
    (s k j : ℕ) (e : ℤ) → e ≡ sub_ℕ 0 s +ℤ pos k +ℤ pos j → pos_part e + s ≡ neg_part e + (j + k)
parts_after s k j e x =
    rw x (ground (arith, +ℤ_parts (sub_ℕ 0 s) (pos k), +ℤ_parts (sub_ℕ 0 s +ℤ pos k) (pos j)))

-- A coefficient and an exponent whose value is that of a canonical number are built to it.
pub build-canonical :
    (m : Money) (c k : ℕ)
    → IsCanonical m
    → 0 < c
    → m.coef ≡ c * pow10 k
    → build m.neg c (sub_ℕ 0 m.scale +ℤ pos k) ≡ ok m
build-canonical m c k h p v =
    let e = sub_ℕ 0 m.scale +ℤ pos k in
    let (j, w, x, last) = strip_zeros-Stripped c e p in
    let c' = (strip_zeros c e).0 in
    let whole : m.coef ≡ c' * pow10 (j + k) =
      v
      ∙ (ap (λ (t : ℕ). t * pow10 k) w
          ∙ (mul_assoc c' (pow10 j) (pow10 k) ∙ ap (λ (t : ℕ). c' * t) (sym (pow10-add j k)))) in
    let aligned =
      align-power c' (j + k) m.coef m.scale (strip_zeros c e).1 (omega arith) whole h.last h.fits
        (parts_after m.scale k j _ x) in
    build_step m.neg c e p ∙ (ap (λ r. r >>= λ t. bound m.neg t.0 t.1) aligned ∙ bound_ok m h)
