-- ===== src/Money/Literal/Significant.antt =====
-- The significant digits of a literal and the number they make (crates/te_core/src/money.rs,
-- `try_parse`).
use trade_engine.Base.{
  ℕ, zero, suc, ◌+◌, ◌*◌, ◌≤◌, ◌<◌, ◌≡◌, refl, sym, ap, ◌∙◌, false, ◌&&◌, ◌||◌, List, [], ◌∷◌, ◌++◌,
  length, ok, arith, ltb, ◌==◌, if◌then◌else◌,
}
use trade_engine.Base.Int.{pos, negsuc, sub_ℕ, ◌+ℤ◌, ltb_ℤ}
use trade_engine.Base.Powers.{pow10, pow10-zero, pow10-suc, pow10-pos}
use trade_engine.Money.Decimal.{Money, mantissa_limit}
use trade_engine.Money.Canonical.{IsCanonical}
use trade_engine.Money.Representable.{build-canonical, power_bound}
use trade_engine.Money.PyRules.{is_empty}
use trade_engine.Money.Literal.{
  drop_zeros, split_zeros, coef_from, from_significant, from_leading, from_digits,
}

pub coef_from-append :
    (a : ℕ) (xs ys : List ℕ) → coef_from a (xs ++ ys) ≡ coef_from (coef_from a xs) ys
unfolding coef_from
coef_from-append a [] ys = refl
coef_from-append a (x ∷ xs) ys = coef_from-append (a * 10 + x) xs ys

distributed : (a d p : ℕ) → (a * 10 + d) * p ≡ a * (10 * p) + (0 * 10 + d) * p
distributed a d p = grind arith

-- The digits before count by their power of ten.
pub coef_from_shift :
    (a : ℕ) (ds : List ℕ) → coef_from a ds ≡ a * pow10 (length ds) + coef_from 0 ds
unfolding coef_from
coef_from_shift a [] = omega (arith, pow10-zero, ap (λ (t : ℕ). a * t) pow10-zero)
coef_from_shift a (d ∷ ds) = omega (
  arith,
  coef_from_shift (a * 10 + d) ds,
  coef_from_shift (0 * 10 + d) ds,
  ap (λ (t : ℕ). a * t) (pow10-suc (length ds)),
  distributed a d (pow10 (length ds)),
)

not_zero : (n : ℕ) → (suc n == 0) ≡ false
not_zero n = ground arith

coef_from-drop_zeros : (ds : List ℕ) → coef_from 0 (drop_zeros ds) ≡ coef_from 0 ds
unfolding coef_from drop_zeros
coef_from-drop_zeros [] = refl
coef_from-drop_zeros (zero ∷ ds) = coef_from-drop_zeros ds
coef_from-drop_zeros (suc d ∷ ds) = rw (not_zero d) refl

-- Nothing, or a first digit that is not zero.
abbrev Leading : List ℕ → Type 0
Leading [] = Unit
Leading (d ∷ ds) = 0 < d

drop_zeros-Leading : (ds : List ℕ) → Leading (drop_zeros ds)
unfolding drop_zeros
drop_zeros-Leading [] = tt
drop_zeros-Leading (zero ∷ ds) = drop_zeros-Leading ds
drop_zeros-Leading (suc d ∷ ds) = rw (not_zero d) (omega arith)

scaled : (a p : ℕ) → (a * 10 + 0) * p ≡ a * (10 * p)
scaled a p = grind arith

coef_from-split_zeros :
    (a : ℕ) (ds : List ℕ)
    → coef_from a ds ≡ coef_from a (split_zeros ds).0 * pow10 (split_zeros ds).1
unfolding coef_from split_zeros
coef_from-split_zeros a [] = omega (arith, pow10-zero, ap (λ (t : ℕ). a * t) pow10-zero)
coef_from-split_zeros a (d ∷ ds) = go (split_zeros ds).0 d (coef_from-split_zeros (a * 10 + d) ds)
  where
    k : ℕ
    k = (split_zeros ds).1

    kept : List ℕ → ℕ → List ℕ × ℕ
    kept sig b = if is_empty sig && (b == 0) then ([], suc k) else (b ∷ sig, k)

    go :
        (sig : List ℕ) (b : ℕ)
        → coef_from (a * 10 + b) ds ≡ coef_from (a * 10 + b) sig * pow10 k
        → coef_from (a * 10 + b) ds ≡ coef_from a (kept sig b).0 * pow10 (kept sig b).1
    go [] zero h = h ∙ (scaled a (pow10 k) ∙ ap (λ (t : ℕ). a * t) (sym (pow10-suc k)))
    go [] (suc b) h = rw (not_zero b) h
    go (s ∷ sig) b h = h

split_zeros-first :
    (d : ℕ) (ds : List ℕ) → 0 < d → (split_zeros (d ∷ ds)).0 ≡ d ∷ (split_zeros ds).0
unfolding split_zeros
split_zeros-first d ds p = ground arith

plain : (d : ℕ) → 0 * 10 + d ≡ d
plain d = omega arith

-- As many digits as the number needs.
short : (d : ℕ) (ds : List ℕ) → 0 < d → coef_from 0 (d ∷ ds) < mantissa_limit → length (d ∷ ds) ≤ 29
unfolding coef_from
short d ds p fits =
    let v : coef_from d ds ≡ d * pow10 (length ds) + coef_from 0 ds = coef_from_shift d ds in
    let least =
      power_bound d (length ds) (d * pow10 (length ds)) p refl
        (omega (arith, v, fits, ap (λ (t : ℕ). coef_from t ds) (plain d))) in
    omega (arith, least)

checked :
    (s k n : ℕ)
    → suc n ≤ 29
    → k ≤ 28
    → s ≤ 28
    → (ltb 29 (suc n)
        || ltb_ℤ (pos 38) (sub_ℕ 0 s +ℤ pos k)
        || ltb_ℤ (sub_ℕ 0 s +ℤ pos k) (negsuc 56))
      ≡ false
unfolding ◌+ℤ◌
checked s k n a b c = ground arith

positive : (d : ℕ) (ds : List ℕ) → 0 < d → 0 < coef_from 0 (d ∷ ds)
unfolding coef_from
positive d ds p = grind (arith, coef_from_shift d ds, pow10-pos (length ds))

below_limit : (c p v : ℕ) → 0 < p → v ≡ c * p → v < mantissa_limit → c < mantissa_limit
below_limit c p v h e b = grind arith

from_significant-canonical :
    (m : Money) (d k : ℕ) (ds : List ℕ)
    → IsCanonical m
    → 0 < d
    → m.coef ≡ coef_from 0 (d ∷ ds) * pow10 k
    → from_significant m.neg (d ∷ ds) (sub_ℕ 0 m.scale +ℤ pos k) ≡ ok m
unfolding from_significant
from_significant-canonical m d k ds h p v =
    let full = positive d ds p in
    let few =
      short d ds p (below_limit (coef_from 0 (d ∷ ds)) (pow10 k) m.coef (pow10-pos k) v h.fits) in
    let small = power_bound (coef_from 0 (d ∷ ds)) k m.coef full v h.fits in
    rw (checked m.scale k (length ds) few small h.fine)
      (build-canonical m (coef_from 0 (d ∷ ds)) k h full v)

-- The digits of a canonical number's coefficient make the number.
pub from_digits-canonical :
    (m : Money) (all : List ℕ)
    → IsCanonical m
    → coef_from 0 all ≡ m.coef
    → from_digits m.neg all (sub_ℕ 0 m.scale) ≡ ok m
unfolding from_digits from_leading coef_from
from_digits-canonical m all h v =
    go (drop_zeros all) (drop_zeros-Leading all) (coef_from-drop_zeros all ∙ v)
  where
    go :
        (ds : List ℕ)
        → Leading ds
        → coef_from 0 ds ≡ m.coef
        → from_leading m.neg ds (sub_ℕ 0 m.scale) ≡ ok m
    go [] l w =
        let (scale, neg) = h.unsigned (sym w) in
        λ i. ok (record { neg = sym neg i; coef = w i; scale = sym scale i })
    go (d ∷ ds) l w =
        let k = (split_zeros (d ∷ ds)).1 in
        let first = split_zeros-first d ds l in
        let whole : m.coef ≡ coef_from 0 (d ∷ (split_zeros ds).0) * pow10 k =
          sym w
          ∙ (coef_from-split_zeros 0 (d ∷ ds)
              ∙ ap (λ (t : List ℕ). coef_from 0 t * pow10 k) first) in
        ap (λ (t : List ℕ). from_significant m.neg t (sub_ℕ 0 m.scale +ℤ pos k)) first
        ∙ from_significant-canonical m d k (split_zeros ds).0 h l whole
