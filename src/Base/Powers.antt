-- ===== src/Base/Powers.antt =====
-- Powers of ten, which scale every decimal.
use Prim.Native.Nat.{ℕ, zero, suc, ◌+◌, ◌-◌, ◌*◌, ◌^◌, ◌≤◌, ◌<◌}
use Prim.Native.Nat.add
use mathlib.Core.Path.{◌≡◌, refl, ap}
use native.Mathlib.Omega.{arith}
use native.Mathlib.Nat.{pow-suc, mul_assoc}
use native.Mathlib.Decide.{dec_lt}

-- Shut, so that proofs read `pow10 n` as one number.
unfoldable pub pow10 : ℕ → ℕ
pow10 n = 10 ^ n

pub pow10-zero : pow10 0 ≡ 1
unfolding pow10
pow10-zero = refl

pub pow10-suc : (n : ℕ) → pow10 (suc n) ≡ 10 * pow10 n
unfolding pow10
pow10-suc n = rw pow-suc (omega arith)

pub pow10-pos : (n : ℕ) → 0 < pow10 n
pow10-pos zero = omega (arith, pow10-zero)
pow10-pos (suc n) = omega (arith, pow10-pos n, pow10-suc n)

pub pow10-add : (m n : ℕ) → pow10 (m + n) ≡ pow10 m * pow10 n
pow10-add zero n = rw (add.zero, pow10-zero) (omega arith)
pow10-add (suc m) n =
    rw (add.suc m n, pow10-suc)
      (omega (
        arith,
        pow10-suc m,
        ap (λ (t : ℕ). 10 * t) (pow10-add m n),
        mul_assoc 10 (pow10 m) (pow10 n),
        ap (λ (t : ℕ). t * pow10 n) (pow10-suc m),
      ))

pub pow10_mono : (m n : ℕ) → m ≤ n → pow10 m ≤ pow10 n
pow10_mono m n h =
    let split : pow10 n ≡ pow10 m * pow10 (n - m) =
      rw (← pow10-add m (n - m)) (ap pow10 (omega arith)) in
    grind (arith, split, pow10-pos (n - m))

pub pow10-lt : (m n : ℕ) → pow10 m < pow10 n → m < n
pow10-lt m n h = elim (dec_lt m n) [
  | yes p ↦ p
  | no p ↦ absurd (omega (arith, pow10_mono n m (omega arith)))
]
