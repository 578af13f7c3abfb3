-- ===== src/Money/Rounding/Laws.antt =====
-- The two rounding routines of crates/te_core/src/money.rs agree, and how far they move a value.
use trade_engine.Base.{
  ℕ, ◌+◌, ◌-◌, ◌*◌, ◌/◌, ◌%◌, ◌^◌, ◌≤◌, ◌<◌, ◌≡◌, refl, sym, Bool, true, false, arith, ltb,
  if◌then◌else◌,
}
use trade_engine.Base.Powers.{pow10, pow10-pos, pow10_mono}
use native.Mathlib.Decide.{dec_lt}
use native.Mathlib.Nat.{div-eq_of_lt, div-add-mod'}
use trade_engine.Money.Rounding.{
  Round, half_even, floor, u128_limit, from_bool, half_up, rounds_up_u128, beyond_u128,
  shift_round_u128, rounds_up_big, shift_round_big,
}

pow10_38 : pow10 38 ≡ 10 ^ 38
unfolding pow10
pow10_38 = refl

pow10_39 : pow10 39 ≡ 10 ^ 39
unfolding pow10
pow10_39 = refl

-- Up to 38 digits twice the remainder fits in `u128`, so the tests agree.
rounds_up-agree :
    (mode : Round) (neg : Bool) (q r div : ℕ)
    → r < div
    → div ≤ 10 ^ 38
    → rounds_up_u128 mode neg q r div ≡ rounds_up_big mode neg q r div
unfolding rounds_up_u128 rounds_up_big half_up
rounds_up-agree half_even neg q r div h k = ground arith
rounds_up-agree floor neg q r div h k = refl

-- Past 38 digits a `u128` lies below half the divisor.
rounds_up-beyond :
    (mode : Round) (neg : Bool) (c div : ℕ)
    → 2 * c < div
    → (if rounds_up_big mode neg 0 c div then 1 else 0) ≡ beyond_u128 mode neg c
unfolding rounds_up_big beyond_u128
rounds_up-beyond half_even neg c div h = ground arith
rounds_up-beyond floor neg c div h = ground arith

remainder : (c div : ℕ) → 0 < div → c - c / div * div ≡ c % div
remainder c div h = omega arith

add-from_bool : (b : Bool) (q : ℕ) → q + from_bool b ≡ (if b then q + 1 else q)
add-from_bool true q = refl
add-from_bool false q = omega arith

shift_round-near :
    (c drop : ℕ) (neg : Bool) (mode : Round)
    → drop ≤ 38
    → shift_round_u128 c drop neg mode ≡ shift_round_big c drop neg mode
unfolding shift_round_u128 shift_round_big
shift_round-near c drop neg mode h =
    let div = pow10 drop in
    let near : ltb 38 drop ≡ false = ground arith in
    let bound : div ≤ 10 ^ 38 = omega (arith, pow10_mono drop 38 h, pow10_38) in
    let below : c % div < div = omega (arith, pow10-pos drop) in
    rw
      (
        near,
        remainder c div (pow10-pos drop),
        rounds_up-agree mode neg (c / div) (c % div) div below bound,
      )
      (add-from_bool (rounds_up_big mode neg (c / div) (c % div) div) (c / div))

shift_round-far :
    (c drop : ℕ) (neg : Bool) (mode : Round)
    → c < u128_limit
    → 38 < drop
    → shift_round_u128 c drop neg mode ≡ shift_round_big c drop neg mode
unfolding shift_round_u128 shift_round_big
shift_round-far c drop neg mode h k =
    let div = pow10 drop in
    let far : ltb 38 drop ≡ true = ground arith in
    let big : 10 ^ 39 ≤ div = omega (arith, pow10_mono 39 drop k, pow10_39) in
    let none_left : c / div ≡ 0 = div-eq_of_lt (omega arith) in
    let all_left : c - 0 * div ≡ c = omega arith in
    rw (far, none_left, all_left)
      (sym (
        rw (← rounds_up-beyond mode neg c div (omega arith))
          (if-same (rounds_up_big mode neg 0 c div))))
  where
    if-same : (b : Bool) → (if b then 0 + 1 else 0) ≡ (if b then 1 else 0)
    if-same true = refl
    if-same false = refl

-- On every coefficient below 2^128, for any number of digits to drop, sign and mode, the rounding
-- on machine words returns what the rounding on unbounded integers does.
pub shift_round-agree :
    (c drop : ℕ) (neg : Bool) (mode : Round)
    → c < u128_limit
    → shift_round_u128 c drop neg mode ≡ shift_round_big c drop neg mode
shift_round-agree c drop neg mode h = elim (dec_lt 38 drop) [
  | yes far ↦ shift_round-far c drop neg mode h far
  | no near ↦ shift_round-near c drop neg mode (omega arith)
]

-- Half-even: within half a unit of the last digit kept, and even where two are as near.
pub record IsNearest (c div r : ℕ) : Type 0 where
  pub not_above : 2 * (r * div) ≤ 2 * c + div
  pub not_below : 2 * c ≤ 2 * (r * div) + div
  pub tie_above : 2 * (r * div) ≡ 2 * c + div → r % 2 ≡ 0
  pub tie_below : 2 * c ≡ 2 * (r * div) + div → r % 2 ≡ 0

IsNearest-of_parts :
    (c div q m : ℕ) (b : Bool)
    → c ≡ q * div + m
    → m < div
    → b ≡ rounds_up_big half_even false q m div
    → IsNearest c div (if b then q + 1 else q)
unfolding rounds_up_big
IsNearest-of_parts c div q m true e h t =
    let next : (q + 1) * div ≡ q * div + div = grind arith in ground arith
IsNearest-of_parts c div q m false e h t = ground arith

-- Half-even rounding of any number to a multiple of `10^drop` goes to a multiple within half of
-- `10^drop`, and where two are as near, to the even one.
pub shift_round-IsNearest :
    (c drop : ℕ) (neg : Bool) → IsNearest c (pow10 drop) (shift_round_big c drop neg half_even)
unfolding shift_round_big
shift_round-IsNearest c drop neg =
    let div = pow10 drop in
    let below : c % div < div = omega (arith, pow10-pos drop) in
    rw (remainder c div (pow10-pos drop))
      (IsNearest-of_parts c div (c / div) (c % div) _ (sym (div-add-mod' c div)) below refl)

-- Floor: a negative value goes to the greater magnitude.
abbrev pub IsFloor : Bool → ℕ → ℕ → ℕ → Type 0
IsFloor false c div r = (r * div ≤ c) × (c < r * div + div)
IsFloor true c div r = (c ≤ r * div) × (r * div < c + div)

floor_of_parts :
    (neg b : Bool) (c div q m : ℕ)
    → c ≡ q * div + m
    → m < div
    → b ≡ rounds_up_big floor neg q m div
    → IsFloor neg c div (if b then q + 1 else q)
unfolding rounds_up_big
floor_of_parts false true c div q m e h t = cc
floor_of_parts false false c div q m e h t = (omega arith, omega arith)
floor_of_parts true true c div q m e h t =
    let next : (q + 1) * div ≡ q * div + div = grind arith in ground arith
floor_of_parts true false c div q m e h t = ground arith

-- Rounding down to a multiple of `10^drop` goes to the greatest multiple that is not above the
-- signed value: the magnitude is cut for a positive number and rounded up for a negative one.
pub shift_round-IsFloor :
    (c drop : ℕ) (neg : Bool) → IsFloor neg c (pow10 drop) (shift_round_big c drop neg floor)
unfolding shift_round_big
shift_round-IsFloor c drop neg =
    let div = pow10 drop in
    let below : c % div < div = omega (arith, pow10-pos drop) in
    rw (remainder c div (pow10-pos drop))
      (floor_of_parts neg _ c div (c / div) (c % div) (sym (div-add-mod' c div)) below refl)

pub shift_round-near_quotient :
    (c drop : ℕ) (neg : Bool)
    → (c / pow10 drop ≤ shift_round_big c drop neg half_even)
      × (shift_round_big c drop neg half_even ≤ c / pow10 drop + 1)
unfolding shift_round_big
shift_round-near_quotient c drop neg =
    one_of
      (rounds_up_big half_even neg (c / pow10 drop) (c - c / pow10 drop * pow10 drop) (pow10 drop))
  where
    one_of :
        (b : Bool) {q : ℕ} → (q ≤ (if b then q + 1 else q)) × ((if b then q + 1 else q) ≤ q + 1)
    one_of true = (omega arith, omega arith)
    one_of false = (omega arith, omega arith)
