-- ===== src/Money/Rounding.antt =====
-- `c / 10^drop` rounded half-even or down (crates/te_core/src/money.rs): the routine on `u128`
-- and the one on unbounded integers.
pub mod Laws
use trade_engine.Base.{
  ℕ, zero, suc, ◌+◌, ◌-◌, ◌*◌, ◌/◌, ◌%◌, ◌^◌, ◌≤◌, ◌<◌, ◌≡◌, ◌≢◌, refl, inl, inr, Bool, true, false,
  not, ◌&&◌, Option, none, some, Ordering, compare, arith, ltb, leb, ◌==◌, if◌then◌else◌,
  Bool-cases, ltb→lt,
}
use trade_engine.Base.Powers.{pow10, pow10-pos, pow10_mono}

pub data Round : Type 0 where
  half_even floor : Round

abbrev pub u128_limit : ℕ
u128_limit = 2 ^ 128

-- `u128::checked_mul`
abbrev pub checked_mul : ℕ → ℕ → Option ℕ
checked_mul a b = if ltb (a * b) u128_limit then some (a * b) else none

-- `u128::from(bool)`
abbrev pub from_bool : Bool → ℕ
from_bool true = 1
from_bool false = 0

-- The half-even test on `2 * r` against the divisor; a product past `u128` counts as above it.
half_up : Option ℕ → ℕ → ℕ → Bool
half_up none div q = true
half_up (some t) div q = elim (compare t div) [
  | Ordering.gt ↦ true
  | Ordering.eq ↦ q % 2 == 1
  | Ordering.lt ↦ false
]

rounds_up_u128 : Round → Bool → ℕ → ℕ → ℕ → Bool
unfolding half_up
rounds_up_u128 half_even neg q r div = half_up (checked_mul r 2) div q
rounds_up_u128 floor neg q r div = neg && not (r == 0)

-- What is left when every digit is dropped.
beyond_u128 : Round → Bool → ℕ → ℕ
beyond_u128 half_even neg c = 0
beyond_u128 floor neg c = from_bool (neg && not (c == 0))

unfoldable pub shift_round_u128 : ℕ → ℕ → Bool → Round → ℕ
unfolding rounds_up_u128 beyond_u128
shift_round_u128 c drop neg mode =
    let div = pow10 drop in
    let q = c / div in
    let r = c % div in
    if ltb 38 drop then beyond_u128 mode neg c else q + from_bool (rounds_up_u128 mode neg q r div)

unfoldable pub rounds_up_big : Round → Bool → ℕ → ℕ → ℕ → Bool
rounds_up_big half_even neg q r div = elim (compare (r * 2) div) [
  | Ordering.gt ↦ true
  | Ordering.eq ↦ q % 2 == 1
  | Ordering.lt ↦ false
]
rounds_up_big floor neg q r div = neg && not (r == 0)

unfoldable pub shift_round_big : ℕ → ℕ → Bool → Round → ℕ
unfolding rounds_up_big
shift_round_big c drop neg mode =
    let div = pow10 drop in
    let q = c / div in let r = c - q * div in if rounds_up_big mode neg q r div then q + 1 else q
