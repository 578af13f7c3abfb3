-- ===== src/Oms/Allocation.antt =====
-- Splitting a quantity over targets (`allocate`, `split` and `fractions` of
-- crates/te_core/src/oms/manager.rs). A `BigInt` is an integer; `Vec::sort` on keys with their index is
-- an insertion sort.
pub mod Floors
pub mod Conserved
pub mod Exact
pub mod Nearest
use trade_engine.Base.{
  ℕ, zero, suc, ◌+◌, ◌-◌, ◌*◌, ◌/◌, ◌%◌, ◌^◌, Bool, true, false, not, xor, ◌&&◌, ◌||◌, Option, none,
  some, List, [], ◌∷◌, ◌++◌, map, length, compare, Ordering, Result, ok, err, ◌>>=◌, ◌>>◌, err_if,
  map_err, ltb, leb, ◌==◌, if◌then◌else◌,
}
use trade_engine.Base.Int.{ℤ, pos, negsuc, pos_part, neg_part, sub_ℕ, ◌+ℤ◌, ◌-ℤ◌, ◌*ℤ◌, ltb_ℤ, eq_ℤ}
use trade_engine.Base.Powers.{pow10}
use trade_engine.Money.Decimal.{Money, zero_money}
use trade_engine.Money.Rounding.{floor}
use trade_engine.Money.Arithmetic.{parts_neg}
use trade_engine.Money.Integral.{from_i128, to_integral, is_integral, int}
use trade_engine.Money.Order.{Decimals, le, gt, cmp_ord}
use trade_engine.Ledger.Errors.{LErr, R, derr, add, sub, mul, div, neg}
use trade_engine.Ledger.Model.{Instrument, equity, option, combo, future}
use trade_engine.Oms.Replace.{is_equity, quantity_check}

-- A sign and a magnitude.
abbrev pub signed : Bool → ℕ → ℤ
signed negative n = if negative then sub_ℕ 0 n else pos n

abbrev pub is_minus : ℤ → Bool
is_minus (pos n) = false
is_minus (negsuc n) = true

abbrev pub size : ℤ → ℕ
size (pos n) = n
size (negsuc n) = suc n

-- The digits before the point, with the sign.
unfoldable pub big_integer : Money → ℤ
big_integer q = if q.coef == 0 then pos 0 else signed (parts_neg q) (q.coef / pow10 q.scale)

-- `/` and `%` of `BigInt`: the quotient is cut toward zero, the rest has the dividend's sign.
abbrev pub quot_int : ℤ → ℤ → ℤ
quot_int a b = signed (xor (is_minus a) (is_minus b)) (size a / size b)

abbrev pub rem_int : ℤ → ℤ → ℤ
rem_int a b = signed (is_minus a) (size a % size b)

-- The quotient and the rest of Python: the rest has the divisor's sign.
unfoldable pub floor_parts : ℤ → ℤ → ℤ × ℤ
floor_parts a b =
    let q = quot_int a b in
    let r = rem_int a b in if is_minus r then (q -ℤ pos 1, r +ℤ b) else (q, r)

unfoldable pub sum_int : List ℤ → ℤ
sum_int [] = pos 0
sum_int (x ∷ xs) = x +ℤ sum_int xs

-- The floors of the exact shares and what each is short of.
unfoldable pub floors : ℤ → List ℤ → ℤ → List (ℤ × ℤ)
unfolding floor_parts
floors shares [] total = []
floors shares (w ∷ ws) total = floor_parts (shares *ℤ w) total ∷ floors shares ws total

-- `sort()` on `(-remainder, index)`: a greater rest first, then the smaller index.
abbrev pub key_before : ℤ × ℕ → ℤ × ℕ → Bool
key_before (x, i) (y, j) = ltb_ℤ x y || (eq_ℤ x y && leb i j)

unfoldable pub place_key : ℤ × ℕ → List (ℤ × ℕ) → List (ℤ × ℕ)
place_key k [] = k ∷ []
place_key k (j ∷ js) = if key_before k j then k ∷ j ∷ js else j ∷ place_key k js

unfoldable pub sort_keys : List (ℤ × ℕ) → List (ℤ × ℕ)
unfolding place_key
sort_keys [] = []
sort_keys (k ∷ ks) = place_key k (sort_keys ks)

unfoldable pub keyed_from : ℕ → List (ℤ × ℤ) → List (ℤ × ℕ)
keyed_from i [] = []
keyed_from i ((a, r) ∷ rest) = (pos 0 -ℤ r, i) ∷ keyed_from (suc i) rest

-- `if let Some(v) = a.get_mut(i) { *v += 1; }`
unfoldable pub raise : ℕ → List ℤ → List ℤ
raise i [] = []
raise zero (x ∷ xs) = (x +ℤ pos 1) ∷ xs
raise (suc i) (x ∷ xs) = x ∷ raise i xs

-- The first `n` keys each raise their share.
unfoldable pub raise_first : ℕ → List (ℤ × ℕ) → List ℤ → List ℤ
unfolding raise
raise_first zero keys shares = shares
raise_first (suc n) [] shares = shares
raise_first (suc n) ((r, i) ∷ keys) shares = raise_first n keys (raise i shares)

-- `BigInt::to_usize` on a 64-bit machine.
unfoldable pub to_usize : ℤ → Option ℕ
to_usize (pos n) = if ltb n (2 ^ 64) then some n else none
to_usize (negsuc n) = none

abbrev pub of_remaining : Option ℕ → List (ℤ × ℤ) → R (List ℤ)
of_remaining none parts = err LErr.overflow
of_remaining (some n) parts =
    ok (raise_first n (sort_keys (keyed_from 0 parts)) (map (λ (p : ℤ × ℤ). p.0) parts))

-- The whole shares by the largest remainder.
unfoldable pub largest_remainder : ℤ → List ℤ → R (List ℤ)
unfolding sum_int floors keyed_from sort_keys raise_first to_usize
largest_remainder shares weights =
    let parts = floors shares weights (sum_int weights) in
    of_remaining (to_usize (shares -ℤ sum_int (map (λ (p : ℤ × ℤ). p.0) parts))) parts

-- `to_i128`, then `Money::from_i128`.
unfoldable pub as_money : ℤ → R Money
as_money n =
    if ltb (pos_part n) (2 ^ 127) && leb (neg_part n) (2 ^ 127)
    then map_err derr (from_i128 n)
    else err LErr.overflow

unfoldable pub all_as_money : List ℤ → R (List Money)
unfolding as_money
all_as_money [] = ok []
all_as_money (n ∷ ns) = do m ← as_money n; ms ← all_as_money ns; ok (m ∷ ms)

unfoldable pub sum_money_from : Money → List Money → R Money
sum_money_from total [] = ok total
sum_money_from total (x ∷ xs) = do t ← add total x; sum_money_from t xs

-- `sum`
unfoldable pub sum_money : List Money → R Money
unfolding sum_money_from
sum_money xs = sum_money_from zero_money xs

unfoldable pub portions_of : Money → List Money → Money → R (List Money)
portions_of q [] total = ok []
portions_of q (w ∷ ws) total = do
  product ← mul q w
  portion ← div product total
  rest ← portions_of q ws total
  ok (portion ∷ rest)

-- All but the last.
abbrev pub but_last {ℓ} : {A : Type ℓ} → List A → List A
but_last [] = []
but_last (x ∷ []) = []
but_last (x ∷ y ∷ ys) = x ∷ but_last (y ∷ ys)

-- The last portion takes what the others leave.
unfoldable pub settle_last : Money → List Money → R (List Money)
unfolding sum_money
settle_last q [] = ok []
settle_last q (x ∷ xs) = do
  others ← sum_money (but_last (x ∷ xs))
  last ← sub q others
  ok (but_last (x ∷ xs) ++ last ∷ [])

unfoldable pub is_future : Instrument → Bool
is_future (future f) = true
is_future i = false

unfoldable pub repeat : ℕ → Money → List Money
repeat zero m = []
repeat (suc n) m = m ∷ repeat n m

module _ ⦃d : Decimals⦄ where
  unfoldable pub check_weights : List Money → R (Unit {0})
  check_weights [] = ok tt
  check_weights (w ∷ ws) = do err_if (le w zero_money) LErr.value; check_weights ws

  unfoldable pub check_whole : List Money → R (Unit {0})
  check_whole [] = ok tt
  check_whole (w ∷ ws) = do err_if (not (is_integral w)) LErr.value; check_whole ws

  unfoldable pub allocate_some : Money → List Money → Bool → R (List Money)
  unfolding check_weights check_whole largest_remainder all_as_money big_integer quantity_check
      portions_of settle_last sum_money
  allocate_some q ws true = do
    check_weights ws
    total ← sum_money ws
    quantity_check true q
    check_whole ws
    shares ← largest_remainder (big_integer q) (map big_integer ws)
    all_as_money shares
  allocate_some q ws false = do
    check_weights ws
    total ← sum_money ws
    portions ← portions_of q ws total
    settle_last q portions

  unfoldable pub allocate : Money → List Money → Bool → R (List Money)
  unfolding allocate_some
  allocate q [] whole = ok []
  allocate q (w ∷ ws) whole = allocate_some q (w ∷ ws) whole

  unfoldable pub validate_quantity : Instrument → Money → R (Unit {0})
  unfolding quantity_check is_equity is_future
  validate_quantity i q = do err_if (is_future i) LErr.unsupported; quantity_check (is_equity i) q

  unfoldable pub allocate_quantity : Money → List Money → Instrument → R (List Money)
  unfolding allocate is_equity is_future
  allocate_quantity q ws i = do err_if (is_future i) LErr.unsupported; allocate q ws (is_equity i)

  -- No portion is zero or less.
  unfoldable pub check_portions : List Money → R (Unit {0})
  check_portions [] = ok tt
  check_portions (p ∷ ps) = do err_if (le p zero_money) LErr.value; check_portions ps

  unfoldable pub split : Money → List Money → Bool → R (List Money)
  unfolding quantity_check allocate check_portions
  split q [] whole = ok []
  split q (w ∷ ws) whole = do
    quantity_check whole q
    portions ← allocate q (w ∷ ws) whole
    check_portions portions
    ok portions

  unfoldable pub split_quantity : Money → ℕ → Instrument → R (List Money)
  unfolding split is_equity is_future repeat
  split_quantity q count i = do
    err_if (is_future i) LErr.unsupported
    split q (repeat count (int (pos 1))) (is_equity i)
