-- ===== src/Money/PyRules.antt =====
-- The text rules of CPython that literals are read by (crates/te_core/src/options/pyrules.rs): white
-- space and Unicode decimal digits.
use Prim.Native.Char.{Char, code}
use trade_engine.Base.{
  ℕ, zero, suc, ◌-◌, Bool, true, false, ◌&&◌, ◌||◌, Option, none, some, List, [], ◌∷◌, get_elem?,
  ltb, leb, ◌==◌, if◌then◌else◌,
}

-- `lo..=hi`
abbrev within : ℕ → ℕ → ℕ → Bool
within lo hi n = leb lo n && leb n hi

unfoldable pub is_space : Char → Bool
is_space c =
    let n = code c in
    within 9 13 n
    || within 28 31 n
    || n == 32
    || n == 133
    || n == 160
    || n == 5760
    || within 8192 8202 n
    || n == 8232
    || n == 8233
    || n == 8239
    || n == 8287
    || n == 12288

-- `trim_matches(is_space)`
unfoldable pub trim_start : List Char → List Char
unfolding is_space
trim_start [] = []
trim_start (c ∷ cs) = let rest = trim_start cs in if is_space c then rest else c ∷ cs

abbrev pub is_empty : {A : Type 0} → List A → Bool
is_empty [] = true
is_empty (x ∷ xs) = false

unfoldable pub trim_end : List Char → List Char
unfolding is_space
trim_end [] = []
trim_end (c ∷ cs) = let rest = trim_end cs in if is_space c && is_empty rest then [] else c ∷ rest

unfoldable pub strip : List Char → List Char
unfolding trim_start trim_end
strip cs = trim_end (trim_start cs)

-- `ND_STARTS`
abbrev nd_starts : List ℕ
nd_starts =
    48 ∷ 1632 ∷ 1776 ∷ 1984 ∷ 2406 ∷ 2534 ∷ 2662 ∷ 2790 ∷ 2918 ∷ 3046 ∷ 3174 ∷ 3302 ∷ 3430 ∷ 3558
    ∷ 3664 ∷ 3792 ∷ 3872 ∷ 4160 ∷ 4240 ∷ 6112 ∷ 6160 ∷ 6470 ∷ 6608 ∷ 6784 ∷ 6800 ∷ 6992 ∷ 7088
    ∷ 7232 ∷ 7248 ∷ 42528 ∷ 43216 ∷ 43264 ∷ 43472 ∷ 43504 ∷ 43600 ∷ 44016 ∷ 65296 ∷ 66720 ∷ 68912
    ∷ 69734 ∷ 69872 ∷ 69942 ∷ 70096 ∷ 70384 ∷ 70736 ∷ 70864 ∷ 71248 ∷ 71360 ∷ 71472 ∷ 71904 ∷ 72016
    ∷ 72784 ∷ 73040 ∷ 73120 ∷ 73552 ∷ 92768 ∷ 92864 ∷ 93008 ∷ 120782 ∷ 120792 ∷ 120802 ∷ 120812
    ∷ 120822 ∷ 123200 ∷ 123632 ∷ 124144 ∷ 125264 ∷ 130032 ∷ []

-- `partition_point`: where the first element is that the test fails on.
partition_point : (ℕ → Bool) → List ℕ → ℕ
partition_point p [] = 0
partition_point p (x ∷ xs) = let rest = partition_point p xs in if p x then suc rest else 0

offset : ℕ → Option ℕ → Option ℕ
offset cp none = none
offset cp (some start) = if ltb (cp - start) 10 then some (cp - start) else none

start_before : ℕ → Option ℕ
start_before zero = none
start_before (suc i) = get_elem? nd_starts i

unfoldable pub digit : Char → Option ℕ
unfolding partition_point offset start_before
digit c = offset (code c) (start_before (partition_point (λ s. leb s (code c)) nd_starts))
