-- ===== src/Oms/Allocation/Conserved.antt =====
-- The whole shares add up to the quantity (`allocate` of crates/te_core/src/oms/manager.rs).
use native.Mathlib.Nat.{mul-add, add-mul, mul-le-mul_right}
use trade_engine.Base.{
  ℕ, zero, suc, ◌+◌, ◌*◌, ◌^◌, ◌≤◌, ◌<◌, ◌≡◌, refl, sym, ap, subst, ◌∙◌, List, [], ◌∷◌, map, arith,
  length, true, false, Bool, some, if◌then◌else◌, lt→ltb, All, ok,
}
use trade_engine.Base.Int.{
  ℤ, pos, negsuc, pos_part, neg_part, ◌+ℤ◌, ◌-ℤ◌, ◌*ℤ◌, +ℤ_parts, -ℤ_parts, eq_of_parts, +ℤ_assoc,
  +ℤ_comm, +ℤ-zero,
}
use native.Mathlib.Decide.{dec_le}
use trade_engine.Oms.Allocation.{
  key_before, place_key, sort_keys, keyed_from, raise, raise_first, sum_int, floors, floor_parts,
  to_usize, largest_remainder,
}
use trade_engine.Oms.Allocation.Floors.{floor_parts-IsFloor}

-- A positive weight.
abbrev pub IsPositive : ℤ → Type 0
IsPositive w = (v : ℕ) × (0 < v) × (w ≡ pos v)

times_pos :
    (s : ℤ) (v : ℕ)
    → (pos_part (s *ℤ pos v) ≡ pos_part s * v) × (neg_part (s *ℤ pos v) ≡ neg_part s * v)
unfolding ◌*ℤ◌
times_pos (pos n) v = (ground arith, ground arith)
times_pos (negsuc n) v = (ground arith, ground arith)

pos-+ℤ : (m n : ℕ) → pos m +ℤ pos n ≡ pos (m + n)
unfolding ◌+ℤ◌
pos-+ℤ m n = ground arith

abbrev pub wholes : List (ℤ × ℤ) → List ℤ
wholes parts = map (λ (p : ℤ × ℤ). p.0) parts

-- What the floors add up to, and what they are short of in all.
record Sums (s : ℤ) (ws : List ℤ) (D : ℕ) : Type 0 where
  weight : ℕ
  weighed : sum_int ws ≡ pos weight
  rest : ℕ
  small : rest + length ws ≤ length ws * D
  exact :
      pos_part (sum_int (wholes (floors s ws (pos D)))) * D + rest + neg_part s * weight
      ≡ neg_part (sum_int (wholes (floors s ws (pos D)))) * D + pos_part s * weight

-- Adding one share's equation to those of the others.
join :
    (a A : ℤ) (D r R p n P N : ℕ)
    → pos_part a * D + r + n ≡ neg_part a * D + p
    → pos_part A * D + R + N ≡ neg_part A * D + P
    → pos_part (a +ℤ A) * D + (r + R) + (n + N) ≡ neg_part (a +ℤ A) * D + (p + P)
join a A D r R p n P N h k =
    let e = ap (λ (t : ℕ). t * D) (+ℤ_parts a A) in
    omega (
      arith,
      h,
      k,
      sym (add-mul (pos_part (a +ℤ A) + neg_part a) (neg_part A) D) ∙ e,
      add-mul (pos_part (a +ℤ A)) (neg_part a) D,
      add-mul (neg_part (a +ℤ A) + pos_part a) (pos_part A) D,
      add-mul (neg_part (a +ℤ A)) (pos_part a) D,
    )

floors-Sums : (s : ℤ) (ws : List ℤ) (D : ℕ) → 0 < D → All IsPositive ws → Sums s ws D
unfolding floors sum_int
floors-Sums s [] D h ps = record {
  weight = 0;
  weighed = refl;
  rest = 0;
  small = omega arith;
  exact = omega arith;
}
floors-Sums s (w ∷ ws) D h ((v, positive, is_v), ps) =
    let others = floors-Sums s ws D h ps in
    let first = floor_parts-IsFloor (s *ℤ w) D h in
    let (p, n) = times_pos s v in
    let scaled_pos : pos_part (s *ℤ w) ≡ pos_part s * v = rw is_v p in
    let scaled_neg : neg_part (s *ℤ w) ≡ neg_part s * v = rw is_v n in
    let joined =
      join (floor_parts (s *ℤ w) (pos D)).0 (sum_int (wholes (floors s ws (pos D)))) D first.rest
        others.rest (pos_part (s *ℤ w)) (neg_part (s *ℤ w)) (pos_part s * others.weight)
        (neg_part s * others.weight) first.exact others.exact in
    record {
      weight = v + others.weight;
      weighed = rw (is_v, others.weighed) (pos-+ℤ v others.weight);
      rest = first.rest + others.rest;
      small = omega (arith, first.below, others.small);
      exact =
          rw (mul-add (neg_part s) v others.weight, mul-add (pos_part s) v others.weight)
            (omega (arith, joined, scaled_pos, scaled_neg));
    }

-- What the floors leave is a number of shares, at most one for each weight.
leaves :
    (s A : ℤ) (D R n : ℕ)
    → 0 < D
    → R + n ≤ n * D
    → pos_part A * D + R + neg_part s * D ≡ neg_part A * D + pos_part s * D
    → (k : ℕ) × (s -ℤ A ≡ pos k) × (k ≤ n)
leaves s A D R n h small e = go (s -ℤ A) refl
  where
    count : (t : ℤ) → pos_part t * D ≡ neg_part t * D + R → (k : ℕ) × (t ≡ pos k) × (k ≤ n)
    count (pos k) scaled = (k, refl, bounded (dec_le k n))
      where
        bounded : Dec (k ≤ n) → k ≤ n
        bounded (yes p) = p
        bounded (no p) = absurd (
            omega (
              arith,
              scaled,
              small,
              h,
              add-mul n 1 D,
              mul-le-mul_right {m = n + 1} {n = k} D (omega arith),
            ))
    count (negsuc m) scaled = absurd (omega (arith, scaled, h, add-mul m 1 D))

    go : (t : ℤ) → s -ℤ A ≡ t → (k : ℕ) × (t ≡ pos k) × (k ≤ n)
    go t same =
        let parts = -ℤ_parts s A in
        let here : pos_part t + neg_part s + pos_part A ≡ neg_part t + pos_part s + neg_part A =
          subst
            (λ (u : ℤ). pos_part u + neg_part s + pos_part A ≡ neg_part u + pos_part s + neg_part A)
            same parts in
        let scaled : pos_part t * D ≡ neg_part t * D + R = omega (
          arith,
          e,
          sym (add-mul (pos_part t + neg_part s) (pos_part A) D) ∙ ap (λ (u : ℕ). u * D) here,
          add-mul (pos_part t) (neg_part s) D,
          add-mul (neg_part t + pos_part s) (neg_part A) D,
          add-mul (neg_part t) (pos_part s) D,
        ) in
        count t scaled

-- Raising a share that is there.
length-raise : (i : ℕ) (xs : List ℤ) → length (raise i xs) ≡ length xs
unfolding raise
length-raise i [] = refl
length-raise zero (x ∷ xs) = refl
length-raise (suc i) (x ∷ xs) = ap suc (length-raise i xs)

sum_int-raise : (i : ℕ) (xs : List ℤ) → i < length xs → sum_int (raise i xs) ≡ sum_int xs +ℤ pos 1
unfolding raise sum_int
sum_int-raise i [] h = absurd (omega arith)
sum_int-raise zero (x ∷ xs) h =
    +ℤ_assoc x (pos 1) (sum_int xs)
    ∙ (ap (λ y. x +ℤ y) (+ℤ_comm (pos 1) (sum_int xs)) ∙ sym (+ℤ_assoc x (sum_int xs) (pos 1)))
sum_int-raise (suc i) (x ∷ xs) h =
    ap (λ y. x +ℤ y) (sum_int-raise i xs (omega arith)) ∙ sym (+ℤ_assoc x (sum_int xs) (pos 1))

-- Every key names a share that is there.
abbrev Within : ℕ → List (ℤ × ℕ) → Type 0
Within n keys = All (λ (k : ℤ × ℕ). k.1 < n) keys

sum_int-raise_first :
    (n : ℕ) (keys : List (ℤ × ℕ)) (xs : List ℤ)
    → n ≤ length keys
    → Within (length xs) keys
    → sum_int (raise_first n keys xs) ≡ sum_int xs +ℤ pos n
unfolding raise_first
sum_int-raise_first zero keys xs h w = sym (+ℤ-zero (sum_int xs))
sum_int-raise_first (suc n) [] xs h w = absurd (omega arith)
sum_int-raise_first (suc n) ((r, i) ∷ keys) xs h w =
    let ih =
      sum_int-raise_first n keys (raise i xs) (omega arith)
        (subst (λ m. Within m keys) (sym (length-raise i xs)) w.1) in
    ih
    ∙ (ap (λ y. y +ℤ pos n) (sum_int-raise i xs w.0)
        ∙ (+ℤ_assoc (sum_int xs) (pos 1) (pos n)
            ∙ ap (λ y. sum_int xs +ℤ y) (pos-+ℤ 1 n ∙ ap pos (omega arith))))

length-place_key : (k : ℤ × ℕ) (ks : List (ℤ × ℕ)) → length (place_key k ks) ≡ suc (length ks)
unfolding place_key
length-place_key k [] = refl
length-place_key k (j ∷ js) = ground (arith, length-place_key k js)

length-sort_keys : (ks : List (ℤ × ℕ)) → length (sort_keys ks) ≡ length ks
unfolding sort_keys
length-sort_keys [] = refl
length-sort_keys (k ∷ ks) = length-place_key k (sort_keys ks) ∙ ap suc (length-sort_keys ks)

place_key-Within :
    (n : ℕ) (k : ℤ × ℕ) (ks : List (ℤ × ℕ)) → k.1 < n → Within n ks → Within n (place_key k ks)
unfolding place_key
place_key-Within n k [] h w = (h, tt)
place_key-Within n k (j ∷ js) h w = go (key_before k j) (place_key-Within n k js h w.1)
  where
    go :
        (b : Bool)
        → Within n (place_key k js)
        → Within n (if b then k ∷ j ∷ js else j ∷ place_key k js)
    go true t = (h, w)
    go false t = (w.0, t)

sort_keys-Within : (n : ℕ) (ks : List (ℤ × ℕ)) → Within n ks → Within n (sort_keys ks)
unfolding sort_keys
sort_keys-Within n [] w = w
sort_keys-Within n (k ∷ ks) w = place_key-Within n k (sort_keys ks) w.0 (sort_keys-Within n ks w.1)

keyed_from-Within :
    (i n : ℕ) (parts : List (ℤ × ℤ)) → i + length parts ≤ n → Within n (keyed_from i parts)
unfolding keyed_from
keyed_from-Within i n [] h = tt
keyed_from-Within i n (p ∷ parts) h = (omega arith, keyed_from-Within (suc i) n parts (omega arith))

length-keyed_from : (i : ℕ) (parts : List (ℤ × ℤ)) → length (keyed_from i parts) ≡ length parts
unfolding keyed_from
length-keyed_from i [] = refl
length-keyed_from i (p ∷ parts) = ap suc (length-keyed_from (suc i) parts)

length-wholes : (parts : List (ℤ × ℤ)) → length (wholes parts) ≡ length parts
length-wholes [] = refl
length-wholes (p ∷ parts) = ap suc (length-wholes parts)

length-floors : (s : ℤ) (ws : List ℤ) (D : ℤ) → length (floors s ws D) ≡ length ws
unfolding floors
length-floors s [] D = refl
length-floors s (w ∷ ws) D = ap suc (length-floors s ws D)

pub weigh : (ws : List ℤ) → All IsPositive ws → (W : ℕ) × (length ws ≤ W) × (sum_int ws ≡ pos W)
unfolding sum_int
weigh [] ps = (0, omega arith, refl)
weigh (w ∷ ws) ((v, positive, is_v), ps) =
    let (W, large, total) = weigh ws ps in (v + W, omega arith, rw (is_v, total) (pos-+ℤ v W))

pos_inj : (m n : ℕ) → ◌≡◌ {A = ℤ} (pos m) (pos n) → m ≡ n
pos_inj m n h = ap pos_part h

to_usize_small : (k : ℕ) → k < 2 ^ 64 → to_usize (pos k) ≡ some k
unfolding to_usize
to_usize_small k h = rw (lt→ltb k (2 ^ 64) h) refl

back_to : (s A : ℤ) (k : ℕ) → s -ℤ A ≡ pos k → A +ℤ pos k ≡ s
back_to s A k h = eq_of_parts (A +ℤ pos k) s (
    omega (
      arith,
      +ℤ_parts A (pos k),
      subst (λ (t : ℤ). pos_part t + neg_part s + pos_part A ≡ neg_part t + pos_part s + neg_part A)
          h (-ℤ_parts s A),
    ))

-- For any number of shares, also a negative one, and positive weights, at least one and fewer
-- than 2^64, the largest remainder is never refused and gives shares that add up exactly to the
-- number.
pub largest_remainder_lem :
    (s : ℤ) (ws : List ℤ)
    → All IsPositive ws
    → 0 < length ws
    → length ws < 2 ^ 64
    → (xs : List ℤ) × (largest_remainder s ws ≡ ok xs) × (sum_int xs ≡ s)
unfolding largest_remainder
largest_remainder_lem s ws ps some_weight few =
    let (W, large, total) = weigh ws ps in
    let sums = floors-Sums s ws W (omega arith) ps in
    let parts = floors s ws (pos W) in
    let same : sums.weight ≡ W = pos_inj sums.weight W (sym sums.weighed ∙ total) in
    let exact =
      subst
        (λ (v : ℕ).
          pos_part (sum_int (wholes parts)) * W + sums.rest + neg_part s * v
          ≡ neg_part (sum_int (wholes parts)) * W + pos_part s * v)
        same sums.exact in
    let (k, left, bounded) =
      leaves s (sum_int (wholes parts)) W sums.rest (length ws) (omega arith) sums.small exact in
    let shares = raise_first k (sort_keys (keyed_from 0 parts)) (wholes parts) in
    let counted : length parts ≡ length ws = length-floors s ws (pos W) in
    let keys : length (sort_keys (keyed_from 0 parts)) ≡ length ws =
      length-sort_keys (keyed_from 0 parts) ∙ (length-keyed_from 0 parts ∙ counted) in
    let within : Within (length (wholes parts)) (sort_keys (keyed_from 0 parts)) =
      subst (λ n. Within n (sort_keys (keyed_from 0 parts))) (sym (length-wholes parts))
        (sort_keys-Within (length parts) (keyed_from 0 parts)
          (keyed_from-Within 0 (length parts) parts (omega arith))) in
    (
      shares,
      rw (total, left, to_usize_small k (omega arith)) refl,
      sum_int-raise_first k (sort_keys (keyed_from 0 parts)) (wholes parts)
            (omega (arith, keys, bounded)) within
          ∙ back_to s (sum_int (wholes parts)) k left,
    )
