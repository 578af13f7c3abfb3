-- ===== src/Oms/Allocation/Floors.antt =====
-- The floors of the exact shares and their rests (`allocate` of crates/te_core/src/oms/manager.rs).
use native.Mathlib.Nat.{div-add-mod, mul-suc, mod-lt, mul_comm}
use trade_engine.Base.{
  ℕ, zero, suc, ◌+◌, ◌-◌, ◌*◌, ◌/◌, ◌%◌, ◌<◌, ◌≡◌, refl, sym, subst, arith, if◌then◌else◌,
}
use trade_engine.Base.Int.{ℤ, pos, negsuc, pos_part, neg_part, sub_ℕ, ◌+ℤ◌, ◌-ℤ◌}
use trade_engine.Oms.Allocation.{floor_parts, is_minus}

-- `x` is `a` times `D` and a rest below `D`; both sides are kept free of negative numbers.
pub record IsFloor (x : ℤ) (D : ℕ) (p : ℤ × ℤ) : Type 0 where
  pub rest : ℕ
  pub is_rest : p.1 ≡ pos rest
  pub below : rest < D
  pub exact : pos_part p.0 * D + rest + neg_part x ≡ neg_part p.0 * D + pos_part x

minus_suc : (n : ℕ) → sub_ℕ 0 (suc n) ≡ negsuc n
minus_suc n = ground arith

minus_parts : (n : ℕ) → (pos_part (sub_ℕ 0 n) ≡ 0) × (neg_part (sub_ℕ 0 n) ≡ n)
minus_parts n = (ground arith, ground arith)

-- The branch of a number below zero, by its quotient and rest.
abbrev corrected : ℕ → ℕ → ℕ → ℤ × ℤ
corrected Q R D =
    if is_minus (sub_ℕ 0 R)
    then (sub_ℕ 0 Q -ℤ pos 1, sub_ℕ 0 R +ℤ pos D)
    else (sub_ℕ 0 Q, sub_ℕ 0 R)

below_zero : (Q R n D : ℕ) → D * Q + R ≡ suc n → R < D → IsFloor (negsuc n) D (corrected Q R D)
below_zero Q zero n D h b = record {
  rest = 0;
  is_rest = refl;
  below = b;
  exact = let (p, q) = minus_parts Q in rw (p, q, mul_comm Q D) (omega arith);
}
below_zero Q (suc R) n D h b =
    let whole : negsuc Q ≡ sub_ℕ 0 Q -ℤ pos 1 = unfold ◌-ℤ◌ in ground arith in
    let part : negsuc R ≡ sub_ℕ 0 (suc R) = sym (minus_suc R) in
    subst (IsFloor (negsuc n) D)
      (λ i. if is_minus (part i) then (whole i, part i +ℤ pos D) else (sub_ℕ 0 Q, part i))
      (record {
        rest = D - suc R;
        is_rest = unfold ◌+ℤ◌ in ground arith;
        below = omega arith;
        exact = rw (mul_comm (suc Q) D, mul-suc D Q) (omega arith);
      })

pub floor_parts-IsFloor : (x : ℤ) (D : ℕ) → 0 < D → IsFloor x D (floor_parts x (pos D))
unfolding floor_parts
floor_parts-IsFloor (pos n) D h = record {
  rest = n % D;
  is_rest = refl;
  below = mod-lt n h;
  exact = rw (mul_comm (n / D) D) (omega (arith, div-add-mod n D));
}
floor_parts-IsFloor (negsuc n) D h =
    below_zero (suc n / D) (suc n % D) n D (div-add-mod (suc n) D) (mod-lt (suc n) h)
