-- ===== src/Money/Ranking.antt =====
-- The order of decimals (crates/te_core/src/money.rs) is total and transitive.
use native.Mathlib.Nat.{add-mul, mul_right_comm, zero-mul, mul-le-mul_right, le_of_mul-le-mul_right}
use trade_engine.Base.{
  ℕ, ◌+◌, ◌*◌, ◌≤◌, ◌<◌, ◌≡◌, refl, sym, ap, ◌∙◌, Bool, true, false, compare, Ordering, arith,
  if◌then◌else◌,
}
use trade_engine.Base.Powers.{pow10, pow10-pos}
use trade_engine.Money.Decimal.{Money}
use trade_engine.Money.Arithmetic.{parts_neg}
use trade_engine.Money.Order.{Decimals, value_order, pos_at, neg_at, lt, gt}

cross :
    (pa na pb nb pc nc A B C : ℕ)
    → 0 < B
    → pa * B + nb * A ≤ pb * A + na * B
    → pb * C + nc * B ≤ pc * B + nb * C
    → pa * C + nc * A ≤ pc * A + na * C
cross pa na pb nb pc nc A B C h k l =
    le_of_mul-le-mul_right
      (omega (
        arith,
        mul-le-mul_right {m = pa * B + nb * A} {n = pb * A + na * B} C k,
        mul-le-mul_right {m = pb * C + nc * B} {n = pc * B + nb * C} A l,
        add-mul (pa * B) (nb * A) C,
        add-mul (pb * A) (na * B) C,
        add-mul (pb * C) (nc * B) A,
        add-mul (pc * B) (nb * C) A,
        add-mul (pa * C) (nc * A) B,
        add-mul (pc * A) (na * C) B,
        mul_right_comm pb C A,
        mul_right_comm nb C A,
        mul_right_comm pa C B,
        mul_right_comm nc A B,
        mul_right_comm pc A B,
        mul_right_comm na C B,
      ))
      h

-- The magnitude above zero, and the one below.
plus : Money → ℕ
plus m = if parts_neg m then 0 else m.coef

minus : Money → ℕ
minus m = if parts_neg m then m.coef else 0

pos_at-plus : (m : Money) (s : ℕ) → pos_at m s ≡ plus m * pow10 s
unfolding plus
pos_at-plus m s = go (parts_neg m)
  where
    go : (b : Bool) → (if b then 0 else m.coef * pow10 s) ≡ (if b then 0 else m.coef) * pow10 s
    go true = sym (zero-mul (pow10 s))
    go false = refl

neg_at-minus : (m : Money) (s : ℕ) → neg_at m s ≡ minus m * pow10 s
unfolding minus
neg_at-minus m s = go (parts_neg m)
  where
    go : (b : Bool) → (if b then m.coef * pow10 s else 0) ≡ (if b then m.coef else 0) * pow10 s
    go true = refl
    go false = sym (zero-mul (pow10 s))

-- The value of `a` is at most that of `b`.
pub AtMost : Money → Money → Type 0
AtMost a b =
    plus a * pow10 b.scale + minus b * pow10 a.scale
    ≤ plus b * pow10 a.scale + minus a * pow10 b.scale

pub AtMost-refl : (a : Money) → AtMost a a
unfolding AtMost
AtMost-refl a = omega arith

pub AtMost-trans : (a b c : Money) → AtMost a b → AtMost b c → AtMost a c
unfolding AtMost
AtMost-trans a b c h k =
    cross (plus a) (minus a) (plus b) (minus b) (plus c) (minus c) (pow10 a.scale) (pow10 b.scale)
      (pow10 c.scale) (pow10-pos b.scale) h k

order_parts :
    (a b : Money)
    → value_order a b
      ≡ compare
          (plus a * pow10 b.scale + minus b * pow10 a.scale)
          (plus b * pow10 a.scale + minus a * pow10 b.scale)
unfolding value_order
order_parts a b =
    rw
      (
        ← pos_at-plus a b.scale,
        ← neg_at-minus b a.scale,
        ← pos_at-plus b a.scale,
        ← neg_at-minus a b.scale,
      )
      refl

-- What each outcome of a comparison says.
not_less : (x y : ℕ) → (elim (compare x y) [ Ordering.lt ↦ true | _ ↦ false ]) ≡ false → y ≤ x
not_less x y h = ground arith

not_greater : (x y : ℕ) → (elim (compare x y) [ Ordering.gt ↦ true | _ ↦ false ]) ≡ false → x ≤ y
not_greater x y h = ground arith

greater : (x y : ℕ) → (elim (compare x y) [ Ordering.gt ↦ true | _ ↦ false ]) ≡ true → y ≤ x
greater x y h = ground arith

less : (x y : ℕ) → (elim (compare x y) [ Ordering.lt ↦ true | _ ↦ false ]) ≡ true → x ≤ y
less x y h = ground arith

at_least : (x y : ℕ) → y ≤ x → (elim (compare x y) [ Ordering.lt ↦ true | _ ↦ false ]) ≡ false
at_least x y h = ground arith

module _ ⦃d : Decimals⦄ where
  by_parts :
      (a b : Money)
      → d.cmp a b
        ≡ compare
            (plus a * pow10 b.scale + minus b * pow10 a.scale)
            (plus b * pow10 a.scale + minus a * pow10 b.scale)
  by_parts a b = d.cmp_by_value a b ∙ order_parts a b

  abbrev is_lt : Ordering → Bool
  is_lt o = elim o [ Ordering.lt ↦ true | _ ↦ false ]

  abbrev is_gt : Ordering → Bool
  is_gt o = elim o [ Ordering.gt ↦ true | _ ↦ false ]

  -- Each test says which value is at most the other.
  pub not_lt-AtMost : (a b : Money) → lt a b ≡ false → AtMost b a
  unfolding lt AtMost
  not_lt-AtMost a b h = not_less _ _ (sym (ap is_lt (by_parts a b)) ∙ h)

  pub lt-AtMost : (a b : Money) → lt a b ≡ true → AtMost a b
  unfolding lt AtMost
  lt-AtMost a b h = less _ _ (sym (ap is_lt (by_parts a b)) ∙ h)

  pub not_gt-AtMost : (a b : Money) → gt a b ≡ false → AtMost a b
  unfolding gt AtMost
  not_gt-AtMost a b h = not_greater _ _ (sym (ap is_gt (by_parts a b)) ∙ h)

  pub gt-AtMost : (a b : Money) → gt a b ≡ true → AtMost b a
  unfolding gt AtMost
  gt-AtMost a b h = greater _ _ (sym (ap is_gt (by_parts a b)) ∙ h)

  pub lt_of_AtMost : (a b : Money) → AtMost b a → lt a b ≡ false
  unfolding lt AtMost
  lt_of_AtMost a b h = ap is_lt (by_parts a b) ∙ at_least _ _ h
