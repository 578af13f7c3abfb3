-- ===== src/Oms/Allocation/Nearest.antt =====
-- Each whole share is next to the exact one (`allocate` of crates/te_core/src/oms/manager.rs).
use trade_engine.Base.{
  ℕ, zero, suc, ◌<◌, ◌≡◌, refl, sym, ap, subst, ◌∙◌, ◌⊎◌, inl, inr, Bool, true, false, Option, none,
  some, List, [], ◌∷◌, length, get_elem?, arith, ok, All, ◌==◌, ==_iff, if◌then◌else◌, if_true,
  if_false, Bool-cases, some_inj, ok-injective,
}
use trade_engine.Base.Int.{ℤ, pos, ◌+ℤ◌, ◌-ℤ◌, ◌*ℤ◌}
use trade_engine.Oms.Allocation.{
  key_before, place_key, sort_keys, keyed_from, raise, raise_first, sum_int, floors, floor_parts,
  to_usize, of_remaining, largest_remainder,
}
use trade_engine.Oms.Allocation.Floors.{IsFloor, floor_parts-IsFloor}
use trade_engine.Oms.Allocation.Conserved.{IsPositive, weigh, wholes}

-- No key names the share `i`, and no share is named twice.
abbrev Fresh : ℕ → List (ℤ × ℕ) → Type 0
Fresh i keys = All (λ (k : ℤ × ℕ). (i == k.1) ≡ false) keys

abbrev NoTwice : List (ℤ × ℕ) → Type 0
NoTwice [] = Unit {0}
NoTwice (k ∷ ks) = Fresh k.1 ks × NoTwice ks

place_key-All :
    (P : ℤ × ℕ → Type 0) (k : ℤ × ℕ) (ks : List (ℤ × ℕ)) → P k → All P ks → All P (place_key k ks)
unfolding place_key
place_key-All P k [] p ps = (p, tt)
place_key-All P k (j ∷ js) p ps = go (key_before k j) (place_key-All P k js p ps.1)
  where
    go : (b : Bool) → All P (place_key k js) → All P (if b then k ∷ j ∷ js else j ∷ place_key k js)
    go true t = (p, ps)
    go false t = (ps.0, t)

place_key-NoTwice :
    (k : ℤ × ℕ) (ks : List (ℤ × ℕ)) → Fresh k.1 ks → NoTwice ks → NoTwice (place_key k ks)
unfolding place_key
place_key-NoTwice k [] f n = (tt, tt)
place_key-NoTwice k (j ∷ js) f n = go (key_before k j) (place_key-NoTwice k js f.1 n.1)
  where
    go :
        (b : Bool)
        → NoTwice (place_key k js)
        → NoTwice (if b then k ∷ j ∷ js else j ∷ place_key k js)
    go true t = (f, n)
    go false t =
        let other : (j.1 == k.1) ≡ false = ground (arith, f.0) in
        (place_key-All (λ (i : ℤ × ℕ). (j.1 == i.1) ≡ false) k js other n.0, t)

sort_keys-All : (P : ℤ × ℕ → Type 0) (ks : List (ℤ × ℕ)) → All P ks → All P (sort_keys ks)
unfolding sort_keys
sort_keys-All P [] ps = ps
sort_keys-All P (k ∷ ks) ps = place_key-All P k (sort_keys ks) ps.0 (sort_keys-All P ks ps.1)

sort_keys-NoTwice : (ks : List (ℤ × ℕ)) → NoTwice ks → NoTwice (sort_keys ks)
unfolding sort_keys
sort_keys-NoTwice [] n = n
sort_keys-NoTwice (k ∷ ks) n =
    place_key-NoTwice k (sort_keys ks) (sort_keys-All (λ (i : ℤ × ℕ). (k.1 == i.1) ≡ false) ks n.0)
      (sort_keys-NoTwice ks n.1)

keyed_from-Fresh : (i j : ℕ) (parts : List (ℤ × ℤ)) → j < i → Fresh j (keyed_from i parts)
unfolding keyed_from
keyed_from-Fresh i j [] h = tt
keyed_from-Fresh i j (p ∷ parts) h = (ground arith, keyed_from-Fresh (suc i) j parts (omega arith))

keyed_from-NoTwice : (i : ℕ) (parts : List (ℤ × ℤ)) → NoTwice (keyed_from i parts)
unfolding keyed_from
keyed_from-NoTwice i [] = tt
keyed_from-NoTwice i (p ∷ parts) =
    (keyed_from-Fresh (suc i) i parts (omega arith), keyed_from-NoTwice (suc i) parts)

-- The share at a position, after one was raised.
get_elem?-raise :
    (i j : ℕ) (xs : List ℤ) {x : ℤ}
    → get_elem? xs j ≡ some x
    → get_elem? (raise i xs) j ≡ some (if j == i then x +ℤ pos 1 else x)
unfolding raise
get_elem?-raise i j [] h = cc
get_elem?-raise zero zero (y ∷ xs) {x} h = ap (λ z. some (z +ℤ pos 1)) (some_inj h)
get_elem?-raise zero (suc j) (y ∷ xs) {x} h =
    h ∙ ap some (sym (if_false (suc j == 0) _ (ground arith)))
get_elem?-raise (suc i) zero (y ∷ xs) {x} h =
    h ∙ ap some (sym (if_false (0 == suc i) _ (ground arith)))
get_elem?-raise (suc i) (suc j) (y ∷ xs) {x} h =
    get_elem?-raise i j xs h ∙ same (Bool-cases (j == i))
  where
    same :
        ((j == i) ≡ true) ⊎ ((j == i) ≡ false)
        → some (if j == i then x +ℤ pos 1 else x) ≡ some (if suc j == suc i then x +ℤ pos 1 else x)
    same (inl e) = ap some (if_true _ _ e ∙ sym (if_true (suc j == suc i) _ (ground arith)))
    same (inr e) = ap some (if_false _ _ e ∙ sym (if_false (suc j == suc i) _ (ground arith)))

raise_first-Fresh :
    (n : ℕ) (keys : List (ℤ × ℕ)) (j : ℕ) (xs : List ℤ) {x : ℤ}
    → Fresh j keys
    → get_elem? xs j ≡ some x
    → get_elem? (raise_first n keys xs) j ≡ some x
unfolding raise_first
raise_first-Fresh zero keys j xs f h = h
raise_first-Fresh (suc n) [] j xs f h = h
raise_first-Fresh (suc n) ((r, i) ∷ keys) j xs {x} f h =
    raise_first-Fresh n keys j (raise i xs) f.1
      (get_elem?-raise i j xs h ∙ ap some (if_false (j == i) _ f.0))

-- A share stays or is raised by one.
raise_first-Near :
    (n : ℕ) (keys : List (ℤ × ℕ)) (j : ℕ) (xs : List ℤ) {x : ℤ}
    → NoTwice keys
    → get_elem? xs j ≡ some x
    → (get_elem? (raise_first n keys xs) j ≡ some x)
      ⊎ (get_elem? (raise_first n keys xs) j ≡ some (x +ℤ pos 1))
unfolding raise_first
raise_first-Near zero keys j xs d h = inl h
raise_first-Near (suc n) [] j xs d h = inl h
raise_first-Near (suc n) ((r, i) ∷ keys) j xs {x} d h = elim (Bool-cases (j == i)) [
  | inl e ↦
      let here : j ≡ i = (==_iff j i).0 e in
      inr (
        raise_first-Fresh n keys j (raise i xs) (subst (λ k. Fresh k keys) (sym here) d.0)
          (get_elem?-raise i j xs h ∙ ap some (if_true (j == i) _ e)))
  | inr e ↦
      raise_first-Near n keys j (raise i xs) d.1
        (get_elem?-raise i j xs h ∙ ap some (if_false (j == i) _ e))
]

floors-IsFloor :
    (s : ℤ) (ws : List ℤ) (D j : ℕ) {w : ℤ}
    → 0 < D
    → get_elem? ws j ≡ some w
    → (p : ℤ × ℤ) × (get_elem? (wholes (floors s ws (pos D))) j ≡ some p.0) × IsFloor (s *ℤ w) D p
unfolding floors
floors-IsFloor s [] D j h e = cc
floors-IsFloor s (v ∷ ws) D zero h e =
    let same = some_inj e in
    (
      floor_parts (s *ℤ v) (pos D),
      refl,
      subst (λ w. IsFloor (s *ℤ w) D (floor_parts (s *ℤ v) (pos D))) same
          (floor_parts-IsFloor (s *ℤ v) D h),
    )
floors-IsFloor s (v ∷ ws) D (suc j) h e = floors-IsFloor s ws D j h e

lt-index : (j : ℕ) (ws : List ℤ) {w : ℤ} → get_elem? ws j ≡ some w → 0 < length ws
lt-index j [] h = cc
lt-index j (w ∷ ws) h = omega arith

-- The floor of the exact share, or one more.
pub record IsNear (s : ℤ) (ws : List ℤ) (w : ℤ) (x : ℤ) : Type 0 where
  pub total : ℕ
  pub weighed : sum_int ws ≡ pos total
  pub share : ℤ × ℤ
  pub is_floor : IsFloor (s *ℤ w) total share
  pub near : (x ≡ share.0) ⊎ (x ≡ share.0 +ℤ pos 1)

-- Where the largest remainder over positive weights gives shares, each target's share is the
-- floor of its exact share, the number times its weight over the sum of the weights, or one more.
pub largest_remainder-IsNear :
    (s : ℤ) (ws : List ℤ) {xs : List ℤ} (j : ℕ) {w x : ℤ}
    → All IsPositive ws
    → largest_remainder s ws ≡ ok xs
    → get_elem? ws j ≡ some w
    → get_elem? xs j ≡ some x
    → IsNear s ws w x
unfolding largest_remainder
largest_remainder-IsNear s ws {xs} j {w} {x} ps done at_j there =
    let (W, large, total) = weigh ws ps in
    let heavy : 0 < W = omega (arith, large, lt-index j ws at_j) in
    let (p, first, is_floor) = floors-IsFloor s ws W j heavy at_j in
    record {
      total = W;
      weighed = total;
      share = p;
      is_floor = is_floor;
      near = go W p total first (to_usize (s -ℤ sum_int (wholes (floors s ws (sum_int ws))))) done;
    }
  where
    go :
        (W : ℕ) (p : ℤ × ℤ)
        → sum_int ws ≡ pos W
        → get_elem? (wholes (floors s ws (pos W))) j ≡ some p.0
        → (o : Option ℕ) → of_remaining o (floors s ws (sum_int ws)) ≡ ok xs
        → (x ≡ p.0) ⊎ (x ≡ p.0 +ℤ pos 1)
    go W p total first none e = cc
    go W p total first (some n) e =
        let parts = floors s ws (sum_int ws) in
        let keys = sort_keys (keyed_from 0 parts) in
        let at_floor : get_elem? (wholes parts) j ≡ some p.0 =
          ap (λ t. get_elem? (wholes (floors s ws t)) j) total ∙ first in
        let shown : get_elem? (raise_first n keys (wholes parts)) j ≡ some x =
          ap (λ ys. get_elem? ys j) (ok-injective e) ∙ there in
        elim (raise_first-Near n keys j (wholes parts)
          (sort_keys-NoTwice (keyed_from 0 parts) (keyed_from-NoTwice 0 parts)) at_floor) [
            | inl same ↦ inl (some_inj (sym shown ∙ same))
            | inr same ↦ inr (some_inj (sym shown ∙ same))
          ]
