-- ===== src/Ledger/OMap/Index.antt =====
-- The index of a map agrees with its entries (`OMap` of crates/te_core/src/ledger/ops.rs).
use trade_engine.Base.{
  ℕ, zero, suc, ◌≡◌, refl, sym, ap, ◌∙◌, Bool, true, false, Option, none, some, [], ◌∷◌, ◌++◌,
  String, length, str_eq, str_eq_iff, if◌then◌else◌, if_true, if_false, Bool-cases, ◌⊎◌, inl, inr,
  arith, some_inj,
}
use trade_engine.Ledger.Dict
use trade_engine.Ledger.Dict.{Dict}
use trade_engine.Ledger.OMap.{shifted, value_at, write_at, remove_at, value_of}

-- One position further.
abbrev pub later : Option ℕ → Option ℕ
later none = none
later (some i) = some (suc i)

pub later-some : (o : Option ℕ) (i : ℕ) → later o ≡ some i → (n : ℕ) × (o ≡ some n) × (i ≡ suc n)
later-some none i h = cc
later-some (some n) i h = (n, refl, sym (some_inj h))

pub later-none : (o : Option ℕ) → later o ≡ none → o ≡ none
later-none none h = refl
later-none (some n) h = cc

shifted-later : (i : ℕ) (o : Option ℕ) → shifted (suc i) (later o) ≡ later (shifted i o)
unfolding shifted
shifted-later i none = refl
shifted-later i (some n) = ground arith

shifted_back : (o : Option ℕ) → shifted 0 (later o) ≡ o
unfolding shifted
shifted_back none = refl
shifted_back (some n) = ground arith

shifted_first : (i : ℕ) → shifted i (some 0) ≡ some 0
unfolding shifted
shifted_first i = ground arith

later-if : (b : Bool) (o : Option ℕ) → later (if b then none else o) ≡ (if b then none else later o)
later-if true o = refl
later-if false o = refl

module _ {ℓ κ} {K : Type ℓ} {V : Type κ} where
  -- Where the key stands.
  unfoldable pub position : String → Dict K V → Option ℕ
  position k [] = none
  position k ((j, key, v) ∷ d) = if str_eq j k then some 0 else later (position k d)

  abbrev pub NoTwice : Dict K V → Type 0
  NoTwice [] = Unit {0}
  NoTwice ((j, key, v) ∷ d) = (position j d ≡ none) × NoTwice d

  value_of-later :
      (j : String) (key : K) (v : V) (d : Dict K V) (o : Option ℕ)
      → value_of ((j, key, v) ∷ d) (later o) ≡ value_of d o
  unfolding value_at
  value_of-later j key v d none = refl
  value_of-later j key v d (some i) = refl

  pub value_of-position : (k : String) (d : Dict K V) → value_of d (position k d) ≡ Dict.get k d
  unfolding position value_at Dict.get
  value_of-position k [] = refl
  value_of-position k ((j, key, v) ∷ d) = elim (Bool-cases (str_eq j k)) [
    | inl e ↦ rw e refl
    | inr e ↦ rw e (value_of-later j key v d (position k d) ∙ value_of-position k d)
  ]

  -- Writing at a known key's position is the map's own insertion.
  pub write_at-position :
      (k : String) (key : K) (v : V) (d : Dict K V) (i : ℕ)
      → position k d ≡ some i
      → write_at i (λ w. v) d ≡ Dict.insert k key v d
  unfolding position write_at Dict.insert
  write_at-position k key v [] i h = cc
  write_at-position k key v ((j, old, w) ∷ d) i h = elim (Bool-cases (str_eq j k)) [
    | inl e ↦ let here : i ≡ 0 = some_inj (sym h ∙ if_true (str_eq j k) _ e) in rw (here, e) refl
    | inr e ↦
        let (n, found, further) =
          later-some (position k d) i (sym (if_false (str_eq j k) _ e) ∙ h) in
        rw (further, e) (ap (λ r. (j, old, w) ∷ r) (write_at-position k key v d n found))
  ]

  pub append-position :
      (k : String) (key : K) (v : V) (d : Dict K V)
      → position k d ≡ none
      → d ++ (k, key, v) ∷ [] ≡ Dict.insert k key v d
  unfolding position Dict.insert
  append-position k key v [] h = refl
  append-position k key v ((j, old, w) ∷ d) h = elim (Bool-cases (str_eq j k)) [
    | inl e ↦ let clash = sym (if_true (str_eq j k) _ e) ∙ h in cc
    | inr e ↦
        let absent = later-none (position k d) (sym (if_false (str_eq j k) _ e) ∙ h) in
        rw e (ap (λ r. (j, old, w) ∷ r) (append-position k key v d absent))
  ]

  pub remove_at-position :
      (k : String) (d : Dict K V) (i : ℕ) → position k d ≡ some i → remove_at i d ≡ Dict.remove k d
  unfolding position remove_at Dict.remove
  remove_at-position k [] i h = cc
  remove_at-position k ((j, old, w) ∷ d) i h = elim (Bool-cases (str_eq j k)) [
    | inl e ↦ let here : i ≡ 0 = some_inj (sym h ∙ if_true (str_eq j k) _ e) in rw (here, e) refl
    | inr e ↦
        let (n, found, further) =
          later-some (position k d) i (sym (if_false (str_eq j k) _ e) ∙ h) in
        rw (further, e) (ap (λ r. (j, old, w) ∷ r) (remove_at-position k d n found))
  ]

  -- The positions after each change.
  pub position-write_at :
      (k : String) (i : ℕ) (f : V → V) (d : Dict K V) → position k (write_at i f d) ≡ position k d
  unfolding position write_at
  position-write_at k i f [] = refl
  position-write_at k zero f ((j, old, w) ∷ d) = refl
  position-write_at k (suc i) f ((j, old, w) ∷ d) = rw (position-write_at k i f d) refl

  pub position-append :
      (hk k : String) (key : K) (v : V) (d : Dict K V)
      → position hk d ≡ none
      → position k (d ++ (hk, key, v) ∷ [])
        ≡ (if str_eq hk k then some (length d) else position k d)
  unfolding position
  position-append hk k key v [] h = refl
  position-append hk k key v ((j, old, w) ∷ d) h = ground (
    arith,
    position-append hk k key v d,
    str_eq_iff j k,
    str_eq_iff hk k,
    str_eq_iff j hk,
    later-none (position hk d),
  )

  pub position-remove_at :
      (hk k : String) (d : Dict K V) (i : ℕ)
      → position hk d ≡ some i
      → NoTwice d
      → position k (remove_at i d) ≡ (if str_eq hk k then none else shifted i (position k d))
  unfolding position remove_at shifted
  position-remove_at hk k [] i h n = cc
  position-remove_at hk k ((j, old, w) ∷ d) i h n = elim (Bool-cases (str_eq j hk)) [
    | inl e ↦
        let here : i ≡ 0 = some_inj (sym h ∙ if_true (str_eq j hk) _ e) in
        rw (here, ← (str_eq_iff j hk).0 e) (first_out (Bool-cases (str_eq j k)))
    | inr e ↦
        let (m, found, further) =
          later-some (position hk d) i (sym (if_false (str_eq j hk) _ e) ∙ h) in
        rw further
          (further_out m (position-remove_at hk k d m found n.1) e (Bool-cases (str_eq j k)))
  ]
    where
      first_out :
          (str_eq j k ≡ true) ⊎ (str_eq j k ≡ false)
          → position k d ≡ (
              if str_eq j k
              then none
              else shifted 0 (if str_eq j k then some 0 else later (position k d)))
      first_out (inl e) = rw (e, ← (str_eq_iff j k).0 e) n.0
      first_out (inr e) = rw e (sym (shifted_back (position k d)))

      further_out :
          (m : ℕ)
          → position k (remove_at m d) ≡ (if str_eq hk k then none else shifted m (position k d))
          → str_eq j hk ≡ false
          → (str_eq j k ≡ true) ⊎ (str_eq j k ≡ false)
          → (if str_eq j k then some 0 else later (position k (remove_at m d))) ≡ (
              if str_eq hk k
              then none
              else shifted (suc m) (if str_eq j k then some 0 else later (position k d)))
      further_out m ih other (inl e) =
          let apart : str_eq hk k ≡ false =
            ground (arith, str_eq_iff j k, str_eq_iff hk k, str_eq_iff j hk) in
          rw (e, apart) (sym (shifted_first (suc m)))
      further_out m ih other (inr e) =
          rw (e, ih, shifted-later m (position k d)) (later-if (str_eq hk k) _)

  -- No key twice, after each change.
  pub NoTwice-write_at : (i : ℕ) (f : V → V) (d : Dict K V) → NoTwice d → NoTwice (write_at i f d)
  unfolding write_at
  NoTwice-write_at i f [] n = n
  NoTwice-write_at zero f ((j, old, w) ∷ d) n = n
  NoTwice-write_at (suc i) f ((j, old, w) ∷ d) n =
      (position-write_at j i f d ∙ n.0, NoTwice-write_at i f d n.1)

  pub NoTwice-append :
      (hk : String) (key : K) (v : V) (d : Dict K V)
      → position hk d ≡ none
      → NoTwice d
      → NoTwice (d ++ (hk, key, v) ∷ [])
  unfolding position
  NoTwice-append hk key v [] h n = (refl, tt)
  NoTwice-append hk key v ((j, old, w) ∷ d) h n = elim (Bool-cases (str_eq j hk)) [
    | inl e ↦ let clash = sym (if_true (str_eq j hk) _ e) ∙ h in cc
    | inr e ↦
        let absent = later-none (position hk d) (sym (if_false (str_eq j hk) _ e) ∙ h) in
        let other : str_eq hk j ≡ false = ground (arith, str_eq_iff hk j, str_eq_iff j hk) in
        (
          position-append hk j key v d absent ∙ (if_false (str_eq hk j) _ other ∙ n.0),
          NoTwice-append hk key v d absent n.1,
        )
  ]

  position_none-remove_at :
      (k : String) (i : ℕ) (d : Dict K V) → position k d ≡ none → position k (remove_at i d) ≡ none
  unfolding position remove_at
  position_none-remove_at k i [] h = refl
  position_none-remove_at k zero ((j, old, w) ∷ d) h = elim (Bool-cases (str_eq j k)) [
    | inl e ↦ let clash = sym (if_true (str_eq j k) _ e) ∙ h in cc
    | inr e ↦ later-none (position k d) (sym (if_false (str_eq j k) _ e) ∙ h)
  ]
  position_none-remove_at k (suc i) ((j, old, w) ∷ d) h = elim (Bool-cases (str_eq j k)) [
    | inl e ↦ let clash = sym (if_true (str_eq j k) _ e) ∙ h in cc
    | inr e ↦
        let absent = later-none (position k d) (sym (if_false (str_eq j k) _ e) ∙ h) in
        rw (e, position_none-remove_at k i d absent) refl
  ]

  pub NoTwice-remove_at : (i : ℕ) (d : Dict K V) → NoTwice d → NoTwice (remove_at i d)
  unfolding remove_at
  NoTwice-remove_at i [] n = n
  NoTwice-remove_at zero ((j, old, w) ∷ d) n = n.1
  NoTwice-remove_at (suc i) ((j, old, w) ∷ d) n =
      (position_none-remove_at j i d n.0, NoTwice-remove_at i d n.1)
