-- ===== src/Ledger/Dict.antt =====
-- The insertion-ordered map of crates/te_core/src/ledger/ops.rs as its users see it: the entries in
-- the order of their first insertion, under the text `hk` that two equal keys share. The index and
-- the journal of `OMap` are left out.
use trade_engine.Base.{
  ◌≡◌, ◌≢◌, refl, ap, ◌∙◌, inl, inr, Bool-cases, if_true, str_eq_self, Bool, true, false, Option,
  none, some, List, [], ◌∷◌, String, arith, str_eq, str_eq_iff, if◌then◌else◌,
}

abbrev pub Dict {ℓ κ} : Type ℓ → Type κ → Type (ℓ ⊔ κ)
Dict K V = List (String × K × V)

module _ {ℓ κ} {K : Type ℓ} {V : Type κ} where
  unfoldable pub get : String → Dict K V → Option V
  get k [] = none
  get k ((j, key, v) ∷ d) = if str_eq j k then some v else get k d

  unfoldable pub contains : String → Dict K V → Bool
  contains k [] = false
  contains k ((j, key, v) ∷ d) = if str_eq j k then true else contains k d

  -- A known key keeps its place and its first key object; a new one goes to the end.
  unfoldable pub insert : String → K → V → Dict K V → Dict K V
  insert k key v [] = (k, key, v) ∷ []
  insert k key v ((j, old, w) ∷ d) =
      if str_eq j k then (j, old, v) ∷ d else (j, old, w) ∷ insert k key v d

  unfoldable pub remove : String → Dict K V → Dict K V
  remove k [] = []
  remove k ((j, key, v) ∷ d) = if str_eq j k then d else (j, key, v) ∷ remove k d

  unfoldable pub values : Dict K V → List V
  values [] = []
  values ((j, key, v) ∷ d) = v ∷ values d

  pub get-insert :
      (k j : String) (key : K) (v : V) (d : Dict K V)
      → get j (insert k key v d) ≡ (if str_eq k j then some v else get j d)
  unfolding get insert
  get-insert k j key v [] = refl
  get-insert k j key v ((i, old, w) ∷ d) =
      ground (arith, str_eq_iff k j, str_eq_iff i k, str_eq_iff i j, get-insert k j key v d)

  pub contains-get : (k : String) (d : Dict K V) → contains k d ≡ true → get k d ≢ none
  unfolding get contains
  contains-get k [] h = cc
  contains-get k ((j, key, v) ∷ d) h = ground (arith, contains-get k d)

  pub get-contains : (k : String) (d : Dict K V) {v : V} → get k d ≡ some v → contains k d ≡ true
  unfolding get contains
  get-contains k [] {v} h = cc
  get-contains k ((j, key, w) ∷ d) {v} h = ground (arith, get-contains k d {v = v})

unfoldable pub put {ℓ} : {V : Type ℓ} → String → V → Dict String V → Dict String V
put k v d = insert k k v d

pub get-put {ℓ} : {V : Type ℓ} (k : String) (v : V) (d : Dict String V) → get k (put k v d) ≡ some v
unfolding put
get-put k v d = get-insert k k k v d ∙ if_true _ _ (str_eq_self k)

pub put-put {ℓ} :
    {V : Type ℓ} (k : String) (v : V) (d : Dict String V) → put k v (put k v d) ≡ put k v d
unfolding put insert
put-put k v [] = rw (str_eq_self k) refl
put-put k v ((j, key, w) ∷ d) = elim (Bool-cases (str_eq j k)) [
  | inl e ↦ rw (e, e) refl
  | inr e ↦ rw (e, e) (ap (λ r. (j, key, w) ∷ r) (put-put k v d))
]
