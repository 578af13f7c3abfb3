-- ===== src/Ledger/OMap/Entries.antt =====
-- Writing at a position and at a key (`OMap` of crates/te_core/src/ledger/ops.rs).
use trade_engine.Base.{
  ℕ, ◌≡◌, refl, sym, ap, ◌∙◌, none, some, [], ◌∷◌, String, str_eq, if◌then◌else◌, if_true, if_false,
  Bool-cases, inl, inr, some_inj,
}
use trade_engine.Ledger.Dict
use trade_engine.Ledger.Dict.{Dict}
use trade_engine.Ledger.OMap.{write_at}
use trade_engine.Ledger.OMap.Index.{position, later-some, later-none}

module _ {ℓ κ} {K : Type ℓ} {V : Type κ} where
  -- Writing through a key of the plain map.
  unfoldable pub rewrite : String → (V → V) → Dict K V → Dict K V
  rewrite hk f [] = []
  rewrite hk f ((j, key, v) ∷ d) =
      if str_eq j hk then (j, key, f v) ∷ d else (j, key, v) ∷ rewrite hk f d

  pub write_at-rewrite :
      (k : String) (f : V → V) (d : Dict K V) (i : ℕ)
      → position k d ≡ some i
      → write_at i f d ≡ rewrite k f d
  unfolding position write_at rewrite
  write_at-rewrite k f [] i h = cc
  write_at-rewrite k f ((j, old, w) ∷ d) i h = elim (Bool-cases (str_eq j k)) [
    | inl e ↦ let here : i ≡ 0 = some_inj (sym h ∙ if_true (str_eq j k) _ e) in rw (here, e) refl
    | inr e ↦
        let (n, found, further) =
          later-some (position k d) i (sym (if_false (str_eq j k) _ e) ∙ h) in
        rw (further, e) (ap (λ r. (j, old, w) ∷ r) (write_at-rewrite k f d n found))
  ]

  pub absent-rewrite :
      (k : String) (f : V → V) (d : Dict K V) → position k d ≡ none → rewrite k f d ≡ d
  unfolding position rewrite
  absent-rewrite k f [] h = refl
  absent-rewrite k f ((j, old, w) ∷ d) h = elim (Bool-cases (str_eq j k)) [
    | inl e ↦ let clash = sym (if_true (str_eq j k) _ e) ∙ h in cc
    | inr e ↦ rw e (
        ap (λ r. (j, old, w) ∷ r)
          (absent-rewrite k f d (later-none _ (sym (if_false (str_eq j k) _ e) ∙ h))))
  ]

  pub absent-remove : (k : String) (d : Dict K V) → position k d ≡ none → Dict.remove k d ≡ d
  unfolding position Dict.remove
  absent-remove k [] h = refl
  absent-remove k ((j, old, w) ∷ d) h = elim (Bool-cases (str_eq j k)) [
    | inl e ↦ let clash = sym (if_true (str_eq j k) _ e) ∙ h in cc
    | inr e ↦ rw e (
        ap (λ r. (j, old, w) ∷ r)
          (absent-remove k d (later-none _ (sym (if_false (str_eq j k) _ e) ∙ h))))
  ]
