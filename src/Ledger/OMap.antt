-- ===== src/Ledger/OMap.antt =====
-- The insertion-ordered map with its index and its journal (`OMap` of crates/te_core/src/ledger/ops.rs).
-- The `HashMap` of positions is a function, the `BTreeSet` of written positions an ascending list;
-- a position out of range, where the source panics, has no entry.
pub mod Index
pub mod Entries
pub mod Refines
pub mod Journal
use trade_engine.Base.{
  ℕ, zero, suc, ◌-◌, Bool, true, false, Option, none, some, List, [], ◌∷◌, ◌++◌, String, length,
  get_elem?, ltb, ◌==◌, str_eq, if◌then◌else◌,
}
use trade_engine.Ledger.Dict.{Dict}

pub record OMap {ℓ κ} (K : Type ℓ) (V : Type κ) : Type (ℓ ⊔ κ) where
  pub items : Dict K V
  pub index : String → Option ℕ
  pub dirty : List ℕ
  pub rebuilt : Bool

-- `BTreeSet::insert`
unfoldable pub mark_dirty : ℕ → List ℕ → List ℕ
mark_dirty i [] = i ∷ []
mark_dirty i (j ∷ js) =
    let rest = mark_dirty i js in
    if i == j then j ∷ js else if ltb i j then i ∷ j ∷ js else j ∷ rest

-- `BTreeSet::contains`
unfoldable pub is_dirty : ℕ → List ℕ → Bool
is_dirty i [] = false
is_dirty i (j ∷ js) = if i == j then true else is_dirty i js

-- A slot of the index after the position `i` was taken out.
unfoldable pub shifted : ℕ → Option ℕ → Option ℕ
shifted i none = none
shifted i (some j) = if ltb i j then some (j - 1) else some j

abbrev pub is_some {ℓ} : {A : Type ℓ} → Option A → Bool
is_some none = false
is_some (some a) = true

module _ {ℓ κ} {K : Type ℓ} {V : Type κ} where
  unfoldable pub empty_map : OMap K V
  empty_map = record { items = []; index = λ k. none; dirty = []; rebuilt = false }

  -- `items[i].2`
  unfoldable pub value_at : Dict K V → ℕ → Option V
  value_at [] i = none
  value_at ((k, key, v) ∷ d) zero = some v
  value_at ((k, key, v) ∷ d) (suc i) = value_at d i

  -- `items[i].2 = f(items[i].2)`
  unfoldable pub write_at : ℕ → (V → V) → Dict K V → Dict K V
  write_at i f [] = []
  write_at zero f ((k, key, v) ∷ d) = (k, key, f v) ∷ d
  write_at (suc i) f ((k, key, v) ∷ d) = (k, key, v) ∷ write_at i f d

  -- `Vec::remove`
  unfoldable pub remove_at : ℕ → Dict K V → Dict K V
  remove_at i [] = []
  remove_at zero (x ∷ d) = d
  remove_at (suc i) (x ∷ d) = x ∷ remove_at i d

  abbrev pub value_of : Dict K V → Option ℕ → Option V
  value_of d none = none
  value_of d (some i) = value_at d i

  unfoldable pub get : OMap K V → String → Option V
  unfolding value_at
  get m hk = value_of m.items (m.index hk)

  unfoldable pub contains : OMap K V → String → Bool
  contains m hk = is_some (m.index hk)

  unfoldable pub written : OMap K V → ℕ → (V → V) → OMap K V
  unfolding mark_dirty write_at
  written m i f = record m { items = write_at i f m.items; dirty = mark_dirty i m.dirty }

  -- `get_mut`, with what the caller writes through the reference.
  unfoldable pub get_mut : OMap K V → String → (V → V) → OMap K V
  unfolding written
  get_mut m hk f = elim (m.index hk) [ none ↦ m | some i ↦ written m i f ]

  -- An entry at the end.
  unfoldable pub pushed : OMap K V → String → K → V → OMap K V
  unfolding mark_dirty
  pushed m hk key value = record m {
    items = m.items ++ (hk, key, value) ∷ [];
    index = λ k. if str_eq hk k then some (length m.items) else m.index k;
    dirty = mark_dirty (length m.items) m.dirty;
  }

  unfoldable pub insert : OMap K V → String → K → V → OMap K V
  unfolding written pushed
  insert m hk key value = elim (m.index hk) [
    | none ↦ pushed m hk key value
    | some i ↦ written m i (λ v. value)
  ]

  unfoldable pub removed : OMap K V → String → ℕ → OMap K V
  unfolding remove_at shifted
  removed m hk i = record m {
    items = remove_at i m.items;
    index = λ k. if str_eq hk k then none else shifted i (m.index k);
    dirty = [];
    rebuilt = true;
  }

  unfoldable pub remove : OMap K V → String → OMap K V × Option V
  unfolding removed value_at
  remove m hk = elim (m.index hk) [
    | none ↦ (m, none)
    | some i ↦ (removed m hk i, value_at m.items i)
  ]

  unfoldable pub take_journal : OMap K V → OMap K V × Bool × List ℕ
  take_journal m =
      (record m { dirty = []; rebuilt = false }, m.rebuilt, (if m.rebuilt then [] else m.dirty))
