-- ===== src/Ledger/OMap/Refines.antt =====
-- The map with its index does what the plain map of entries does (`OMap` of
-- crates/te_core/src/ledger/ops.rs).
use trade_engine.Base.{
  ℕ, ◌≡◌, refl, sym, ap, ◌∙◌, Option, none, some, List, [], ◌∷◌, String, length, str_eq,
  if◌then◌else◌, Bool-cases, inl, inr,
}
use trade_engine.Ledger.Dict
use trade_engine.Ledger.Dict.{Dict}
use trade_engine.Ledger.OMap.{
  OMap, empty_map, value_of, write_at, shifted, written, pushed, removed, get_mut, insert, remove,
  take_journal, is_some,
}
use trade_engine.Ledger.OMap
use trade_engine.Ledger.OMap.Index.{
  position, NoTwice, value_of-position, write_at-position, append-position, remove_at-position,
  position-write_at, position-append, position-remove_at, NoTwice-write_at, NoTwice-append,
  NoTwice-remove_at, later,
}
use trade_engine.Ledger.OMap.Entries.{rewrite, write_at-rewrite, absent-rewrite, absent-remove}

-- A change of the map.
pub data Change {ℓ κ} (K : Type ℓ) (V : Type κ) : Type (ℓ ⊔ κ) where
  insertion : String → K → V → Change K V
  write : String → (V → V) → Change K V
  removal : String → Change K V
  journal_taken : Change K V

is_some-later : (o : Option ℕ) → is_some (later o) ≡ is_some o
is_some-later none = refl
is_some-later (some n) = refl

module _ {ℓ κ} {K : Type ℓ} {V : Type κ} where
  unfoldable pub apply : OMap K V → Change K V → OMap K V
  apply m (insertion hk key v) = insert m hk key v
  apply m (write hk f) = get_mut m hk f
  apply m (removal hk) = (remove m hk).0
  apply m journal_taken = (take_journal m).0

  unfoldable pub apply_all : OMap K V → List (Change K V) → OMap K V
  unfolding apply
  apply_all m [] = m
  apply_all m (c ∷ cs) = apply_all (apply m c) cs

  -- The same change of a map that is its entries only.
  unfoldable pub change : Dict K V → Change K V → Dict K V
  unfolding rewrite
  change d (insertion hk key v) = Dict.insert hk key v d
  change d (write hk f) = rewrite hk f d
  change d (removal hk) = Dict.remove hk d
  change d journal_taken = d

  unfoldable pub change_all : Dict K V → List (Change K V) → Dict K V
  unfolding change
  change_all d [] = d
  change_all d (c ∷ cs) = change_all (change d c) cs

  -- The index says where each key stands, and no key stands twice.
  pub record IsIndexed (m : OMap K V) : Type (ℓ ⊔ κ) where
    pub exact : (k : String) → m.index k ≡ position k m.items
    pub once : NoTwice m.items

  written-IsIndexed : (m : OMap K V) (i : ℕ) (f : V → V) → IsIndexed m → IsIndexed (written m i f)
  unfolding written
  written-IsIndexed m i f h = record {
    exact = λ k. h.exact k ∙ sym (position-write_at k i f m.items);
    once = NoTwice-write_at i f m.items h.once;
  }

  pushed-IsIndexed :
      (m : OMap K V) (hk : String) (key : K) (v : V)
      → position hk m.items ≡ none
      → IsIndexed m
      → IsIndexed (pushed m hk key v)
  unfolding pushed
  pushed-IsIndexed m hk key v absent h = record {
    exact = λ k.
        ap (λ o. if str_eq hk k then some (length m.items) else o) (h.exact k)
        ∙ sym (position-append hk k key v m.items absent);
    once = NoTwice-append hk key v m.items absent h.once;
  }

  removed-IsIndexed :
      (m : OMap K V) (hk : String) (i : ℕ)
      → position hk m.items ≡ some i
      → IsIndexed m
      → IsIndexed (removed m hk i)
  unfolding removed
  removed-IsIndexed m hk i found h = record {
    exact = λ k.
        ap (λ o. if str_eq hk k then none else shifted i o) (h.exact k)
        ∙ sym (position-remove_at hk k m.items i found h.once);
    once = NoTwice-remove_at i m.items h.once;
  }

  -- The map `m` is indexed and has the entries `d`.
  abbrev Stands : OMap K V → Dict K V → Type (ℓ ⊔ κ)
  Stands m d = (m.items ≡ d) × IsIndexed m

  apply-Stands :
      (m : OMap K V) (c : Change K V) → IsIndexed m → Stands (apply m c) (change m.items c)
  unfolding apply change insert get_mut remove take_journal
  apply-Stands m (insertion hk key v) h = go (m.index hk) (h.exact hk)
    where
      go :
          (o : Option ℕ)
          → o ≡ position hk m.items
          → Stands
              (elim o [ none ↦ pushed m hk key v | some i ↦ written m i (λ w. v) ])
              (Dict.insert hk key v m.items)
      go none e = (
        unfold pushed in append-position hk key v m.items (sym e),
        pushed-IsIndexed m hk key v (sym e) h,
      )
      go (some i) e = (
        unfold written in write_at-position hk key v m.items i (sym e),
        written-IsIndexed m i (λ w. v) h,
      )
  apply-Stands m (write hk f) h = go (m.index hk) (h.exact hk)
    where
      go :
          (o : Option ℕ)
          → o ≡ position hk m.items
          → Stands (elim o [ none ↦ m | some i ↦ written m i f ]) (rewrite hk f m.items)
      go none e = (sym (absent-rewrite hk f m.items (sym e)), h)
      go (some i) e =
          (unfold written in write_at-rewrite hk f m.items i (sym e), written-IsIndexed m i f h)
  apply-Stands m (removal hk) h = go (m.index hk) (h.exact hk)
    where
      go :
          (o : Option ℕ)
          → o ≡ position hk m.items
          → Stands
              (elim o as (λ _. OMap K V × Option V) [
                | none ↦ (m, none)
                | some i ↦ (removed m hk i, OMap.value_at m.items i)
              ]).0
              (Dict.remove hk m.items)
      go none e = (sym (absent-remove hk m.items (sym e)), h)
      go (some i) e = (
        unfold removed in remove_at-position hk m.items i (sym e),
        removed-IsIndexed m hk i (sym e) h,
      )
  apply-Stands m journal_taken h = (refl, record { exact = h.exact; once = h.once })

  apply_all-Stands :
      (m : OMap K V) (cs : List (Change K V))
      → IsIndexed m
      → Stands (apply_all m cs) (change_all m.items cs)
  unfolding apply_all change_all
  apply_all-Stands m [] h = (refl, h)
  apply_all-Stands m (c ∷ cs) h =
      let (same, kept) = apply-Stands m c h in
      let (result, indexed) = apply_all-Stands (apply m c) cs kept in
      (result ∙ ap (λ d. change_all d cs) same, indexed)

  empty_map-IsIndexed : IsIndexed (empty_map {K = K} {V = V})
  unfolding empty_map position
  empty_map-IsIndexed = record { exact = λ k. refl; once = tt }

  -- What a map shows: its entries in their order, and what a key finds.
  pub record Shows (m : OMap K V) (d : Dict K V) : Type (ℓ ⊔ κ) where
    pub entries : m.items ≡ d
    pub found : (k : String) → OMap.get m k ≡ Dict.get k d
    pub taken : (k : String) → (remove m k).1 ≡ Dict.get k d
    pub known : (k : String) → OMap.contains m k ≡ is_some (Dict.get k d)

  is_some-position : (k : String) (d : Dict K V) → is_some (position k d) ≡ is_some (Dict.get k d)
  unfolding position Dict.get
  is_some-position k [] = refl
  is_some-position k ((j, key, v) ∷ d) = elim (Bool-cases (str_eq j k)) [
    | inl e ↦ rw e refl
    | inr e ↦ rw e (is_some-later (position k d) ∙ is_some-position k d)
  ]

  -- What a removal gives back.
  remove-value_of : (m : OMap K V) (k : String) → (remove m k).1 ≡ value_of m.items (m.index k)
  unfolding remove
  remove-value_of m k = go (m.index k)
    where
      go :
          (o : Option ℕ)
          → (elim o as (λ _. OMap K V × Option V) [
            | none ↦ (m, none)
            | some i ↦ (removed m k i, OMap.value_at m.items i)
          ]).1
            ≡ value_of m.items o
      go none = refl
      go (some i) = refl

  -- Whatever insertions, writes, removals and readings of the journal are made on an empty map,
  -- it shows what a plain list of entries shows after the same changes: the same entries in the
  -- same order, the same value and the same presence at every key, and the same value given back
  -- by a removal.
  pub apply_all-Shows : (cs : List (Change K V)) → Shows (apply_all empty_map cs) (change_all [] cs)
  unfolding empty_map OMap.get OMap.contains
  apply_all-Shows cs =
      let (same, indexed) = apply_all-Stands empty_map cs empty_map-IsIndexed in
      let m = apply_all empty_map cs in
      let found : (k : String) → value_of m.items (m.index k) ≡ Dict.get k (change_all [] cs) = λ k.
        ap (value_of m.items) (indexed.exact k)
        ∙ (value_of-position k m.items ∙ ap (Dict.get k) same) in
      record {
        entries = same;
        found = found;
        taken = λ k. remove-value_of m k ∙ found k;
        known = λ k.
            ap is_some (indexed.exact k)
            ∙ (is_some-position k m.items ∙ ap (λ d. is_some (Dict.get k d)) same);
      }
