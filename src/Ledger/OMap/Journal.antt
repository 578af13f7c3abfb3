-- ===== src/Ledger/OMap/Journal.antt =====
-- The journal of a map names every position that may differ (`OMap::take_journal` of
-- crates/te_core/src/ledger/ops.rs).
use trade_engine.Base.{
  ℕ, zero, suc, ◌≡◌, refl, sym, ap, ◌∙◌, true, false, Option, none, some, List, [], ◌∷◌, ◌++◌,
  String, length, get_elem?, ◌==◌, arith, if◌then◌else◌, if_false,
}
use trade_engine.Ledger.Dict.{Dict}
use trade_engine.Ledger.OMap
use trade_engine.Ledger.OMap.{
  OMap, mark_dirty, is_dirty, write_at, remove_at, written, pushed, removed, get_mut, insert,
  remove, take_journal,
}
use trade_engine.Ledger.OMap.Refines.{
  Change, insertion, write, removal, journal_taken, apply, apply_all,
}

-- A position is in the journal once it is put there, and the others are as they were.
is_dirty-mark_dirty :
    (i j : ℕ) (js : List ℕ)
    → is_dirty j (mark_dirty i js) ≡ (if j == i then true else is_dirty j js)
unfolding mark_dirty is_dirty
is_dirty-mark_dirty i j [] = refl
is_dirty-mark_dirty i j (k ∷ ks) = ground (arith, is_dirty-mark_dirty i j ks)

unmarked :
    (i j : ℕ) (js : List ℕ)
    → is_dirty j (mark_dirty i js) ≡ false
    → ((j == i) ≡ false) × (is_dirty j js ≡ false)
unmarked i j js h = let e = is_dirty-mark_dirty i j js in (ground arith, ground arith)

module _ {ℓ κ} {K : Type ℓ} {V : Type κ} where
  write_at-elsewhere :
      (i j : ℕ) (f : V → V) (d : Dict K V)
      → (j == i) ≡ false
      → get_elem? (write_at i f d) j ≡ get_elem? d j
  unfolding write_at
  write_at-elsewhere i j f [] h = refl
  write_at-elsewhere zero zero f (x ∷ d) h = cc
  write_at-elsewhere zero (suc j) f (x ∷ d) h = refl
  write_at-elsewhere (suc i) zero f (x ∷ d) h = refl
  write_at-elsewhere (suc i) (suc j) f (x ∷ d) h = write_at-elsewhere i j f d (ground arith)

  append-elsewhere :
      (x : String × K × V) (j : ℕ) (d : Dict K V)
      → (j == length d) ≡ false
      → get_elem? (d ++ x ∷ []) j ≡ get_elem? d j
  append-elsewhere x zero [] h = cc
  append-elsewhere x (suc j) [] h = refl
  append-elsewhere x zero (y ∷ d) h = refl
  append-elsewhere x (suc j) (y ∷ d) h = append-elsewhere x j d (ground arith)

  -- Without a rebuild, an entry at a position that is not in the journal is as in `d`.
  abbrev pub Names : Dict K V → OMap K V → Type (ℓ ⊔ κ)
  Names d m =
      m.rebuilt ≡ false → (j : ℕ) → is_dirty j m.dirty ≡ false → get_elem? m.items j ≡ get_elem? d j

  written-Names :
      (d : Dict K V) (m : OMap K V) (i : ℕ) (f : V → V) → Names d m → Names d (written m i f)
  unfolding written
  written-Names d m i f h calm j free =
      let (apart, before) = unmarked i j m.dirty free in
      write_at-elsewhere i j f m.items apart ∙ h calm j before

  pushed-Names :
      (d : Dict K V) (m : OMap K V) (hk : String) (key : K) (v : V)
      → Names d m
      → Names d (pushed m hk key v)
  unfolding pushed
  pushed-Names d m hk key v h calm j free =
      let (apart, before) = unmarked (length m.items) j m.dirty free in
      append-elsewhere (hk, key, v) j m.items apart ∙ h calm j before

  -- No journal is taken among the changes.
  abbrev pub Untaken : List (Change K V) → Type 0
  Untaken [] = Unit {0}
  Untaken (insertion hk key v ∷ cs) = Untaken cs
  Untaken (write hk f ∷ cs) = Untaken cs
  Untaken (removal hk ∷ cs) = Untaken cs
  Untaken (journal_taken ∷ cs) = ⊥

  apply_all-Names :
      (d : Dict K V) (m : OMap K V) (cs : List (Change K V))
      → Untaken cs
      → Names d m
      → Names d (apply_all m cs)
  unfolding apply_all apply insert get_mut remove
  apply_all-Names d m [] u h = h
  apply_all-Names d m (insertion hk key v ∷ cs) u h =
      apply_all-Names d (insert m hk key v) cs u (go (m.index hk))
    where
      go :
          (o : Option ℕ)
          → Names d (elim o [ none ↦ pushed m hk key v | some i ↦ written m i (λ w. v) ])
      go none = pushed-Names d m hk key v h
      go (some i) = written-Names d m i (λ w. v) h
  apply_all-Names d m (write hk f ∷ cs) u h =
      apply_all-Names d (get_mut m hk f) cs u (go (m.index hk))
    where
      go : (o : Option ℕ) → Names d (elim o [ none ↦ m | some i ↦ written m i f ])
      go none = h
      go (some i) = written-Names d m i f h
  apply_all-Names d m (removal hk ∷ cs) u h =
      apply_all-Names d (remove m hk).0 cs u (go (m.index hk))
    where
      go :
          (o : Option ℕ)
          → Names d
              (elim o as (λ _. OMap K V × Option V) [
                | none ↦ (m, none)
                | some i ↦ (removed m hk i, OMap.value_at m.items i)
              ]).0
      go none = h
      go (some i) = unfold removed in λ calm. cc
  apply_all-Names d m (journal_taken ∷ cs) u h = absurd u

  -- The changes between two readings of the journal.
  abbrev pub since_taken : OMap K V → List (Change K V) → OMap K V
  since_taken m cs = apply_all (take_journal m).0 cs

  taken-Names : (m : OMap K V) → Names m.items (take_journal m).0
  unfolding take_journal
  taken-Names m calm j free = refl

  -- Between two readings of the journal, whatever insertions, writes and removals are made: if
  -- the second reading does not say that the map was rebuilt, then at every position that it does
  -- not name, past the end included, the map has exactly what it had at the first reading.
  pub journal_names :
      (m : OMap K V) (cs : List (Change K V))
      → Untaken cs
      → (take_journal (since_taken m cs)).1 ≡ false
      → (j : ℕ) → is_dirty j (take_journal (since_taken m cs)).2 ≡ false
      → get_elem? (since_taken m cs).items j ≡ get_elem? m.items j
  unfolding take_journal
  journal_names m cs u calm j free =
      apply_all-Names m.items (take_journal m).0 cs u (taken-Names m) calm j
        (ap (is_dirty j) (sym (if_false (since_taken m cs).rebuilt [] calm)) ∙ free)
