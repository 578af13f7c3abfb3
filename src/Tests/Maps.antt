-- ===== src/Tests/Maps.antt =====
-- A map of two keys, one of them written again (crates/te_core/src/ledger/ops.rs).
use trade_engine.Base.{ℕ, ◌≡◌, refl, List, [], ◌∷◌, String, get_elem?}
use trade_engine.Ledger.OMap.{OMap, empty_map, take_journal}
use trade_engine.Ledger.OMap.Refines.{
  Change, insertion, write, removal, apply_all, change_all, Shows, apply_all-Shows,
}
use trade_engine.Ledger.OMap.Journal.{since_taken, journal_names}

changes : List (Change String ℕ)
changes =
    insertion "a" "a" 1
    ∷ insertion "b" "b" 2
    ∷ write "a" (λ n. 5)
    ∷ removal "b"
    ∷ insertion "b" "b" 7
    ∷ []

apply_all-Shows_example : Shows (apply_all empty_map changes) (change_all [] changes)
apply_all-Shows_example = apply_all-Shows changes

abbrev two_keys : OMap String ℕ
two_keys = apply_all empty_map (insertion "a" "a" 1 ∷ insertion "b" "b" 2 ∷ [])

abbrev more_written : List (Change String ℕ)
more_written = write "b" (λ n. 9) ∷ insertion "c" "c" 3 ∷ []

-- The entry of "a" is not in the journal, and is as it was.
journal_names_example :
    get_elem? (since_taken two_keys more_written).items 0 ≡ get_elem? two_keys.items 0
unfolding apply_all trade_engine.Ledger.OMap.Refines.apply take_journal
    trade_engine.Ledger.OMap.insert trade_engine.Ledger.OMap.get_mut empty_map
    trade_engine.Ledger.OMap.is_dirty
journal_names_example = journal_names two_keys more_written tt refl 0 refl
