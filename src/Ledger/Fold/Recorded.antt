-- ===== src/Ledger/Fold/Recorded.antt =====
-- The fills an account has recorded (crates/te_core/src/ledger/fold.rs).
use trade_engine.Base.{
  ◌≡◌, refl, sym, ap, subst, ◌∙◌, true, false, List, [], ◌∷◌, ◌++◌, map, String, ok, str_eq,
  str_eq_iff, if◌then◌else◌, arith,
}
use trade_engine.Base.OnOk.{OnOk, OnOk-of}
use trade_engine.Ledger.Model.{EventKind, Fill}
use trade_engine.Money.Order.{Decimals}
use trade_engine.Ledger.State.{AccountState, new_account, member, set_insert}
use trade_engine.Ledger.FillHandler.{on_fill}
use trade_engine.Ledger.FillHandler.Effect.{on_fill-Effect}
use trade_engine.Ledger.Lifecycle.{OptionLifecycle, on_lifecycle}
use trade_engine.Ledger.Lifecycle.Settled.{on_lifecycle-keeps}
use trade_engine.Ledger.Fold.{Event, fold_account}
use trade_engine.Ledger.Fold.Books.{Books, books, apply_event-preserves}
use trade_engine.Ledger.Fold.Always.{fold_account-Always}

-- No text occurs twice.
abbrev pub Distinct : List String → Type 0
Distinct [] = Unit {0}
Distinct (s ∷ ss) = (member s ss ≡ false) × Distinct ss

set_insert-fresh :
    (s : String) (ts : List String) → member s ts ≡ false → set_insert s ts ≡ ts ++ s ∷ []
set_insert-fresh s [] h = refl
set_insert-fresh s (t ∷ ts) h = ground (arith, set_insert-fresh s ts)

member-snoc :
    (s t : String) (ts : List String)
    → member s ts ≡ false
    → str_eq t s ≡ false
    → member s (ts ++ t ∷ []) ≡ false
member-snoc s t [] h k = rw k
member-snoc s t (u ∷ ts) h k = ground (arith, member-snoc s t ts)

Distinct-snoc :
    (t : String) (ts : List String) → Distinct ts → member t ts ≡ false → Distinct (ts ++ t ∷ [])
Distinct-snoc t [] h k = (refl, tt)
Distinct-snoc t (u ∷ ts) (new, rest) k =
    (member-snoc u t ts new (differ k), Distinct-snoc t ts rest (later k))
  where
    differ : (if str_eq u t then true else member t ts) ≡ false → str_eq t u ≡ false
    differ h = ground (arith, str_eq_iff u t, str_eq_iff t u)

    later : (if str_eq u t then true else member t ts) ≡ false → member t ts ≡ false
    later h = ground arith

-- The ids are those of the fills, in their order, and none occurs twice.
pub record IsRecorded (b : Books) : Type 0 where
  pub ids : b.fill_ids ≡ map (λ (f : Fill). f.fill_id) b.fills
  pub distinct : Distinct b.fill_ids

map-snoc :
    (f : Fill) (fs : List Fill)
    → map (λ (g : Fill). g.fill_id) (fs ++ f ∷ [])
      ≡ map (λ (g : Fill). g.fill_id) fs ++ f.fill_id ∷ []
map-snoc f [] = refl
map-snoc f (g ∷ fs) = ap (λ ids. g.fill_id ∷ ids) (map-snoc f fs)

module _ ⦃d : Decimals⦄ where
  on_fill-IsRecorded :
      (st : AccountState) (f : Fill)
      → IsRecorded (books st)
      → OnOk (λ t. IsRecorded (books t)) (on_fill st f)
  unfolding books
  on_fill-IsRecorded st f h = OnOk-of (on_fill st f) λ t e.
      let b = on_fill-Effect st f e in
      let ids : t.fill_ids ≡ st.fill_ids ++ f.fill_id ∷ [] =
        b.known ∙ set_insert-fresh f.fill_id st.fill_ids b.fresh in
      record {
        ids =
            ids
            ∙ (ap (λ is. is ++ f.fill_id ∷ []) h.ids
                ∙ (sym (map-snoc f st.fills)
                    ∙ ap (map (λ (g : Fill). g.fill_id)) (sym b.recorded)));
        distinct =
            subst Distinct (sym ids) (Distinct-snoc f.fill_id st.fill_ids h.distinct b.fresh);
      }

  on_lifecycle-IsRecorded :
      (st : AccountState) (n : OptionLifecycle) (k : EventKind)
      → IsRecorded (books st)
      → OnOk (λ t. IsRecorded (books t)) (on_lifecycle st n k)
  unfolding books
  on_lifecycle-IsRecorded st n k h =
      on_lifecycle-keeps (λ t. IsRecorded (books t)) st n k
        (λ s realized. record { ids = h.ids; distinct = h.distinct })

  new_account-IsRecorded : (account : String) → IsRecorded (books (new_account account))
  unfolding new_account books
  new_account-IsRecorded account = record { ids = refl; distinct = tt }

  -- In the state that a log folds to, the recorded ids are those of the fills booked, in their
  -- order, and no id occurs twice: a fill that is delivered again is never booked again (I3).
  pub fold_account-IsRecorded :
      (es : List Event) (account : String) {st : AccountState}
      → fold_account es account ≡ ok st
      → IsRecorded (books st)
  fold_account-IsRecorded =
      fold_account-Always (λ st. IsRecorded (books st)) new_account-IsRecorded
        (apply_event-preserves IsRecorded on_fill-IsRecorded on_lifecycle-IsRecorded)
