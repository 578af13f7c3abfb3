-- ===== src/Ledger/Mirror/Entries.antt =====
-- The maps of the venue mirror under its steps (crates/te_core/src/ledger/mirror.rs).
use trade_engine.Base.{
  ◌≡◌, refl, sym, subst, ◌∙◌, Bool, true, false, ◌||◌, some, List, [], ◌∷◌, String, ok, inl, inr,
  arith, str_eq, str_eq_iff, if◌then◌else◌, if_true, if_false, Bool-cases, some_inj,
}
use trade_engine.Ledger.Dict.{Dict, get, contains, insert, put, get-insert}
use trade_engine.Ledger.Mirror.{MirrorAllocation, MirrorState, check_fresh, put_queued}

-- What is said of every entry holds after one more is put in.
pub entries-put {ℓ κ} :
    {V : Type ℓ} (P : String → V → Type κ) (k : String) (v : V) (d : Dict String V)
    → ((j : String) (w : V) → get j d ≡ some w → P j w)
    → P k v
    → (j : String) (w : V) → get j (put k v d) ≡ some w
    → P j w
unfolding put
entries-put P k v d old new j w h = elim (Bool-cases (str_eq k j)) [
  | inl e ↦
      let found : some v ≡ some w = sym (get-insert k j k v d ∙ if_true (str_eq k j) _ e) ∙ h in
      subst (λ i. P i w) ((str_eq_iff k j).0 e) (subst (P k) (some_inj found) new)
  | inr e ↦ old j w (sym (get-insert k j k v d ∙ if_false (str_eq k j) _ e) ∙ h)
]

-- The ticket names the strategy order.
abbrev pub names_order : String → List MirrorAllocation → Bool
names_order oid [] = false
names_order oid (a ∷ as') = str_eq a.strategy_order_id oid || names_order oid as'

pub get-put_queued :
    (oid key : String) (as' : List MirrorAllocation) (d : Dict String String)
    → get oid (put_queued as' key d) ≡ (if names_order oid as' then some key else get oid d)
unfolding put_queued put
get-put_queued oid key [] d = refl
get-put_queued oid key (a ∷ as') d = ground (
  arith,
  get-put_queued oid key as' (put a.strategy_order_id key d),
  get-insert a.strategy_order_id oid a.strategy_order_id key d,
)

pub contains-put :
    (oid j v : String) (d : Dict String String)
    → contains oid (put j v d) ≡ (if str_eq j oid then true else contains oid d)
unfolding put contains insert
contains-put oid j v [] = refl
contains-put oid j v ((i, old, w) ∷ d) =
    ground (arith, str_eq_iff i j, str_eq_iff i oid, str_eq_iff j oid, contains-put oid j v d)

pub contains-put_queued :
    (oid key : String) (as' : List MirrorAllocation) (d : Dict String String)
    → contains oid (put_queued as' key d) ≡ (if names_order oid as' then true else contains oid d)
unfolding put_queued
contains-put_queued oid key [] d = refl
contains-put_queued oid key (a ∷ as') d = ground (
  arith,
  contains-put_queued oid key as' (put a.strategy_order_id key d),
  contains-put oid a.strategy_order_id key d,
)

-- The orders of a ticket that passed the test are known neither way.
pub check_fresh-unknown :
    (st : MirrorState) (as' : List MirrorAllocation)
    → check_fresh st as' ≡ ok tt
    → (oid : String) → names_order oid as' ≡ true
    → (contains oid st.queued_orders ≡ false) × (contains oid st.refused_orders ≡ false)
unfolding check_fresh
check_fresh-unknown st [] h oid k = cc
check_fresh-unknown st (a ∷ as') h oid k = (
  ground (
    arith,
    str_eq_iff a.strategy_order_id oid,
    λ (g : check_fresh st as' ≡ ok tt) (n : names_order oid as' ≡ true).
        (check_fresh-unknown st as' g oid n).0,
  ),
  ground (
    arith,
    str_eq_iff a.strategy_order_id oid,
    λ (g : check_fresh st as' ≡ ok tt) (n : names_order oid as' ≡ true).
        (check_fresh-unknown st as' g oid n).1,
  ),
)
