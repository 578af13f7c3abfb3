-- ===== src/Money/Literal/Digits.antt =====
-- Characters that are read as digits (crates/te_core/src/money.rs, `try_parse`).
use Prim.Native.Char.{Char, code, len_utf8}
use Prim.Native.String.len as len_by
use Prim.Native.String.{String, len}
use trade_engine.Base.{ℕ, ◌≡◌, refl, ap, ◌∙◌, false, some, List, [], ◌∷◌, ◌++◌, length, arith, ◌==◌}
use trade_engine.Base.Text.{chars}
use trade_engine.Money.PyRules.{digit, is_space, trim_start, trim_end, strip}
use trade_engine.Money.Literal.{drop_underscores, is_sign, take_digits}

-- A character that neither the strip nor the filter takes away.
pub record IsPlain (c : Char) : Type 0 where
  pub shown : is_space c ≡ false
  pub kept : (code c == 95) ≡ false

pub record IsDigit (c : Char) (d : ℕ) : Type 0 where
  pub reads : digit c ≡ some d
  pub plain : IsPlain c
  pub unsigned : is_sign c ≡ false
  pub narrow : len_utf8 c ≡ 1

abbrev pub AllPlain : List Char → Type 0
AllPlain [] = Unit
AllPlain (c ∷ cs) = IsPlain c × AllPlain cs

-- The characters are read as these digits, each as one.
abbrev pub Reads : List Char → List ℕ → Type 0
Reads [] [] = Unit
Reads [] (d ∷ ds) = ⊥
Reads (c ∷ cs) [] = ⊥
Reads (c ∷ cs) (d ∷ ds) = IsDigit c d × Reads cs ds

pub Reads-append :
    (xs ys : List Char) (ds es : List ℕ) → Reads xs ds → Reads ys es → Reads (xs ++ ys) (ds ++ es)
Reads-append [] ys [] es h k = k
Reads-append [] ys (d ∷ ds) es h k = absurd h
Reads-append (x ∷ xs) ys [] es h k = absurd h
Reads-append (x ∷ xs) ys (d ∷ ds) es h k = (h.0, Reads-append xs ys ds es h.1 k)

pub Reads-AllPlain : (xs : List Char) (ds : List ℕ) → Reads xs ds → AllPlain xs
Reads-AllPlain [] ds h = tt
Reads-AllPlain (x ∷ xs) [] h = absurd h
Reads-AllPlain (x ∷ xs) (d ∷ ds) h = (h.0.plain, Reads-AllPlain xs ds h.1)

pub AllPlain-append : (xs ys : List Char) → AllPlain xs → AllPlain ys → AllPlain (xs ++ ys)
AllPlain-append [] ys h k = k
AllPlain-append (x ∷ xs) ys h k = (h.0, AllPlain-append xs ys h.1 k)

-- One byte for each digit.
pub len-Reads : (s : String) (ds : List ℕ) → Reads (chars s) ds → len s ≡ length ds
unfolding chars
len-Reads String.[] [] h = len_by.nil
len-Reads String.[] (d ∷ ds) h = absurd h
len-Reads (String.◌∷◌ c s) [] h = absurd h
len-Reads (String.◌∷◌ c s) (d ∷ ds) h =
    omega (arith, len_by.cons c s, h.0.narrow, len-Reads s ds h.1)

-- The digits are taken up to what is no digit.
pub take_digits-Reads :
    (xs : List Char) (ds : List ℕ) (rest : List Char)
    → Reads xs ds
    → take_digits rest ≡ ([], rest)
    → take_digits (xs ++ rest) ≡ (ds, rest)
unfolding take_digits
take_digits-Reads [] [] rest h stop = stop
take_digits-Reads [] (d ∷ ds) rest h stop = absurd h
take_digits-Reads (x ∷ xs) [] rest h stop = absurd h
take_digits-Reads (x ∷ xs) (d ∷ ds) rest h stop =
    rw (h.0.reads, take_digits) (ap (λ r. (d ∷ r.0, r.1)) (take_digits-Reads xs ds rest h.1 stop))

trim_start-AllPlain : (xs : List Char) → AllPlain xs → trim_start xs ≡ xs
unfolding trim_start
trim_start-AllPlain [] h = refl
trim_start-AllPlain (x ∷ xs) h = rw (h.0.shown) refl

trim_end-AllPlain : (xs : List Char) → AllPlain xs → trim_end xs ≡ xs
unfolding trim_end
trim_end-AllPlain [] h = refl
trim_end-AllPlain (x ∷ xs) h = rw (h.0.shown) (ap (λ r. x ∷ r) (trim_end-AllPlain xs h.1))

drop_underscores-AllPlain : (xs : List Char) → AllPlain xs → drop_underscores xs ≡ xs
unfolding drop_underscores
drop_underscores-AllPlain [] h = refl
drop_underscores-AllPlain (x ∷ xs) h =
    rw (h.0.kept) (ap (λ r. x ∷ r) (drop_underscores-AllPlain xs h.1))

-- Plain characters are read as they are.
pub cleaned-AllPlain : (xs : List Char) → AllPlain xs → drop_underscores (strip xs) ≡ xs
unfolding strip
cleaned-AllPlain xs h =
    ap (λ t. drop_underscores (trim_end t)) (trim_start-AllPlain xs h)
    ∙ (ap drop_underscores (trim_end-AllPlain xs h) ∙ drop_underscores-AllPlain xs h)
