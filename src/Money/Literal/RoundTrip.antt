-- ===== src/Money/Literal/RoundTrip.antt =====
-- The canonical spelling of a number is read back (crates/te_core/src/money.rs: `canon` and
-- `try_parse`).
use Prim.Native.Char.{Char}
use Prim.Native.String.append
use Prim.Native.String.{String, ◌++◌, len}
use trade_engine.Base.{
  ℕ, ◌+◌, ◌-◌, ◌*◌, ◌/◌, ◌%◌, ◌≤◌, ◌<◌, ◌≡◌, refl, sym, ap, subst, ◌∙◌, Bool, true, false, ◌&&◌,
  List, [], ◌∷◌, length, ok, arith, ltb, ◌==◌, ==_iff, if◌then◌else◌, Bool-cases, inl, inr,
}
use mathlib.Core.List
use trade_engine.Base.Int.{pos, pos_part, neg_part, sub_ℕ, ◌-ℤ◌}
use trade_engine.Base.Text.{show, zeros, pad, chars, chars-append}
use trade_engine.Base.Powers.{pow10, pow10-pos}
use trade_engine.Money.Decimal.{Money}
use trade_engine.Money.Arithmetic.{parts_neg}
use trade_engine.Money.Canonical.{IsCanonical}
use trade_engine.Money.PyRules.{digit, is_space, is_empty, strip}
use trade_engine.Money.Literal.{
  read_sign, take_digits, read_fraction, read_exponent, finish_literal, coef_from, from_digits,
  read_number, try_parse, drop_underscores,
}
use trade_engine.Money.Literal.Digits.{
  Reads, IsPlain, AllPlain, AllPlain-append, Reads-AllPlain, take_digits-Reads, cleaned-AllPlain,
}
use trade_engine.Money.Literal.Significant.{
  from_digits-canonical, coef_from-append, coef_from_shift,
}
use trade_engine.Money.Literal.Spelled.{
  Digits, zero-Digits, show-Digits, Places, zeros-Places, pad-Places,
}
use trade_engine.Money.Spelling.{canon}
use native.Mathlib.Nat.{div-add-mod', mod-lt}

append-nil : (xs : List Char) → List.◌++◌ xs [] ≡ xs
append-nil [] = refl
append-nil (x ∷ xs) = ap (λ r. x ∷ r) (append-nil xs)

take_digits-all : (xs : List Char) (ds : List ℕ) → Reads xs ds → take_digits xs ≡ (ds, [])
unfolding take_digits
take_digits-all xs ds h = ap take_digits (sym (append-nil xs)) ∙ take_digits-Reads xs ds [] h refl

-- A text that is read as the number: no sign in front, nothing that is taken away.
record Body (s : String) (m : Money) : Type 0 where
  unsigned : read_sign (chars s) ≡ (false, chars s)
  plain : AllPlain (chars s)
  number : read_number m.neg (chars s) ≡ ok m

unsigned-Reads :
    (xs rest : List Char) (ds : List ℕ)
    → Reads xs ds
    → 0 < length ds
    → read_sign (List.◌++◌ xs rest) ≡ (false, List.◌++◌ xs rest)
unfolding read_sign
unsigned-Reads [] rest [] h p = absurd (omega arith)
unsigned-Reads [] rest (d ∷ ds) h p = absurd h
unsigned-Reads (x ∷ xs) rest [] h p = absurd h
unsigned-Reads (x ∷ xs) rest (d ∷ ds) h p = rw (h.0.unsigned) refl

some_digits : (ds es : List ℕ) → 0 < length ds → (is_empty ds && is_empty es) ≡ false
some_digits [] es p = absurd (omega arith)
some_digits (d ∷ ds) es p = refl

in_range :
    (n : ℕ)
    → n ≤ 28
    → ltb 999999999999999999 (pos_part (pos 0 -ℤ pos n) + neg_part (pos 0 -ℤ pos n)) ≡ false
unfolding ◌-ℤ◌
in_range n h = ground arith

negated : (n : ℕ) → pos 0 -ℤ pos n ≡ sub_ℕ 0 n
unfolding ◌-ℤ◌
negated n = ground arith

read_whole :
    (neg : Bool) (xs : List Char) (ds : List ℕ)
    → Reads xs ds
    → 0 < length ds
    → read_number neg xs ≡ from_digits neg (List.◌++◌ ds []) (sub_ℕ 0 0)
unfolding read_number read_fraction read_exponent finish_literal
read_whole neg xs ds h p =
    rw (take_digits-all xs ds h, some_digits ds [] p, in_range 0 (omega arith), negated 0) refl

abbrev dot : Char
dot = "."

read_point :
    (neg : Bool) (xs ys : List Char) (ds es : List ℕ)
    → Reads xs ds
    → Reads ys es
    → 0 < length ds
    → length es ≤ 28
    → read_number neg (List.◌++◌ xs (dot ∷ ys))
      ≡ from_digits neg (List.◌++◌ ds es) (sub_ℕ 0 (length es))
unfolding read_number read_fraction read_exponent finish_literal take_digits digit
read_point neg xs ys ds es h k p few =
    rw
      (
        take_digits-Reads xs ds (dot ∷ ys) h refl,
        take_digits-all ys es k,
        some_digits ds es p,
        in_range (length es) few,
        negated (length es),
      )
      refl

Body-whole : (m : Money) (s : String) → IsCanonical m → m.scale ≡ 0 → Digits s m.coef → Body s m
Body-whole m s h z d = record {
  unsigned =
      subst (λ cs. read_sign cs ≡ (false, cs)) (append-nil (chars s))
        (unsigned-Reads (chars s) [] d.values d.reads d.some);
  plain = Reads-AllPlain (chars s) d.values d.reads;
  number =
      read_whole m.neg (chars s) d.values d.reads d.some
      ∙ (ap (λ n. from_digits m.neg (List.◌++◌ d.values []) (sub_ℕ 0 n)) (sym z)
          ∙ from_digits-canonical m (List.◌++◌ d.values []) h
              (coef_from-append 0 d.values [] ∙ (unfold coef_from in d.makes)));
}

dot-IsPlain : IsPlain dot
unfolding is_space
dot-IsPlain = record { shown = refl; kept = refl }

minus-IsPlain : IsPlain "-"
unfolding is_space
minus-IsPlain = record { shown = refl; kept = refl }

cut_point : (w p : String) → chars (w ++ "." ++ p) ≡ List.◌++◌ (chars w) (dot ∷ chars p)
unfolding chars
cut_point w p = chars-append w ("." ++ p) ∙ ap (λ cs. List.◌++◌ (chars w) cs) (chars-append "." p)

Body-point :
    (m : Money) (w p : String) (whole part : ℕ)
    → IsCanonical m
    → Digits w whole
    → Places p m.scale part
    → whole * pow10 m.scale + part ≡ m.coef
    → Body (w ++ "." ++ p) m
Body-point m w p whole part h d e v =
    let cut = cut_point w p in
    let read =
      read_point m.neg (chars w) (chars p) d.values e.values d.reads e.reads d.some
        (omega (arith, e.width, h.fine)) in
    record {
      unsigned =
          subst (λ cs. read_sign cs ≡ (false, cs)) (sym cut)
            (unsigned-Reads (chars w) (dot ∷ chars p) d.values d.reads d.some);
      plain = subst AllPlain (sym cut) (
          AllPlain-append (chars w) (dot ∷ chars p) (Reads-AllPlain (chars w) d.values d.reads)
            (dot-IsPlain, Reads-AllPlain (chars p) e.values e.reads));
      number =
          ap (read_number m.neg) cut
          ∙ (read
              ∙ (ap (λ n. from_digits m.neg (List.◌++◌ d.values e.values) (sub_ℕ 0 n)) e.width
                  ∙ from_digits-canonical m (List.◌++◌ d.values e.values) h value));
    }
  where
    value : coef_from 0 (List.◌++◌ d.values e.values) ≡ m.coef
    value =
        coef_from-append 0 d.values e.values
        ∙ (coef_from_shift (coef_from 0 d.values) e.values ∙ rw (d.makes, e.makes, e.width) v)

-- The sign is read, and then the number.
signed :
    (m : Money) (s : String) (b : Bool)
    → b ≡ m.neg
    → Body s m
    → try_parse ((if b then "-" else "") ++ s) ≡ ok m
unfolding try_parse chars read_sign
signed m s true e h =
    let spelled : chars ("-" ++ s) ≡ "-" ∷ chars s = chars-append "-" s in
    ap (λ cs. read_number (read_sign cs).0 (read_sign cs).1)
      (ap (λ cs. drop_underscores (strip cs)) spelled
        ∙ cleaned-AllPlain ("-" ∷ chars s) (minus-IsPlain, h.plain))
    ∙ (ap (λ n. read_number n (chars s)) e ∙ h.number)
signed m s false e h =
    ap
      (λ t.
        read_number (read_sign (drop_underscores (strip (chars t)))).0
          (read_sign (drop_underscores (strip (chars t)))).1)
      (append.nil s)
    ∙ (ap (λ cs. read_number (read_sign cs).0 (read_sign cs).1) (cleaned-AllPlain (chars s) h.plain)
        ∙ (ap (λ r. read_number r.0 r.1) h.unsigned
            ∙ (ap (λ n. read_number n (chars s)) e ∙ h.number)))

sign_of : (m : Money) → IsCanonical m → parts_neg m ≡ m.neg
sign_of m h = elim (Bool-cases (m.coef == 0)) [
  | inl z ↦ let (scale, neg) = h.unsigned ((==_iff m.coef 0).0 z) in ground (arith, z, neg)
  | inr p ↦ ground (arith, p)
]

zero_point : (s : String) → "0." ++ s ≡ "0" ++ "." ++ s
zero_point s =
    append.cons "0" "." s
    ∙ sym (append.cons "0" "" ("." ++ s) ∙ ap (String.◌∷◌ "0") (append.nil ("." ++ s)))

-- The canonical text of any canonical number is parsed, without a refusal, to that same number.
pub try_parse-canon : (m : Money) → IsCanonical m → try_parse (canon m) ≡ ok m
unfolding canon
try_parse-canon m h = elim (Bool-cases (m.scale == 0)) [
  | inl z ↦
      rw (z, canon)
        (signed m (show m.coef) (parts_neg m) (sign_of m h)
          (Body-whole m (show m.coef) h ((==_iff m.scale 0).0 z) (show-Digits m.coef)))
  | inr some_scale ↦
      let places : 0 < m.scale = ground arith in
      elim (Bool-cases (ltb m.scale (len (show m.coef)))) [
        | inl long ↦
            rw (some_scale, long, canon)
              (signed m _ (parts_neg m) (sign_of m h) (
                Body-point m (show (m.coef / pow10 m.scale)) (pad m.scale (m.coef % pow10 m.scale))
                  _ _ h (show-Digits (m.coef / pow10 m.scale))
                  (pad-Places m.scale (m.coef % pow10 m.scale) places
                    (mod-lt m.coef (pow10-pos m.scale)))
                  (div-add-mod' m.coef (pow10 m.scale))))
        | inr short ↦
            let digits = zeros (m.scale - len (show m.coef)) ++ show m.coef in
            rw (some_scale, short, canon)
              (subst (λ t. try_parse ((if parts_neg m then "-" else "") ++ t) ≡ ok m)
                (sym (zero_point digits))
                (signed m ("0" ++ "." ++ digits) (parts_neg m) (sign_of m h) (
                  Body-point m "0" digits 0 m.coef h zero-Digits
                    (zeros-Places m.scale m.coef (ground arith)) (omega arith))))
      ]
]
