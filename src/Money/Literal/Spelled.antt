-- ===== src/Money/Literal/Spelled.antt =====
-- The decimal spelling of a number is read as its digits.
use Prim.Native.Char.{Char, code, len_utf8}
use Prim.Native.String.append
use Prim.Native.String.{String, ◌++◌, len}
use trade_engine.Base.{
  ℕ, zero, suc, ◌+◌, ◌-◌, ◌*◌, ◌/◌, ◌%◌, ◌≤◌, ◌<◌, ◌≡◌, refl, sym, ap, subst, ◌∙◌, false, some,
  List, [], ◌∷◌, length, length-append, arith, ltb, ltb→lt, ◌==◌, Bool-cases, inl, inr,
}
use mathlib.Core.List
use trade_engine.Base.Text.{digit_text, show_from, show, zeros, pad, chars, chars-append}
use trade_engine.Base.Powers.{pow10, pow10-zero, pow10-suc}
use trade_engine.Money.PyRules.{digit, is_space}
use trade_engine.Money.Literal.{coef_from, is_sign}
use trade_engine.Money.Literal.Digits.{Reads, Reads-append, len-Reads}
use trade_engine.Money.Literal.Significant.{coef_from-append}

made :
    (c : Char) (d : ℕ)
    → digit c ≡ some d
    → is_space c ≡ false
    → (code c == 95) ≡ false
    → is_sign c ≡ false
    → len_utf8 c ≡ 1
    → Reads (c ∷ []) (d ∷ [])
made c d reads shown kept unsigned narrow = (
  record {
    reads = reads;
    plain = record { shown = shown; kept = kept };
    unsigned = unsigned;
    narrow = narrow;
  },
  tt,
)

one_digit : (n : ℕ) → n < 10 → Reads (chars (digit_text n)) (n ∷ [])
unfolding chars digit_text digit is_space
one_digit zero h = made _ 0 refl refl refl refl refl
one_digit (suc zero) h = made _ 1 refl refl refl refl refl
one_digit (suc (suc zero)) h = made _ 2 refl refl refl refl refl
one_digit (suc (suc (suc zero))) h = made _ 3 refl refl refl refl refl
one_digit (suc (suc (suc (suc zero)))) h = made _ 4 refl refl refl refl refl
one_digit (suc (suc (suc (suc (suc zero))))) h = made _ 5 refl refl refl refl refl
one_digit (suc (suc (suc (suc (suc (suc zero)))))) h = made _ 6 refl refl refl refl refl
one_digit (suc (suc (suc (suc (suc (suc (suc zero))))))) h = made _ 7 refl refl refl refl refl
one_digit (suc (suc (suc (suc (suc (suc (suc (suc zero)))))))) h = made _ 8 refl refl refl refl refl
one_digit (suc (suc (suc (suc (suc (suc (suc (suc (suc zero))))))))) h =
    made _ 9 refl refl refl refl refl
one_digit (suc (suc (suc (suc (suc (suc (suc (suc (suc (suc n)))))))))) h = absurd (omega arith)

-- The digits of a number: their value, and no more of them than it needs.
pub record Digits (s : String) (n : ℕ) : Type 0 where
  pub values : List ℕ
  pub reads : Reads (chars s) values
  pub makes : coef_from 0 values ≡ n
  pub some : 0 < length values
  pub brief : (w : ℕ) → 0 < w → n < pow10 w → length values ≤ w

text-Digits : (n : ℕ) → n < 10 → Digits (digit_text n) n
unfolding coef_from
text-Digits n small = record {
  values = n ∷ [];
  reads = one_digit n small;
  makes = omega arith;
  some = omega arith;
  brief = λ w p h. omega arith;
}

pub zero-Digits : Digits "0" 0
unfolding digit_text
zero-Digits = text-Digits 0 (omega arith)

width_before : (n w : ℕ) → 10 ≤ n → n < pow10 w → 1 < w
width_before n zero big h = absurd (omega (arith, pow10-zero))
width_before n (suc zero) big h = absurd (omega (arith, pow10-suc 0, pow10-zero))
width_before n (suc (suc w)) big h = omega arith

-- One more digit behind the others.
more-Digits :
    (s t : String) (n : ℕ)
    → 10 ≤ n
    → Digits s (n / 10)
    → Reads (chars t) ((n % 10) ∷ [])
    → Digits (s ++ t) n
unfolding coef_from
more-Digits s t n big before last = record {
  values = List.◌++◌ before.values ((n % 10) ∷ []);
  reads =
      subst (λ cs. Reads cs (List.◌++◌ before.values ((n % 10) ∷ []))) (sym (chars-append s t))
        (Reads-append (chars s) (chars t) before.values ((n % 10) ∷ []) before.reads last);
  makes = omega (arith, coef_from-append 0 before.values ((n % 10) ∷ []), before.makes);
  some = omega (arith, length-append before.values ((n % 10) ∷ []));
  brief = λ w p h.
      let wide = width_before n w big h in
      let split : pow10 w ≡ 10 * pow10 (w - 1) = ap pow10 (predecessor w p) ∙ pow10-suc (w - 1) in
      omega (
        arith,
        length-append before.values ((n % 10) ∷ []),
        before.brief (w - 1) (omega arith) (omega arith),
      );
}
  where
    predecessor : (w : ℕ) → 0 < w → w ≡ suc (w - 1)
    predecessor w p = omega arith

show_from-Digits : (f n : ℕ) → n ≤ f → Digits (show_from f n) n
unfolding show_from
show_from-Digits zero n h = text-Digits n (omega arith)
show_from-Digits (suc f) n h = elim (Bool-cases (ltb n 10)) [
  | inl small ↦ rw (small, show_from) (text-Digits n (ltb→lt n 10 small))
  | inr large ↦
      let big : 10 ≤ n = ground arith in
      rw (large, show_from)
        (more-Digits (show_from f (n / 10)) (digit_text (n % 10)) n big
          (show_from-Digits f (n / 10) (omega arith)) (one_digit (n % 10) (omega arith)))
]

pub show-Digits : (n : ℕ) → Digits (show n) n
unfolding show
show-Digits n = show_from-Digits n n (omega arith)

-- Zeros in front.
zero_values : ℕ → List ℕ → List ℕ
zero_values zero ds = ds
zero_values (suc k) ds = 0 ∷ zero_values k ds

zeros-Reads :
    (k : ℕ) (s : String) (ds : List ℕ)
    → Reads (chars s) ds
    → Reads (chars (zeros k ++ s)) (zero_values k ds)
unfolding zeros zero_values chars digit_text
zeros-Reads zero s ds h = subst (λ t. Reads (chars t) ds) (sym (append.nil s)) h
zeros-Reads (suc k) s ds h =
    let cut : chars (zeros (suc k) ++ s) ≡ List.◌++◌ (chars "0") (chars (zeros k ++ s)) =
      chars-append ("0" ++ zeros k) s
      ∙ (ap (λ cs. List.◌++◌ cs (chars s)) (chars-append "0" (zeros k))
          ∙ ap (λ cs. List.◌++◌ (chars "0") cs) (sym (chars-append (zeros k) s))) in
    subst (λ cs. Reads cs (0 ∷ zero_values k ds)) (sym cut)
      (Reads-append (chars "0") (chars (zeros k ++ s)) (0 ∷ []) (zero_values k ds)
        (one_digit 0 (omega arith)) (zeros-Reads k s ds h))

coef_from-zero_values : (k : ℕ) (ds : List ℕ) → coef_from 0 (zero_values k ds) ≡ coef_from 0 ds
unfolding zero_values coef_from
coef_from-zero_values zero ds = refl
coef_from-zero_values (suc k) ds = coef_from-zero_values k ds

length-zero_values : (k : ℕ) (ds : List ℕ) → length (zero_values k ds) ≡ k + length ds
unfolding zero_values
length-zero_values zero ds = omega arith
length-zero_values (suc k) ds = omega (arith, length-zero_values k ds)

-- As many digits as there are places, with the number's value.
pub record Places (s : String) (w n : ℕ) : Type 0 where
  pub values : List ℕ
  pub reads : Reads (chars s) values
  pub makes : coef_from 0 values ≡ n
  pub width : length values ≡ w

pub zeros-Places : (w n : ℕ) → len (show n) ≤ w → Places (zeros (w - len (show n)) ++ show n) w n
zeros-Places w n h =
    let d = show-Digits n in
    let k = w - len (show n) in
    record {
      values = zero_values k d.values;
      reads = zeros-Reads k (show n) d.values d.reads;
      makes = coef_from-zero_values k d.values ∙ d.makes;
      width = omega (arith, length-zero_values k d.values, len-Reads (show n) d.values d.reads);
    }

pub pad-Places : (w n : ℕ) → 0 < w → n < pow10 w → Places (pad w n) w n
unfolding pad
pad-Places w n p h =
    let d = show-Digits n in
    zeros-Places w n (omega (arith, len-Reads (show n) d.values d.reads, d.brief w p h))
