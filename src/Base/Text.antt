-- ===== src/Base/Text.antt =====
-- Texts as `format!` builds them: decimal numbers, padded with zeros to a width.
use Prim.Native.Nat.{ℕ, zero, suc, ◌+◌, ◌-◌, ◌/◌, ◌%◌}
use Prim.Native.Char.{Char, code}
use Prim.Native.String.{String, ◌++◌, len}
use Prim.Native.String.append
use mathlib.Core.Path.{◌≡◌, ap, ◌∙◌}
use mathlib.Core.List
use mathlib.Core.List.{List, [], ◌∷◌}
use mathlib.Core.Bool.{Bool, true, false}
use trade_engine.Base.Tests.{ltb, ◌==◌, if◌then◌else◌}
use trade_engine.Base.Int.{ℤ, pos, negsuc}

unfoldable pub digit_text : ℕ → String
digit_text zero = "0"
digit_text (suc zero) = "1"
digit_text (suc (suc zero)) = "2"
digit_text (suc (suc (suc zero))) = "3"
digit_text (suc (suc (suc (suc zero)))) = "4"
digit_text (suc (suc (suc (suc (suc zero))))) = "5"
digit_text (suc (suc (suc (suc (suc (suc zero)))))) = "6"
digit_text (suc (suc (suc (suc (suc (suc (suc zero))))))) = "7"
digit_text (suc (suc (suc (suc (suc (suc (suc (suc zero)))))))) = "8"
digit_text n = "9"

unfoldable pub show_from : ℕ → ℕ → String
unfolding digit_text
show_from zero n = digit_text n
show_from (suc f) n =
    let rest = show_from f (n / 10) ++ digit_text (n % 10) in
    if ltb n 10 then digit_text n else rest

-- `{n}` of an unsigned number.
unfoldable pub show : ℕ → String
unfolding show_from
show n = show_from n n

-- `{n}` of a signed number.
unfoldable pub show_ℤ : ℤ → String
unfolding show
show_ℤ (pos n) = show n
show_ℤ (negsuc n) = "-" ++ show (n + 1)

unfoldable pub zeros : ℕ → String
zeros zero = ""
zeros (suc n) = "0" ++ zeros n

-- `{n:0w}`
unfoldable pub pad : ℕ → ℕ → String
unfolding show zeros
pad w n = zeros (w - len (show n)) ++ show n

-- `<=` on texts: UTF-8 bytes are in the order of the code points.
unfoldable pub str_leb : String → String → Bool
str_leb String.[] t = true
str_leb (String.◌∷◌ c s) String.[] = false
str_leb (String.◌∷◌ c s) (String.◌∷◌ d t) =
    let rest = str_leb s t in if code c == code d then rest else ltb (code c) (code d)

-- The bytes of a character in UTF-8, and `String::len`.
unfoldable pub utf8_width : ℕ → ℕ
utf8_width n = if ltb n 128 then 1 else if ltb n 2048 then 2 else if ltb n 65536 then 3 else 4

unfoldable pub byte_len : String → ℕ
unfolding utf8_width
byte_len String.[] = 0
byte_len (String.◌∷◌ c s) = utf8_width (code c) + byte_len s

-- `.chars()`
unfoldable pub chars : String → List Char
chars String.[] = []
chars (String.◌∷◌ c s) = c ∷ chars s

pub chars-append : (s t : String) → chars (s ++ t) ≡ List.◌++◌ (chars s) (chars t)
unfolding chars
chars-append String.[] t = ap chars (append.nil t)
chars-append (String.◌∷◌ c s) t = ap chars (append.cons c s t) ∙ ap (λ r. c ∷ r) (chars-append s t)
