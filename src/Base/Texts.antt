-- ===== src/Base/Texts.antt =====
-- Texts: f-strings, `str` of a number, and the test for equal texts.
use Prim.Native.Nat.{ℕ, zero, suc, ◌/◌, ◌%◌}
use Prim.Native.String.{String}
use Prim.Native.String
use mathlib.Core.Bool.{Bool}
use mathlib.Core.List.{List, [], ◌∷◌}
use text.Mathlib.Text.{◌==◌}
use fetcharr.Base.Tests.{ltb, if◌then◌else◌}

-- An f-string is the list of its pieces.
abbrev pub cat : List String → String
cat [] = ""
cat (s ∷ rest) = String.◌++◌ s (cat rest)

abbrev pub str_eq : String → String → Bool
str_eq s t = s == t

-- `separator.join(parts)`
abbrev pub join : String → List String → String
join separator [] = ""
join separator (s ∷ []) = s
join separator (s ∷ t ∷ rest) = cat (s ∷ separator ∷ join separator (t ∷ rest) ∷ [])

digit : ℕ → String
digit zero = "0"
digit (suc zero) = "1"
digit (suc (suc zero)) = "2"
digit (suc (suc (suc zero))) = "3"
digit (suc (suc (suc (suc zero)))) = "4"
digit (suc (suc (suc (suc (suc zero))))) = "5"
digit (suc (suc (suc (suc (suc (suc zero)))))) = "6"
digit (suc (suc (suc (suc (suc (suc (suc zero))))))) = "7"
digit (suc (suc (suc (suc (suc (suc (suc (suc zero)))))))) = "8"
digit _ = "9"

show_from : ℕ → ℕ → String → String
show_from zero n rest = rest
show_from (suc f) n rest =
    let text = cat (digit (n % 10) ∷ rest ∷ []) in
    let more = show_from f (n / 10) text in if ltb n 10 then text else more

-- `str(n)`, in decimal; `n + 1` rounds are more than its digits.
unfoldable pub show : ℕ → String
unfolding show_from digit
show n = show_from (suc n) n ""
