-- ===== src/Base/Chars.antt =====
-- Texts that the program takes apart: lists of code points.
use Prim.Native.Nat.{ℕ, zero, suc, ◌+◌, ◌*◌, ◌/◌, ◌%◌, ◌-◌, ◌<◌}
use Prim.Native.Char.{code}
use Prim.Native.String.{String}
use mathlib.Core.Path.{◌≡◌, refl, sym, ap, ◌∙◌}
use mathlib.Core.Logic.{◌↔◌, inl, inr}
use mathlib.Core.Bool.{Bool, true, false, ◌&&◌}
use mathlib.Core.Option.{Option, none, some}
use mathlib.Core.List.{List, [], ◌∷◌, ◌++◌}
use native.Mathlib.Omega.{arith}
use fetcharr.Base.Tests.{◌==◌, ltb, Bool-cases, if◌then◌else◌}

abbrev pub Text : Type 0
Text = List ℕ

-- The code points of a literal.
abbrev pub codes : String → Text
codes String.[] = []
codes (String.◌∷◌ c s) = code c ∷ codes s

abbrev pub text_eq : Text → Text → Bool
text_eq [] [] = true
text_eq [] (_ ∷ _) = false
text_eq (_ ∷ _) [] = false
text_eq (c ∷ s) (d ∷ t) = (c == d) && text_eq s t

pub text_eq_iff : (s t : Text) → (text_eq s t ≡ true) ↔ (s ≡ t)
text_eq_iff [] [] = ground arith
text_eq_iff [] (d ∷ t) = ground arith
text_eq_iff (c ∷ s) [] = ground arith
text_eq_iff (c ∷ s) (d ∷ t) = ground (arith, text_eq_iff s t)

-- `text.startswith(prefix)`, as what follows the prefix
abbrev pub after_prefix : Text → Text → Option Text
after_prefix [] s = some s
after_prefix (c ∷ p) [] = none
after_prefix (c ∷ p) (d ∷ s) = if c == d then after_prefix p s else none

-- The text before the last `c` and the text after it.
abbrev pub split_last : ℕ → Text → Option (Text × Text)
split_last c [] = none
split_last c (d ∷ s) = elim (split_last c s) [
  | some (before, after) ↦ some (d ∷ before, after)
  | none ↦ if d == c then some ([], s) else none
]

-- `str(n)`, on fuel: `n + 1` rounds are more than its digits.
abbrev digits_from : ℕ → ℕ → Text
digits_from zero n = []
digits_from (suc f) n =
    if ltb n 10 then (48 + n) ∷ [] else digits_from f (n / 10) ++ (48 + n % 10) ∷ []

unfoldable pub digits : ℕ → Text
digits n = digits_from (suc n) n

-- The number that some digits spell.
abbrev value_from : ℕ → Text → ℕ
value_from n [] = n
value_from n (c ∷ s) = value_from (n * 10 + (c - 48)) s

value_from-snoc :
    (n : ℕ) (s : Text) (c : ℕ) → value_from n (s ++ c ∷ []) ≡ value_from n s * 10 + (c - 48)
value_from-snoc n [] c = refl
value_from-snoc n (d ∷ s) c = value_from-snoc (n * 10 + (d - 48)) s c

value-digits_from : (f n : ℕ) → n < f → value_from 0 (digits_from f n) ≡ n
value-digits_from zero n h = omega arith
value-digits_from (suc f) n h = elim (Bool-cases (ltb n 10)) [
  | inl e ↦ ground arith
  | inr e ↦ ground (
    arith,
    value_from-snoc 0 (digits_from f (n / 10)) (48 + n % 10),
    value-digits_from f (n / 10) (ground arith),
  )
]

pub digits-injective : (a b : ℕ) → digits a ≡ digits b → a ≡ b
unfolding digits
digits-injective a b h =
    sym (value-digits_from (suc a) a (omega arith))
    ∙ ap (value_from 0) h
    ∙ value-digits_from (suc b) b (omega arith)
