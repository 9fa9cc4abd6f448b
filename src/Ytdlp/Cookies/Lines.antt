-- ===== src/Ytdlp/Cookies/Lines.antt =====
-- The lines of a cookie file: what `splitlines` makes of them.
use fetcharr.Base.{
  ℕ, ◌==◌, ◌≡◌, refl, Bool, true, false, not, List, [], ◌∷◌, ◌++◌, each, Text, arith, Bool-cases,
}
use fetcharr.Ytdlp.Cookies.{is_break, push_char, split_lines, rstrip_breaks}

abbrev pub is_one_line : Text → Bool
is_one_line = each (λ c. not (is_break c))

no_break : (c : ℕ) → not (is_break c) ≡ true → is_break c ≡ false
no_break c h = ground (arith, h)

not_return : (c : ℕ) → not (is_break c) ≡ true → (c == 13) ≡ false
unfolding is_break
not_return c h = ground (arith, h)

not_feed : (c : ℕ) → not (is_break c) ≡ true → (c == 10) ≡ false
unfolding is_break
not_feed c h = ground (arith, h)

pub split_lines-break : (s : Text) → split_lines (10 ∷ s) ≡ [] ∷ split_lines s
unfolding split_lines is_break
split_lines-break [] = refl
split_lines-break (d ∷ s) = refl

pub split_lines-line :
    (l s : Text) → is_one_line l ≡ true → split_lines (l ++ 10 ∷ s) ≡ l ∷ split_lines s
unfolding split_lines
split_lines-line [] s h = split_lines-break s
split_lines-line (c ∷ []) s h =
    rw (not_return c (ground (arith, h)), no_break c (ground (arith, h)), split_lines-break s) refl
split_lines-line (c ∷ d ∷ l) s h =
    rw
      (
        not_return c (ground (arith, h)),
        no_break c (ground (arith, h)),
        split_lines-line (d ∷ l) s (ground (arith, h)),
      )
      refl

push_char-one_line :
    (c : ℕ) (lines : List Text)
    → is_break c ≡ false
    → each is_one_line lines ≡ true
    → each is_one_line (push_char c lines) ≡ true
push_char-one_line c [] h hs = ground (arith, h)
push_char-one_line c (line ∷ lines) h hs = ground (arith, h, hs)

pub each-split_lines : (s : Text) → each is_one_line (split_lines s) ≡ true
unfolding split_lines
each-split_lines [] = refl
each-split_lines (c ∷ []) = ground (arith, Bool-cases (is_break c))
each-split_lines (c ∷ d ∷ s) = ground (
  arith,
  each-split_lines s,
  each-split_lines (d ∷ s),
  push_char-one_line c (split_lines (d ∷ s)),
  Bool-cases (is_break c),
)

pub rstrip_breaks-line : (l : Text) → is_one_line l ≡ true → rstrip_breaks l ≡ l
unfolding rstrip_breaks
rstrip_breaks-line [] h = refl
rstrip_breaks-line (c ∷ []) h =
    rw (not_return c (ground (arith, h)), not_feed c (ground (arith, h))) refl
rstrip_breaks-line (c ∷ d ∷ l) h = rw (rstrip_breaks-line (d ∷ l) (ground (arith, h))) refl
