-- ===== src/Ytdlp/Errors/Scrub.antt =====
-- No cookie's value is left in a line that `scrub` of backend/app/ytdlp/cookies.py gives.
use fetcharr.Base.{
  ℕ, ◌==◌, ◌≡◌, refl, ap, ◌∙◌, ◌⊎◌, Bool, true, false, not, ◌&&◌, none, some, [], ◌∷◌, ◌++◌, each,
  map, Text, codes, text_eq, text_eq_iff, arith, Bool-cases, Option-cases, inl, inr, append_assoc,
}
use fetcharr.Library.Naming.{is_space}
use fetcharr.Auth.Service.{strip_left}
use fetcharr.Ytdlp.Errors.{
  fold, match_folded, cookie_name, set_cookie_name, redaction, header_at, leading_space, scrub,
}

match_folded-name :
    (p name s : Text) → map fold name ≡ p → match_folded p (name ++ s) ≡ some (name, s)
unfolding match_folded
match_folded-name [] [] s h = refl
match_folded-name [] (c ∷ name) s h = cc
match_folded-name (q ∷ p) [] s h = cc
match_folded-name (q ∷ p) (c ∷ name) s h = ground (arith, match_folded-name p name s, h)

match_folded_sound :
    (p s name rest : Text)
    → match_folded p s ≡ some (name, rest)
    → (map fold name ≡ p) × (s ≡ name ++ rest)
unfolding match_folded
match_folded_sound [] s name rest h = ground (arith, h)
match_folded_sound (q ∷ p) [] name rest h = cc
match_folded_sound (q ∷ p) (c ∷ s) name rest h = elim (Option-cases (match_folded p s)) [
  | inl e ↦ ground (arith, e)
  | inr ((more, rest'), e) ↦ ground (arith, match_folded_sound p s more rest' e, e)
]

-- Whether at every place where the name of a cookie's header stands only the redaction follows.
pub is_clean : Text → Bool
is_clean [] = true
is_clean (c ∷ s) =
    elim (match_folded cookie_name (c ∷ s)) [
      | none ↦ true
      | some (name, value) ↦ text_eq (strip_left value) redaction
    ]
    && is_clean s

-- A character with which no header's name begins.
abbrev is_inner : ℕ → Bool
is_inner p = not (p == b'c') && not (p == b's')

is_clean-other : (c : ℕ) (s : Text) → (fold c == b'c') ≡ false → is_clean (c ∷ s) ≡ is_clean s
unfolding is_clean match_folded
is_clean-other c s h = ground (arith, h)

is_clean-inner :
    (p name s : Text)
    → map fold name ≡ p
    → each (λ c. not (c == b'c')) p ≡ true
    → is_clean (name ++ s) ≡ is_clean s
is_clean-inner [] [] s e h = refl
is_clean-inner [] (c ∷ name) s e h = cc
is_clean-inner (q ∷ p) [] s e h = cc
is_clean-inner (q ∷ p) (c ∷ name) s e h =
    is_clean-other c (name ++ s) (ground (arith, e, h))
    ∙ is_clean-inner p name s (ground (arith, e)) (ground (arith, h))

space_fold : (c : ℕ) → is_space c ≡ true → (fold c == b'c') ≡ false
unfolding is_space fold
space_fold c h = ground (arith, h)

is_clean-redacted : (value : Text) → is_clean (leading_space value ++ redaction) ≡ true
unfolding leading_space is_clean match_folded fold
is_clean-redacted [] = refl
is_clean-redacted (c ∷ value) = elim (Bool-cases (is_space c)) [
  | inl e ↦ rw e (
      is_clean-other c (leading_space value ++ redaction) (space_fold c e)
      ∙ is_clean-redacted value)
  | inr e ↦ rw e refl
]

strip_left-redacted : (value : Text) → strip_left (leading_space value ++ redaction) ≡ redaction
unfolding leading_space strip_left is_space
strip_left-redacted [] = refl
strip_left-redacted (c ∷ value) = elim (Bool-cases (is_space c)) [
  | inl e ↦ rw (e, e) (strip_left-redacted value)
  | inr e ↦ rw e refl
]

is_clean-cookie :
    (name value : Text)
    → map fold name ≡ cookie_name
    → is_clean (name ++ (leading_space value ++ redaction)) ≡ true
unfolding is_clean
is_clean-cookie [] value e = cc
is_clean-cookie (c ∷ name) value e = ground (
  arith,
  match_folded-name cookie_name (c ∷ name) (leading_space value ++ redaction) e,
  strip_left-redacted value,
  text_eq_iff redaction redaction,
  is_clean-inner (codes "ookie:") name (leading_space value ++ redaction) (ground (arith, e)) refl,
  is_clean-redacted value,
)

-- A text whose letters are those of two, in two.
split_fold :
    (p q name : Text)
    → map fold name ≡ p ++ q
    → (a : Text) × ((b : Text) × (name ≡ a ++ b) × (map fold a ≡ p) × (map fold b ≡ q))
split_fold [] q name e = ([], (name, refl, refl, e))
split_fold (x ∷ p) q [] e = cc
split_fold (x ∷ p) q (c ∷ name) e =
    let (a, (b, whole, first, last)) = split_fold p q name (ground (arith, e)) in
    (c ∷ a, (b, ap (λ l. c ∷ l) whole, ground (arith, e, first), last))

is_clean-set_cookie :
    (name value : Text)
    → map fold name ≡ set_cookie_name
    → is_clean (name ++ (leading_space value ++ redaction)) ≡ true
is_clean-set_cookie name value e =
    let (a, (b, whole, first, last)) = split_fold (codes "set-") cookie_name name e in
    rw whole (
      ap is_clean (append_assoc a b (leading_space value ++ redaction))
      ∙ is_clean-inner (codes "set-") a (b ++ (leading_space value ++ redaction)) first refl
      ∙ is_clean-cookie b value last)

-- What the name of a header is.
header_at-cases :
    (s name value : Text)
    → header_at s ≡ some (name, value)
    → (s ≡ name ++ value) × ((map fold name ≡ set_cookie_name) ⊎ (map fold name ≡ cookie_name))
unfolding header_at
header_at-cases s name value h = elim (Option-cases (match_folded set_cookie_name s)) [
  | inl e ↦
      let (same, whole) = match_folded_sound cookie_name s name value (ground (arith, h, e)) in
      (whole, inr same)
  | inr (found, e) ↦
      let (same, whole) = match_folded_sound set_cookie_name s name value (ground (arith, h, e)) in
      (whole, inl same)
]

header_at-none : (s : Text) → header_at s ≡ none → match_folded cookie_name s ≡ none
unfolding header_at
header_at-none s h = ground (arith, h)

is_clean-header :
    (name value : Text)
    → ((map fold name ≡ set_cookie_name) ⊎ (map fold name ≡ cookie_name))
    → is_clean (name ++ (leading_space value ++ redaction)) ≡ true
is_clean-header name value (inl e) = is_clean-set_cookie name value e
is_clean-header name value (inr e) = is_clean-cookie name value e

scrub-none : (c : ℕ) (s : Text) → header_at (c ∷ s) ≡ none → scrub (c ∷ s) ≡ c ∷ scrub s
unfolding scrub
scrub-none c s h = ground (arith, h)

scrub-some :
    (c : ℕ) (s name value : Text)
    → header_at (c ∷ s) ≡ some (name, value)
    → scrub (c ∷ s) ≡ name ++ (leading_space value ++ redaction)
unfolding scrub
scrub-some c s name value h = ground (arith, h)

-- No name begins in the midst of one that is not there before the values are redacted.
first_of_name :
    (q c : ℕ) (p s name value : Text)
    → is_inner q ≡ true
    → (c ∷ s ≡ name ++ value)
    → ((map fold name ≡ set_cookie_name) ⊎ (map fold name ≡ cookie_name))
    → match_folded (q ∷ p) (name ++ (leading_space value ++ redaction)) ≡ none
unfolding match_folded
first_of_name q c p s [] value h whole (inl e) = cc
first_of_name q c p s [] value h whole (inr e) = cc
first_of_name q c p s (d ∷ name) value h whole (inl e) = ground (arith, h, e)
first_of_name q c p s (d ∷ name) value h whole (inr e) = ground (arith, h, e)

scrub_nil : (q : ℕ) (p : Text) → match_folded (q ∷ p) (scrub []) ≡ none
unfolding match_folded scrub
scrub_nil q p = refl

match_folded-scrub :
    (p s : Text)
    → each is_inner p ≡ true
    → match_folded p s ≡ none
    → match_folded p (scrub s) ≡ none
unfolding match_folded
match_folded-scrub [] s h none_there = cc
match_folded-scrub (q ∷ p) [] h none_there = scrub_nil q p
match_folded-scrub (q ∷ p) (c ∷ s) h none_there = elim (Option-cases (header_at (c ∷ s))) [
  | inl e ↦ rw (scrub-none c s e) (ground (arith, match_folded-scrub p s, h, none_there))
  | inr ((name, value), e) ↦
      let (whole, same) = header_at-cases (c ∷ s) name value e in
      rw (scrub-some c s name value e)
        (first_of_name q c p s name value (ground (arith, h)) whole same)
]

match_folded-kept :
    (c : ℕ) (s : Text)
    → match_folded cookie_name (c ∷ s) ≡ none
    → match_folded cookie_name (c ∷ scrub s) ≡ none
unfolding match_folded
match_folded-kept c s h = ground (arith, h, match_folded-scrub (codes "ookie:") s refl)

is_clean-nil : is_clean (scrub []) ≡ true
unfolding is_clean scrub
is_clean-nil = refl

is_clean-kept :
    (c : ℕ) (s : Text) → match_folded cookie_name (c ∷ s) ≡ none → is_clean (c ∷ s) ≡ is_clean s
unfolding is_clean
is_clean-kept c s h = rw h refl

pub is_clean-scrub : (s : Text) → is_clean (scrub s) ≡ true
is_clean-scrub [] = is_clean-nil
is_clean-scrub (c ∷ s) = elim (Option-cases (header_at (c ∷ s))) [
  | inl e ↦ rw (scrub-none c s e) (
      is_clean-kept c (scrub s) (match_folded-kept c s (header_at-none (c ∷ s) e))
      ∙ is_clean-scrub s)
  | inr ((name, value), e) ↦
      rw (scrub-some c s name value e)
        (is_clean-header name value (header_at-cases (c ∷ s) name value e).1)
]

pub clean_value :
    (before name value : Text)
    → is_clean (before ++ (name ++ value)) ≡ true
    → map fold name ≡ cookie_name
    → strip_left value ≡ redaction
unfolding is_clean
clean_value [] [] value h e = cc
clean_value [] (c ∷ name) value h e = ground (
  arith,
  h,
  match_folded-name cookie_name (c ∷ name) value e,
  text_eq_iff (strip_left value) redaction,
)
clean_value (c ∷ before) name value h e = clean_value before name value (ground (arith, h)) e

-- A text without the first letter of the name.
pub is_clean-plain : (s : Text) → each (λ c. not (fold c == b'c')) s ≡ true → is_clean s ≡ true
unfolding is_clean
is_clean-plain [] h = refl
is_clean-plain (c ∷ s) h =
    is_clean-other c s (ground (arith, h)) ∙ is_clean-plain s (ground (arith, h))
