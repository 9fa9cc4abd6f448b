-- ===== src/Library/Naming/Shorten.antt =====
-- The loop of `_name` of backend/app/library/naming.py ends, and its name fits.
use fetcharr.Base.{
  ℕ, zero, suc, ◌+◌, ◌-◌, ◌≤◌, ◌<◌, ◌==◌, ◌≡◌, refl, ◌∙◌, ap, Bool, true, false, not, ◌||◌, [], ◌∷◌,
  keep, each, Option, some, arith, Text, codes, Bool-cases, Option-cases, inl, inr,
}
use fetcharr.Library.Naming.{
  ColonMode, smart, delete, dash, space_dash, space_dash_space, replace_colon_space, replace_colon,
  replace_colons, is_illegal, squeeze, trim_left, push_trimmed, trim_right, strip, width, size, fit,
  sanitize,
}
use fetcharr.Library.Naming.Sanitize.{not_colon, is_legal, both, each-fit, each-sanitize}
use fetcharr.Library.Naming.Templates.{
  Token, episode_title, render, is_empty, with_episode_title, shorten, cut_name, cleaned, name_of,
}

width-pos : (c : ℕ) → 1 ≤ width c
unfolding width
width-pos c = ground arith

width_space : width b' ' ≡ 1
unfolding width
width_space = refl

size-keep_le : (p : ℕ → Bool) (s : Text) → size (keep p s) ≤ size s
unfolding size
size-keep_le p [] = omega arith
size-keep_le p (c ∷ s) = ground (arith, size-keep_le p s)

size-squeeze_le : (inside : Bool) (s : Text) → size (squeeze inside s) ≤ size s
unfolding size squeeze
size-squeeze_le inside [] = omega arith
size-squeeze_le inside (c ∷ s) =
    ground (arith, size-squeeze_le true s, size-squeeze_le false s, width-pos c, width_space)

size-trim_left_le : (s : Text) → size (trim_left s) ≤ size s
unfolding size trim_left
size-trim_left_le [] = omega arith
size-trim_left_le (c ∷ s) = ground (arith, size-trim_left_le s)

size-push_trimmed_le : (c : ℕ) (s : Text) → size (push_trimmed c s) ≤ width c + size s
unfolding size push_trimmed
size-push_trimmed_le c [] = ground arith
size-push_trimmed_le c (d ∷ s) = omega arith

size-trim_right_le : (s : Text) → size (trim_right s) ≤ size s
unfolding size trim_right
size-trim_right_le [] = omega arith
size-trim_right_le (c ∷ s) =
    omega (arith, size-push_trimmed_le c (trim_right s), size-trim_right_le s)

size-strip_le : (s : Text) → size (strip s) ≤ size s
unfolding strip
size-strip_le s = omega (arith, size-trim_right_le (trim_left s), size-trim_left_le s)

size-fit_le : (n : ℕ) (s : Text) → size (fit n s) ≤ n
unfolding size fit
size-fit_le n [] = omega arith
size-fit_le n (c ∷ s) = ground (arith, size-fit_le (n - width c) s)

-- Without a colon there is nothing to replace.
replace_colon-none : (with s : Text) → each not_colon s ≡ true → replace_colon with s ≡ s
unfolding replace_colon
replace_colon-none with [] h = refl
replace_colon-none with (c ∷ s) h = ground (arith, replace_colon-none with s)

replace_colon_space-none : (s : Text) → each not_colon s ≡ true → replace_colon_space s ≡ s
unfolding replace_colon_space
replace_colon_space-none [] h = refl
replace_colon_space-none (c ∷ []) h = refl
replace_colon_space-none (c ∷ d ∷ s) h = ground (arith, replace_colon_space-none (d ∷ s))

replace_colons-none :
    (s : Text) (colon : ColonMode) → each not_colon s ≡ true → replace_colons s colon ≡ s
unfolding replace_colons
replace_colons-none s smart h =
    ap (replace_colon (codes "-")) (replace_colon_space-none s h) ∙ replace_colon-none _ s h
replace_colons-none s delete h = replace_colon-none _ s h
replace_colons-none s dash h = replace_colon-none _ s h
replace_colons-none s space_dash h = replace_colon-none _ s h
replace_colons-none s space_dash_space h = replace_colon-none _ s h

size-sanitize_le :
    (normalize : Text → Text) (s : Text) (colon : ColonMode)
    → normalize s ≡ s
    → each not_colon s ≡ true
    → size (sanitize normalize s colon) ≤ size s
unfolding sanitize
size-sanitize_le normalize s colon normal h =
    let legal : Text = keep (λ c. not (is_illegal c)) (replace_colons (normalize s) colon) in
    let same : replace_colons (normalize s) colon ≡ s =
      ap (λ t. replace_colons t colon) normal ∙ replace_colons-none s colon h in
    omega (
      arith,
      size-strip_le (squeeze false legal),
      size-squeeze_le false legal,
      size-keep_le (λ c. not (is_illegal c)) (replace_colons (normalize s) colon),
      ap size same,
    )

-- A text of at least a byte is not empty, and the other way round.
is_empty-size : (s : Text) → is_empty s ≡ false → 1 ≤ size s
unfolding size
is_empty-size [] h = absurd (ground (arith, h))
is_empty-size (c ∷ s) h = omega (arith, width-pos c)

-- `is_simple` is Unicode's quick check: a text of characters that are starters and never change
-- is in its normal form.
module _ (normalize : Text → Text) (is_simple : ℕ → Bool)
    (normal : (s : Text) → each is_simple s ≡ true → normalize s ≡ s)
    (ascii : (c : ℕ) → c < 128 → is_simple c ≡ true) where
  each-simple :
      (s : Text)
      → each (both (both is_simple not_colon) is_legal) s ≡ true
      → (each is_simple s ≡ true) × (each not_colon s ≡ true)
  each-simple [] h = (refl, refl)
  each-simple (c ∷ s) h = ground (arith, each-simple s)

  -- One round: what is kept of the title is clean again, and shorter by the overflow.
  round-Clean :
      (n : ℕ) (text : Text) (colon : ColonMode)
      → each (both (both is_simple not_colon) is_legal) text ≡ true
      → each (both (both is_simple not_colon) is_legal) (sanitize normalize (fit n text) colon)
          ≡ true
        × size (sanitize normalize (fit n text) colon) ≤ n
  round-Clean n text colon clean =
      let kept = each-fit (both (both is_simple not_colon) is_legal) n text clean in
      let (simple, no_colon) = each-simple (fit n text) kept in
      let same = normal (fit n text) simple in
      (
        each-sanitize normalize is_simple (fit n text) colon (ascii b' ' (omega arith))
            (ascii b'-' (omega arith)) (ap (each is_simple) same ∙ simple),
        omega (
          arith,
          size-sanitize_le normalize (fit n text) colon same no_colon,
          size-fit_le n text,
        ),
      )

  left : Text → (Token → Text) → ℕ → ℕ
  left template values limit = size (values episode_title) - (size (render template values) - limit)

  shorten-ends :
      (fuel : ℕ) (template : Text) (values : Token → Text) (colon : ColonMode) (limit : ℕ)
      → each (both (both is_simple not_colon) is_legal) (values episode_title) ≡ true
      → size (values episode_title) < fuel
      → (name : Text) × (shorten normalize fuel template values colon limit ≡ some name)
  unfolding shorten left
  shorten-ends zero template values colon limit clean h = absurd (omega arith)
  shorten-ends (suc fuel) template values colon limit clean h = elim (Bool-cases (done)) [
    | inl e ↦ (render template values, rw e refl)
    | inr e ↦
        let (kept_clean, kept_le) =
          round-Clean (left template values limit) (values episode_title) colon clean in
        let (name, found) =
          shorten-ends fuel template
            (with_episode_title
              (sanitize normalize (fit (left template values limit) (values episode_title)) colon)
              values)
            colon limit kept_clean
            (ground (arith, e, h, kept_le, is_empty-size (values episode_title))) in
        (name, rw e found)
  ]
    where
      done : Bool
      done = ((size (render template values) - limit) == 0) || is_empty (values episode_title)

  cut-shorten :
      (template : Text) (values : Token → Text) (colon : ColonMode) (limit : ℕ) (name : Text)
      → shorten normalize
          (suc (suc (size (cleaned normalize colon values episode_title))))
          template
          (cleaned normalize colon values)
          colon
          limit
        ≡ some name
      → name_of normalize template values colon limit ≡ cut_name normalize name limit
  unfolding name_of
  cut-shorten template values colon limit name found = ground (arith, found)

  -- The loop of `_name` ends within the fuel that it has, for a title whose normal form has simple
  -- characters; what it ends with is then cut to the limit.
  pub name_of-ends :
      (template : Text) (values : Token → Text) (colon : ColonMode) (limit : ℕ)
      → each is_simple (normalize (values episode_title)) ≡ true
      → (name : Text) × (shorten normalize
            (suc (suc (size (cleaned normalize colon values episode_title))))
            template
            (cleaned normalize colon values)
            colon
            limit
          ≡ some name)
        × (name_of normalize template values colon limit ≡ cut_name normalize name limit)
  unfolding cleaned
  name_of-ends template values colon limit simple =
      let clean =
        each-sanitize normalize is_simple (values episode_title) colon (ascii b' ' (omega arith))
          (ascii b'-' (omega arith)) simple in
      let (name, found) =
        shorten-ends (suc (suc (size (cleaned normalize colon values episode_title)))) template
          (cleaned normalize colon values) colon limit clean (omega arith) in
      (name, found, cut-shorten template values colon limit name found)

cut_name-Fits :
    (normalize : Text → Text) (name : Text) (limit : ℕ) (s : Text)
    → cut_name normalize name limit ≡ some s
    → (size s ≤ limit) × (is_empty s ≡ false)
unfolding cut_name
cut_name-Fits normalize name limit s h =
    ground (arith, h, size-strip_le (fit limit name), size-fit_le limit name)

-- A name that `_name` gives is not empty, and its bytes fit the limit.
pub name_of-Fits :
    (normalize : Text → Text) (template : Text) (values : Token → Text) (colon : ColonMode)
    → (limit : ℕ) → (s : Text) → name_of normalize template values colon limit ≡ some s
    → (size s ≤ limit) × (is_empty s ≡ false)
unfolding name_of
name_of-Fits normalize template values colon limit s h = elim (Option-cases loop) [
  | inl e ↦ absurd (ground (arith, e, h))
  | inr (name, e) ↦ cut_name-Fits normalize name limit s (ground (arith, e, h))
]
  where
    loop : Option Text
    loop =
        shorten normalize (suc (suc (size (cleaned normalize colon values episode_title)))) template
          (cleaned normalize colon values) colon limit
