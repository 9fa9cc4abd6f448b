-- ===== src/Settings/Checks.antt =====
-- What the checks of an update let through: backend/app/settings/service.py.
use fetcharr.Base.{
  ℕ, ◌==◌, leb, ◌≡◌, refl, ap, ◌∙◌, ◌⊎◌, inl, inr, Bool, true, false, not, ◌&&◌, some, or_else,
  List, [], ◌∷◌, each, keep, Text, arith, Bool-cases, Option-cases,
}
use fetcharr.Library.Naming.{is_space, ColonMode, smart, delete, dash, space_dash, space_dash_space}
use fetcharr.Library.Naming.Templates.{inside}
use fetcharr.Auth.Service.{strip_space, strip_left, strip_right, push_stripped}
use fetcharr.Settings.Values.{
  Dict, get, put, merge, Whole, above, below, SettingsError, Result, valid, invalid, is_profile,
  in_range, checked_quality, is_template_key, is_token, any_tokens, unknown_tokens, is_blank,
  checked_template, checked_templates, mode_name, mode_of,
}

pub Result-cases :
    {A : Type 0} (r : Result A)
    → ((a : A) × (r ≡ valid a)) ⊎ ((e : SettingsError) × (r ≡ invalid e))
Result-cases (valid a) = inl (a, refl)
Result-cases (invalid e) = inr (e, refl)

module _ {V : Type 0} (p : Text × V → Bool) where
  pub each-put :
      (k : Text) (v : V) (d : Dict V)
      → p (k, v) ≡ true
      → each p d ≡ true
      → each p (put k v d) ≡ true
  unfolding put
  each-put k v [] new old = ground (arith, new)
  each-put k v ((j, w) ∷ d) new old = ground (arith, new, old, each-put k v d)

  pub each-merge :
      (old new : Dict V) → each p old ≡ true → each p new ≡ true → each p (merge old new) ≡ true
  unfolding merge
  each-merge old [] h hs = h
  each-merge old ((k, v) ∷ new) h hs =
      each-merge (put k v old) new (each-put k v old (ground (arith, hs)) h) (ground (arith, hs))

module _ {V : Type 0} (p : V → Bool) where
  pub get-each :
      (k : Text) (d : Dict V) (default : V)
      → each (λ e. p e.1) d ≡ true
      → p default ≡ true
      → p (or_else (get k d) default) ≡ true
  unfolding get
  get-each k [] default h own = own
  get-each k ((j, v) ∷ d) default h own = ground (arith, h, own, get-each k d default)

-- A quality that ffmpeg is given.
abbrev pub fits : ℕ → Bool
fits n = leb 1 n && leb n 51

pub in_range-fits : (value : Whole) (n : ℕ) → in_range value ≡ some n → fits n ≡ true
unfolding in_range
in_range-fits (above m) n h = ground (arith, h)
in_range-fits (below m) n h = cc

pub checked_quality-fits :
    (d : Dict Whole) (checked : Dict ℕ)
    → checked_quality d ≡ valid checked
    → each (λ e. fits e.1) checked ≡ true
unfolding checked_quality
checked_quality-fits [] checked h = ground (arith, h)
checked_quality-fits ((name, value) ∷ d) checked h = elim (Bool-cases (is_profile name)) [
  | inr e ↦ absurd (ground (arith, h, e))
  | inl e ↦ elim (Option-cases (in_range value)) [
    | inl out ↦ absurd (ground (arith, h, e, out))
    | inr (n, kept) ↦ elim (Result-cases (checked_quality d)) [
      | inr (error, bad) ↦ absurd (ground (arith, h, e, kept, bad))
      | inl (rest, good) ↦
          ground
            (arith, h, e, kept, good, in_range-fits value n kept, checked_quality-fits d rest good)
    ]
  ]
]

-- Blanks at the ends of a template make no difference to its tokens.
pub space_brace : (c : ℕ) → is_space c ≡ true → ((c == b'{') ≡ false) × ((c == b'}') ≡ false)
unfolding is_space
space_brace c h = ground (arith, h)

pub inside-push :
    (c : ℕ) (s : Text) → inside b'{' b'}' (push_stripped c s) ≡ inside b'{' b'}' (c ∷ s)
unfolding inside push_stripped
inside-push c [] = ground (arith, space_brace c, Bool-cases (is_space c))
inside-push c (d ∷ s) = refl

pub inside-strip_right : (s : Text) → inside b'{' b'}' (strip_right s) ≡ inside b'{' b'}' s
unfolding inside strip_right
inside-strip_right [] = refl
inside-strip_right (c ∷ s) = inside-push c (strip_right s) ∙ ground (arith, inside-strip_right s)

pub any_tokens-push : (c : ℕ) (s : Text) → any_tokens (push_stripped c s) ≡ any_tokens (c ∷ s)
unfolding any_tokens push_stripped
any_tokens-push c [] = ground (arith, space_brace c, Bool-cases (is_space c))
any_tokens-push c (d ∷ s) = refl

pub any_tokens-strip_right : (s : Text) → any_tokens (strip_right s) ≡ any_tokens s
unfolding any_tokens strip_right
any_tokens-strip_right [] = refl
any_tokens-strip_right (c ∷ s) =
    any_tokens-push c (strip_right s)
    ∙ ground (arith, any_tokens-strip_right s, inside-strip_right s)

pub any_tokens-strip_left : (s : Text) → any_tokens (strip_left s) ≡ any_tokens s
unfolding any_tokens strip_left
any_tokens-strip_left [] = refl
any_tokens-strip_left (c ∷ s) = elim (Bool-cases (is_space c)) [
  | inl e ↦ rw e (any_tokens-strip_left s ∙ ground (arith, space_brace c e))
  | inr e ↦ rw e refl
]

pub unknown_tokens-strip : (s : Text) → unknown_tokens (strip_space s) ≡ unknown_tokens s
unfolding unknown_tokens strip_space
unknown_tokens-strip s =
    ap (keep (λ t. not (is_token t)))
      (any_tokens-strip_right (strip_left s) ∙ any_tokens-strip_left s)

-- A template that names a path: it says something, and uses known tokens only.
abbrev pub no_texts : List Text → Bool
no_texts [] = true
no_texts (t ∷ ts) = false

abbrev pub usable : Text → Bool
usable template = not (is_blank template) && no_texts (unknown_tokens template)

pub checked_template-usable :
    (key template checked : Text)
    → checked_template key template ≡ valid checked
    → (is_template_key key ≡ true) × (usable checked ≡ true)
unfolding checked_template
checked_template-usable key template checked h = ground (arith, h, unknown_tokens-strip template)

pub checked_templates-usable :
    (d checked : Dict Text)
    → checked_templates d ≡ valid checked
    → each (λ e. is_template_key e.0 && usable e.1) checked ≡ true
unfolding checked_templates
checked_templates-usable [] checked h = ground (arith, h)
checked_templates-usable ((key, template) ∷ d) checked h =
    elim (Result-cases (checked_template key template)) [
      | inr (error, bad) ↦ absurd (ground (arith, h, bad))
      | inl (t, kept) ↦ elim (Result-cases (checked_templates d)) [
        | inr (error, bad) ↦ absurd (ground (arith, h, kept, bad))
        | inl (rest, good) ↦ ground (
          arith,
          h,
          kept,
          good,
          checked_template-usable key template t kept,
          checked_templates-usable d rest good,
        )
      ]
    ]

pub mode_of-mode_name : (mode : ColonMode) → mode_of (mode_name mode) ≡ some mode
unfolding mode_of mode_name
mode_of-mode_name smart = refl
mode_of-mode_name delete = refl
mode_of-mode_name dash = refl
mode_of-mode_name space_dash = refl
mode_of-mode_name space_dash_space = refl
