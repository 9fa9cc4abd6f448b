-- ===== src/Library/Naming/Sanitize.antt =====
-- What `sanitize` of backend/app/library/naming.py lets through, step by step.
use fetcharr.Base.{
  ℕ, ◌-◌, ◌≤◌, ◌==◌, ◌≡◌, refl, sym, ◌∙◌, ap, Bool, true, false, not, ◌&&◌, ◌||◌, [], ◌∷◌, keep,
  length, each, each-append, arith, Text, codes, text_eq, Bool-cases, inl, inr,
}
use fetcharr.Library.Naming.{
  ColonMode, smart, delete, dash, space_dash, space_dash_space, replace_colon_space, replace_colon,
  colon_replacement, replace_colons, is_illegal, squeeze, is_trimmed, trim_left, push_trimmed,
  trim_right, strip, width, fit, sanitize,
}

abbrev pub not_colon : ℕ → Bool
not_colon c = not (c == b':')

abbrev pub is_legal : ℕ → Bool
is_legal c = not (is_illegal c)

abbrev pub both : (ℕ → Bool) → (ℕ → Bool) → ℕ → Bool
both p q c = p c && q c

-- The steps keep a test that the characters they put in pass.
module _ (test : ℕ → Bool) (space : test b' ' ≡ true) (dash_ok : test b'-' ≡ true) where
  each-replace_colon :
      (with s : Text)
      → each (both test not_colon) with ≡ true
      → each test s ≡ true
      → each (both test not_colon) (replace_colon with s) ≡ true
  unfolding replace_colon
  each-replace_colon with [] h hs = refl
  each-replace_colon with (c ∷ s) h hs = ground (
    arith,
    each-replace_colon with s h,
    each-append (both test not_colon) with (replace_colon with s) h,
  )

  each-replace_colon_space :
      (s : Text) → each test s ≡ true → each test (replace_colon_space s) ≡ true
  unfolding replace_colon_space
  each-replace_colon_space [] hs = refl
  each-replace_colon_space (c ∷ []) hs = hs
  each-replace_colon_space (c ∷ d ∷ s) hs =
      ground (arith, space, dash_ok, each-replace_colon_space s, each-replace_colon_space (d ∷ s))

  each-replace_colons :
      (s : Text) (colon : ColonMode)
      → each test s ≡ true
      → each (both test not_colon) (replace_colons s colon) ≡ true
  unfolding replace_colons colon_replacement
  each-replace_colons s smart hs =
      each-replace_colon (codes "-") (replace_colon_space s) (ground (arith, dash_ok))
        (each-replace_colon_space s hs)
  each-replace_colons s delete hs = each-replace_colon [] s refl hs
  each-replace_colons s dash hs = each-replace_colon (codes "-") s (ground (arith, dash_ok)) hs
  each-replace_colons s space_dash hs =
      each-replace_colon (codes " -") s (ground (arith, space, dash_ok)) hs
  each-replace_colons s space_dash_space hs =
      each-replace_colon (codes " - ") s (ground (arith, space, dash_ok)) hs

module _ (test : ℕ → Bool) where
  each-keep : (p : ℕ → Bool) (s : Text) → each test s ≡ true → each (both test p) (keep p s) ≡ true
  each-keep p [] hs = refl
  each-keep p (c ∷ s) hs = ground (arith, each-keep p s)

  each-squeeze :
      (inside : Bool) (s : Text)
      → test b' ' ≡ true
      → each test s ≡ true
      → each test (squeeze inside s) ≡ true
  unfolding squeeze
  each-squeeze inside [] space hs = refl
  each-squeeze inside (c ∷ s) space hs =
      ground (arith, each-squeeze true s space, each-squeeze false s space)

  each-trim_left : (s : Text) → each test s ≡ true → each test (trim_left s) ≡ true
  unfolding trim_left
  each-trim_left [] hs = refl
  each-trim_left (c ∷ s) hs = ground (arith, each-trim_left s)

  each-push_trimmed :
      (c : ℕ) (s : Text) → test c ≡ true → each test s ≡ true → each test (push_trimmed c s) ≡ true
  unfolding push_trimmed
  each-push_trimmed c [] hc hs = ground arith
  each-push_trimmed c (d ∷ s) hc hs = ground arith

  each-trim_right : (s : Text) → each test s ≡ true → each test (trim_right s) ≡ true
  unfolding trim_right
  each-trim_right [] hs = refl
  each-trim_right (c ∷ s) hs = ground (arith, each-trim_right s, each-push_trimmed c (trim_right s))

  pub each-strip : (s : Text) → each test s ≡ true → each test (strip s) ≡ true
  unfolding strip
  each-strip s hs = each-trim_right (trim_left s) (each-trim_left s hs)

  pub each-fit : (n : ℕ) (s : Text) → each test s ≡ true → each test (fit n s) ≡ true
  unfolding fit
  each-fit n [] hs = refl
  each-fit n (c ∷ s) hs = ground (arith, each-fit (n - width c) s)

-- A text that `strip` gives is left alone by it.
trim_left-push :
    (c : ℕ) (s : Text) → is_trimmed c ≡ false → trim_left (push_trimmed c s) ≡ push_trimmed c s
unfolding trim_left push_trimmed
trim_left-push c [] h = ground arith
trim_left-push c (d ∷ s) h = ground arith

trim_left-strip : (s : Text) → trim_left (strip s) ≡ strip s
unfolding strip trim_left trim_right
trim_left-strip [] = refl
trim_left-strip (c ∷ s) = elim (Bool-cases (is_trimmed c)) [
  | inl e ↦ rw e (trim_left-strip s)
  | inr e ↦ rw e (trim_left-push c (trim_right s) e)
]

trim_right-push :
    (c : ℕ) (s : Text) → trim_right s ≡ s → trim_right (push_trimmed c s) ≡ push_trimmed c s
unfolding trim_right push_trimmed
trim_right-push c [] h = ground (arith, Bool-cases (is_trimmed c))
trim_right-push c (d ∷ s) h = rw h refl

trim_right_idem : (s : Text) → trim_right (trim_right s) ≡ trim_right s
unfolding trim_right
trim_right_idem [] = refl
trim_right_idem (c ∷ s) = trim_right-push c (trim_right s) (trim_right_idem s)

pub strip_idem : (s : Text) → strip (strip s) ≡ strip s
unfolding strip
strip_idem s = ap trim_right (trim_left-strip s) ∙ trim_right_idem (trim_left s)

length-trim_left_le : (s : Text) → length (trim_left s) ≤ length s
unfolding trim_left
length-trim_left_le [] = omega arith
length-trim_left_le (c ∷ s) = ground (arith, length-trim_left_le s)

first-strip : (c : ℕ) (s : Text) → strip (c ∷ s) ≡ c ∷ s → is_trimmed c ≡ false
unfolding trim_left
first-strip c s h =
    let left : trim_left (c ∷ s) ≡ c ∷ s = ap trim_left (sym h) ∙ trim_left-strip (c ∷ s) ∙ h in
    ground (arith, ap length left, length-trim_left_le s)

no_folder-strip :
    (s : Text) → strip s ≡ s → (text_eq s (codes ".") || text_eq s (codes "..")) ≡ false
unfolding is_trimmed
no_folder-strip [] h = refl
no_folder-strip (c ∷ s) h = ground (arith, first-strip c s h)

-- One component of a path: its characters are legal, so that none is a separator, neither a blank
-- nor a dot is at its ends, and it is not one of the folders `.` and `..`.
pub record IsPart (s : Text) : Type 0 where
  pub characters : each is_legal s ≡ true
  pub ends : strip s ≡ s
  pub no_folder : (text_eq s (codes ".") || text_eq s (codes "..")) ≡ false

module _ (normalize : Text → Text) where
  pub each-sanitize :
      (test : ℕ → Bool) (text : Text) (colon : ColonMode)
      → test b' ' ≡ true
      → test b'-' ≡ true
      → each test (normalize text) ≡ true
      → each (both (both test not_colon) is_legal) (sanitize normalize text colon) ≡ true
  unfolding sanitize is_illegal
  each-sanitize test text colon space dash_ok h =
      each-strip (both (both test not_colon) is_legal) _ (
        each-squeeze (both (both test not_colon) is_legal) false _ (ground (arith, space)) (
          each-keep (both test not_colon) is_legal (replace_colons (normalize text) colon)
            (each-replace_colons test space dash_ok (normalize text) colon h)))

  each-weaken : (p q : ℕ → Bool) (s : Text) → each (both p q) s ≡ true → each q s ≡ true
  each-weaken p q [] h = refl
  each-weaken p q (c ∷ s) h = ground (arith, each-weaken p q s)

  each-true : (s : Text) → each (λ c. true) s ≡ true
  each-true [] = refl
  each-true (c ∷ s) = each-true s

  -- A sanitized text has no separator and no other illegal character, neither a blank nor a dot at its
  -- ends, and is neither `.` nor `..`.
  pub sanitize-IsPart : (text : Text) (colon : ColonMode) → IsPart (sanitize normalize text colon)
  sanitize-IsPart text colon =
      let ends : strip (sanitize normalize text colon) ≡ sanitize normalize text colon =
        unfold sanitize in strip_idem _ in
      record {
        characters =
            each-weaken (both (λ c. true) not_colon) is_legal _
              (each-sanitize (λ c. true) text colon refl refl (each-true (normalize text)));
        ends = ends;
        no_folder = no_folder-strip _ ends;
      }
