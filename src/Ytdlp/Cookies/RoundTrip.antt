-- ===== src/Ytdlp/Cookies/RoundTrip.antt =====
-- A cookie file that is parsed, rendered and parsed again: backend/app/ytdlp/cookies.py.
use mathlib.Core.Path.{subst}
use fetcharr.Base.{
  ℕ, zero, suc, ◌≡◌, refl, sym, ap, ◌∙◌, true, ◌||◌, List, [], ◌∷◌, map, each, Text, text_eq_iff,
  arith, if◌then◌else◌, Bool-cases, inl, inr, ◌⊎◌,
}
use fetcharr.Library.Naming.{is_space}
use fetcharr.Auth.Service.{strip_space}
use fetcharr.Ytdlp.Cookies.{
  is_break, split_lines, rstrip_breaks, split_tabs, CookieLine, Line, skipped, cookie, malformed,
  no_number, Parsed, parsed, cookie_file_error, value_error, header, httponly_prefix, is_blank,
  is_comment, expiry_line, dashes, fields_line, parse_line, with_cookie, parse_lines, first_line,
  parse, render_lines, render,
}
use fetcharr.Ytdlp.Cookies.Lines.{
  is_one_line, split_lines-break, split_lines-line, each-split_lines, rstrip_breaks-line,
}

-- A line that gives a cookie is the cookie's own.
raw_of : Line → Text → Text
raw_of (cookie c) other = c.raw
raw_of line other = other

expiry_line-raw :
    (line domain digits : Text) (n : ℕ) → raw_of (expiry_line line domain (n, digits)) line ≡ line
unfolding expiry_line raw_of
expiry_line-raw line domain digits zero = ground arith
expiry_line-raw line domain digits (suc zero) = ground arith
expiry_line-raw line domain digits (suc (suc n)) = ground arith

fields_line-raw : (line : Text) (fields : List Text) → raw_of (fields_line line fields) line ≡ line
unfolding fields_line raw_of
fields_line-raw line [] = refl
fields_line-raw line (a ∷ []) = refl
fields_line-raw line (a ∷ b ∷ []) = refl
fields_line-raw line (a ∷ b ∷ c ∷ []) = refl
fields_line-raw line (a ∷ b ∷ c ∷ d ∷ []) = refl
fields_line-raw line (a ∷ b ∷ c ∷ d ∷ e ∷ []) = refl
fields_line-raw line (a ∷ b ∷ c ∷ d ∷ e ∷ f ∷ []) = refl
fields_line-raw line (a ∷ b ∷ c ∷ d ∷ e ∷ f ∷ g ∷ []) =
    expiry_line-raw line a (dashes (strip_space e)).1 (dashes (strip_space e)).0
fields_line-raw line (a ∷ b ∷ c ∷ d ∷ e ∷ f ∷ g ∷ h ∷ rest) = refl

kept_line : Text → Line
kept_line l =
    if is_blank (strip_space l) || is_comment l then skipped else fields_line l (split_tabs l)

kept_line-raw : (l : Text) → raw_of (kept_line l) l ≡ l
unfolding kept_line raw_of
kept_line-raw l = elim (Bool-cases (is_blank (strip_space l) || is_comment l)) [
  | inl e ↦ rw e refl
  | inr e ↦ rw e (fields_line-raw l (split_tabs l))
]

parse_line-kept : (line : Text) → is_one_line line ≡ true → parse_line line ≡ kept_line line
unfolding parse_line kept_line
parse_line-kept line one = ap kept_line (rstrip_breaks-line line one)

pub parse_line-raw :
    (line : Text) (c : CookieLine)
    → is_one_line line ≡ true
    → parse_line line ≡ cookie c
    → c.raw ≡ line
unfolding raw_of
parse_line-raw line c one h =
    ap (λ l. raw_of l line) (sym h ∙ parse_line-kept line one) ∙ kept_line-raw line

pub with_cookie-parsed :
    (c : CookieLine) (r : Parsed) (cs : List CookieLine)
    → with_cookie c r ≡ parsed cs
    → (cs' : List CookieLine) × (r ≡ parsed cs') × (cs ≡ c ∷ cs')
unfolding with_cookie
with_cookie-parsed c (parsed cs') cs h = (cs', refl, ground (arith, h))
with_cookie-parsed c (cookie_file_error number reason) cs h = absurd (ground (arith, h))
with_cookie-parsed c value_error cs h = absurd (ground (arith, h))

parse_lines-cookie :
    (m : ℕ) (line : Text) (lines : List Text) (c : CookieLine)
    → parse_line line ≡ cookie c
    → parse_lines m (line ∷ lines) ≡ with_cookie c (parse_lines (suc m) lines)
unfolding parse_lines
parse_lines-cookie m line lines c h = ground (arith, h)

parse_lines-skipped :
    (m : ℕ) (line : Text) (lines : List Text)
    → parse_line line ≡ skipped
    → parse_lines m (line ∷ lines) ≡ parse_lines (suc m) lines
unfolding parse_lines
parse_lines-skipped m line lines h = ground (arith, h)

-- Parsing the lines of some cookies gives the cookies.
abbrev pub Stable : List CookieLine → Type 0
Stable cs =
    ((m : ℕ) → parse_lines m (map (λ c. c.raw) cs) ≡ parsed cs)
    × (each is_one_line (map (λ c. c.raw) cs) ≡ true)

pub Stable-cons :
    (line : Text) (c : CookieLine) (cs : List CookieLine)
    → is_one_line line ≡ true
    → parse_line line ≡ cookie c
    → Stable cs
    → Stable (c ∷ cs)
unfolding parse_lines with_cookie
Stable-cons line c cs one h (again, lines) =
    let own = parse_line-raw line c one h in
    (
      λ m.
          parse_lines-cookie m c.raw (map (λ x. x.raw) cs) c (ap parse_line own ∙ h)
          ∙ ap (with_cookie c) (again (suc m)),
      ground (arith, one, own, lines),
    )

pub Line-cases :
    (l : Line)
    → (l ≡ skipped)
      ⊎ (((c : CookieLine) × (l ≡ cookie c))
          ⊎ (((reason : Text) × (l ≡ malformed reason)) ⊎ (l ≡ no_number)))
Line-cases skipped = inl refl
Line-cases (cookie c) = inr (inl (c, refl))
Line-cases (malformed reason) = inr (inr (inl (reason, refl)))
Line-cases no_number = inr (inr (inr refl))

Stable-parse_lines :
    (n : ℕ) (lines : List Text) (cs : List CookieLine)
    → each is_one_line lines ≡ true
    → parse_lines n lines ≡ parsed cs
    → Stable cs
unfolding parse_lines
Stable-parse_lines n [] cs one h =
    let empty : [] ≡ cs = ground (arith, h) in subst Stable empty ((λ m. refl), refl)
Stable-parse_lines n (line ∷ lines) cs one h = elim (Line-cases (parse_line line)) [
  | inl e ↦ Stable-parse_lines (suc n) lines cs (ground (arith, one)) (ground (arith, h, e))
  | inr (inl (c, e)) ↦
      let (cs', rest, same) =
        with_cookie-parsed c (parse_lines (suc n) lines) cs (ground (arith, h, e)) in
      subst Stable (sym same) (
        Stable-cons line c cs' (ground (arith, one)) e
          (Stable-parse_lines (suc n) lines cs' (ground (arith, one)) rest))
  | inr (inr (inl (reason, e))) ↦ absurd (ground (arith, h, e))
  | inr (inr (inr e)) ↦ absurd (ground (arith, h, e))
]

split_lines-render_lines :
    (cs : List CookieLine)
    → each is_one_line (map (λ c. c.raw) cs) ≡ true
    → split_lines (render_lines cs) ≡ map (λ c. c.raw) cs
unfolding render_lines split_lines
split_lines-render_lines [] h = refl
split_lines-render_lines (c ∷ cs) h =
    split_lines-line c.raw (render_lines cs) (ground (arith, h))
    ∙ ap (λ lines. c.raw ∷ lines) (split_lines-render_lines cs (ground (arith, h)))

header_one_line : is_one_line header ≡ true
unfolding header is_break
header_one_line = refl

header_skipped : parse_line header ≡ skipped
unfolding parse_line header rstrip_breaks strip_space is_blank is_comment httponly_prefix is_space
header_skipped = refl

empty_skipped : parse_line [] ≡ skipped
unfolding parse_line rstrip_breaks strip_space is_blank
empty_skipped = refl

first_line-header : (lines : List Text) → first_line (header ∷ lines) ≡ header
unfolding first_line header strip_space is_blank is_space
first_line-header lines = refl

pub split_lines-render :
    (cs : List CookieLine)
    → each is_one_line (map (λ c. c.raw) cs) ≡ true
    → split_lines (render cs) ≡ header ∷ [] ∷ map (λ c. c.raw) cs
unfolding render
split_lines-render cs h =
    split_lines-line header (10 ∷ render_lines cs) header_line
    ∙ ap (λ lines. header ∷ lines)
        (split_lines-break (render_lines cs)
          ∙ ap (λ lines. [] ∷ lines) (split_lines-render_lines cs h))
  where
    header_line : is_one_line header ≡ true
    header_line = header_one_line

pub parse-lines :
    (text : Text) (cs : List CookieLine)
    → split_lines text ≡ header ∷ [] ∷ map (λ c. c.raw) cs
    → ((m : ℕ) → parse_lines m (map (λ c. c.raw) cs) ≡ parsed cs)
    → parse text ≡ parsed cs
unfolding parse
parse-lines text cs e again = ground (
  arith,
  ap first_line e ∙ first_line-header ([] ∷ map (λ c. c.raw) cs),
  text_eq_iff header header,
  ap (parse_lines 1) e
      ∙ parse_lines-skipped 1 header ([] ∷ map (λ c. c.raw) cs) header_skipped
      ∙ parse_lines-skipped 2 [] (map (λ c. c.raw) cs) empty_skipped
      ∙ again 3,
)

pub parse-parsed :
    (text : Text) (cs : List CookieLine)
    → parse text ≡ parsed cs
    → parse_lines 1 (split_lines text) ≡ parsed cs
unfolding parse
parse-parsed text cs h = ground (arith, h)

-- The cookies of a file that is accepted are read again, all and unchanged, from the file that is rendered
-- of them.
pub parse-render :
    (text : Text) (cs : List CookieLine) → parse text ≡ parsed cs → parse (render cs) ≡ parsed cs
parse-render text cs h =
    let (again, lines) =
      Stable-parse_lines 1 (split_lines text) cs (each-split_lines text) (parse-parsed text cs h) in
    parse-lines (render cs) cs (split_lines-render cs lines) again
