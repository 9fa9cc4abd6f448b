-- ===== src/Ytdlp/Cookies.antt =====
-- backend/app/ytdlp/cookies.py: the Netscape cookie file. A text is a list of code points; of the digits
-- that `isdigit` knows, the ASCII ones are modelled. A file's mode is not.
pub mod Lines
pub mod RoundTrip
pub mod Kept
use fetcharr.Base.{
  ℕ, zero, suc, ◌+◌, ◌-◌, ◌*◌, ◌==◌, leb, Bool, true, false, not, ◌&&◌, ◌||◌, none, some, is_some,
  List, [], ◌∷◌, ◌++◌, each, Text, codes, text_eq, after_prefix, if◌then◌else◌,
}
use fetcharr.Auth.Service.{strip_space}

-- What `splitlines` breaks a text at.
unfoldable pub is_break : ℕ → Bool
is_break c =
    (leb 10 c && leb c 13)
    || ((leb 28 c && leb c 30) || ((c == 133) || ((c == 8232) || (c == 8233))))

abbrev pub push_char : ℕ → List Text → List Text
push_char c [] = (c ∷ []) ∷ []
push_char c (line ∷ lines) = (c ∷ line) ∷ lines

-- `text.splitlines()`
unfoldable pub split_lines : Text → List Text
split_lines [] = []
split_lines (c ∷ []) = if is_break c then [] ∷ [] else (c ∷ []) ∷ []
split_lines (c ∷ d ∷ s) =
    let after = split_lines s in
    let next = split_lines (d ∷ s) in
    if (c == 13) && (d == 10)
    then [] ∷ after
    else if is_break c
    then [] ∷ next
    else push_char c next

-- `raw.rstrip("\r\n")`
abbrev pub push_kept : ℕ → Text → Text
push_kept c [] = if (c == 13) || (c == 10) then [] else c ∷ []
push_kept c (d ∷ s) = c ∷ d ∷ s

unfoldable pub rstrip_breaks : Text → Text
rstrip_breaks [] = []
rstrip_breaks (c ∷ s) = push_kept c (rstrip_breaks s)

-- `line.split("\t")`
unfoldable pub split_tabs : Text → List Text
split_tabs [] = [] ∷ []
split_tabs (c ∷ s) = if c == 9 then [] ∷ split_tabs s else push_char c (split_tabs s)

-- An expiry as `int` reads it: its sign and its number.
pub data Expiry : Type 0 where
  plus minus : ℕ → Expiry

pub record CookieLine : Type 0 where
  pub raw : Text
  pub domain : Text
  pub expires : Expiry

-- What a line is: nothing, a cookie, a line that CookieFileError tells of, or one that `int` fails at.
pub data Line : Type 0 where
  skipped : Line
  cookie : CookieLine → Line
  malformed : Text → Line
  no_number : Line

pub data Parsed : Type 0 where
  parsed : List CookieLine → Parsed
  cookie_file_error : ℕ → Text → Parsed
  value_error : Parsed

unfoldable pub header : Text
header = codes "# Netscape HTTP Cookie File"

unfoldable pub httponly_prefix : Text
httponly_prefix = codes "#HttpOnly_"

abbrev is_digit : ℕ → Bool
is_digit c = leb 48 c && leb c 57

unfoldable pub is_blank : Text → Bool
is_blank [] = true
is_blank (c ∷ s) = false

-- `text.lstrip("-")`, and how many were there
unfoldable pub dashes : Text → ℕ × Text
dashes [] = (0, [])
dashes (c ∷ s) = let (n, rest) = dashes s in if c == b'-' then (suc n, rest) else (0, c ∷ s)

unfoldable pub decimal : ℕ → Text → ℕ
decimal n [] = n
decimal n (c ∷ s) = decimal (n * 10 + (c - 48)) s

-- `removeprefix`
unfoldable pub without_prefix : Text → Text → Text
without_prefix prefix text = elim (after_prefix prefix text) [ none ↦ text | some rest ↦ rest ]

-- The line's expiry, once it has as many fields as it needs.
unfoldable pub expiry_line : Text → Text → ℕ × Text → Line
unfolding decimal without_prefix
expiry_line line domain (n, digits) =
    let read : Expiry → Line = λ expires.
      cookie (record {
        raw = line;
        domain = without_prefix httponly_prefix domain;
        expires = expires;
      }) in
    if is_blank digits || not (each is_digit digits)
    then malformed (codes "the expiry must be a number")
    else elim n [
      | zero ↦ read (plus (decimal 0 digits))
      | suc zero ↦ read (minus (decimal 0 digits))
      | suc (suc m) ↦ no_number
    ]

unfoldable pub fields_line : Text → List Text → Line
unfolding expiry_line dashes
fields_line line (domain ∷ b ∷ c ∷ d ∷ expires ∷ e ∷ f ∷ []) =
    expiry_line line domain (dashes (strip_space expires))
fields_line line _ = malformed (codes "expected 7 tab-separated fields")

unfoldable pub is_comment : Text → Bool
is_comment line =
    is_some (after_prefix (codes "#") line) && not (is_some (after_prefix httponly_prefix line))

-- The body of the loop of `parse`.
unfoldable pub parse_line : Text → Line
unfolding is_blank is_comment fields_line
parse_line raw =
    let line = rstrip_breaks raw in
    if is_blank (strip_space line) || is_comment line
    then skipped
    else fields_line line (split_tabs line)

-- a cookie in front of what the rest of the file gives
unfoldable pub with_cookie : CookieLine → Parsed → Parsed
with_cookie c (parsed cookies) = parsed (c ∷ cookies)
with_cookie c other = other

unfoldable pub parse_lines : ℕ → List Text → Parsed
parse_lines number [] = parsed []
parse_lines number (raw ∷ lines) =
    let rest = parse_lines (suc number) lines in
    elim (parse_line raw) [
      | skipped ↦ rest
      | cookie c ↦ with_cookie c rest
      | malformed reason ↦ cookie_file_error number reason
      | no_number ↦ value_error
    ]

-- `next((line.strip() for line in lines if line.strip()), "")`
unfoldable pub first_line : List Text → Text
unfolding is_blank
first_line [] = []
first_line (line ∷ lines) =
    let later = first_line lines in if is_blank (strip_space line) then later else strip_space line

-- `parse`
unfoldable pub parse : Text → Parsed
parse text =
    let lines = split_lines text in
    if text_eq (first_line lines) header
    then parse_lines 1 lines
    else cookie_file_error 0 (codes "not a Netscape cookie file")

unfoldable pub render_lines : List CookieLine → Text
render_lines [] = []
render_lines (c ∷ cookies) = c.raw ++ 10 ∷ render_lines cookies

-- `render`
unfoldable pub render : List CookieLine → Text
unfolding render_lines
render cookies = header ++ 10 ∷ 10 ∷ render_lines cookies
