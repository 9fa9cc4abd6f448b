-- ===== src/Ytdlp/Errors.antt =====
-- What a failed run of yt-dlp means: `classify_error` of backend/app/ytdlp/inspect.py, and `scrub` of
-- backend/app/ytdlp/cookies.py. A text is a list of code points; `is_word` (what `\w` matches) is a
-- parameter. A line has no line feed inside, as the callers split at it.
pub mod Scrub
use fetcharr.Base.{
  ℕ, ◌==◌, ◌+◌, leb, Bool, true, false, not, ◌&&◌, ◌||◌, Option, none, some, is_some, List, [], ◌∷◌,
  ◌++◌, keep, map, any as any_of, Text, codes, after_prefix, if◌then◌else◌,
}
use fetcharr.Library.Naming.{is_space}
use fetcharr.Auth.Service.{strip_space}
use fetcharr.Ytdlp.Cookies.{split_lines, is_blank, without_prefix}

-- What a letter of a pattern is compared with under `IGNORECASE`: the lower case, and the characters
-- outside of ASCII that are the same letter to it (long s, the two Turkish i, the sign of Kelvin).
unfoldable pub fold : ℕ → ℕ
fold c =
    if leb b'A' c && leb c b'Z'
    then c + 32
    else if c == 383
    then b's'
    else if (c == 304) || (c == 305)
    then b'i'
    else if c == 8490
    then b'k'
    else c

abbrev pub push_first : ℕ → Option (Text × Text) → Option (Text × Text)
push_first c none = none
push_first c (some (name, rest)) = some (c ∷ name, rest)

-- The pattern at the start of a text, its letters in any case: what matched, and what follows.
unfoldable pub match_folded : Text → Text → Option (Text × Text)
match_folded [] s = some ([], s)
match_folded (p ∷ ps) [] = none
match_folded (p ∷ ps) (c ∷ s) =
    let later = match_folded ps s in if fold c == p then push_first c later else none

abbrev pub cookie_name : Text
cookie_name = codes "cookie:"

abbrev pub set_cookie_name : Text
set_cookie_name = codes "set-cookie:"

abbrev pub redaction : Text
redaction = codes "[redacted]"

-- `(?:Set-)?Cookie:` at a character
unfoldable pub header_at : Text → Option (Text × Text)
header_at s = elim (match_folded set_cookie_name s) [
  | some found ↦ some found
  | none ↦ match_folded cookie_name s
]

-- `\s*`
unfoldable pub leading_space : Text → Text
leading_space [] = []
leading_space (c ∷ s) = let more = leading_space s in if is_space c then c ∷ more else []

-- `scrub`: the first header's value, up to the end of the line
unfoldable pub scrub : Text → Text
scrub [] = []
scrub (c ∷ s) = elim (header_at (c ∷ s)) [
  | some (name, value) ↦ name ++ (leading_space value ++ redaction)
  | none ↦ c ∷ scrub s
]

-- `re.search` of a text in any case
unfoldable pub mentions : Text → Text → Bool
mentions part [] = is_blank part
mentions part (c ∷ s) = is_some (match_folded part (c ∷ s)) || mentions part s

-- `part in text`
unfoldable pub has_part : Text → Text → Bool
has_part part [] = is_blank part
has_part part (c ∷ s) = is_some (after_prefix part (c ∷ s)) || has_part part s

pub data ErrorKind : Type 0 where
  needs_cookies unsupported unavailable timeout failed : ErrorKind

module _ (is_word : ℕ → Bool) where
  -- `\bage\b` behind a character that is one of a word or not
  word_age : Bool → Text → Bool
  word_age inside [] = false
  word_age inside (c ∷ s) =
      let later = word_age (is_word c) s in
      elim (match_folded (codes "age") (c ∷ s)) [
        | none ↦ later
        | some (name, []) ↦ not inside || later
        | some (name, d ∷ rest) ↦ (not inside && not (is_word d)) || later
      ]

  -- `_NEEDS_COOKIES.search`
  unfoldable pub wants_cookies : Text → Bool
  unfolding word_age
  wants_cookies message =
      any_of (λ part. mentions part message)
        (codes "sign in"
          ∷ codes "login required"
          ∷ codes "log in required"
          ∷ codes "members-only"
          ∷ codes "members only"
          ∷ codes "private"
          ∷ [])
      || word_age false message

-- `_UNAVAILABLE.search`
unfoldable pub is_gone : Text → Bool
is_gone message =
    any_of (λ part. mentions part message)
      (codes "unavailable"
        ∷ codes "removed"
        ∷ codes "deleted"
        ∷ codes "not available"
        ∷ codes "not found"
        ∷ codes "does not exist"
        ∷ codes "no longer"
        ∷ [])

-- `[^last]+last`: what follows the first `last`, if something stands before it
after_some : ℕ → Bool → Text → Option Text
after_some last started [] = none
after_some last started (c ∷ s) =
    let rest = after_some last true s in
    if c == last then (if started then some s else none) else rest

behind_space : Option Text → Option Text
behind_space (some (c ∷ s)) = if c == b' ' then some s else none
behind_space _ = none

-- `_EXTRACTOR_PREFIX` at the start of a text: what follows `[…] …: `
after_extractor : Text → Option Text
unfolding after_some behind_space
after_extractor [] = none
after_extractor (c ∷ s) =
    if c == b'['
    then elim (behind_space (after_some b']' false s)) [
      | none ↦ none
      | some rest ↦ behind_space (after_some b':' false rest)
    ]
    else none

unfoldable pub without_extractor : Text → Text
unfolding after_extractor
without_extractor text = elim (after_extractor text) [ none ↦ text | some rest ↦ rest ]

unfoldable pub last_or : Text → List Text → Text
last_or default [] = default
last_or default (line ∷ lines) = last_or line lines

module _ (is_word : ℕ → Bool) where
  unfoldable pub kind_of : Text → Text → ErrorKind × Text
  kind_of line message =
      if wants_cookies is_word message
      then (needs_cookies, message)
      else if has_part (codes "Unsupported URL") message
      then (unsupported, codes "Unsupported URL")
      else if is_gone message
      then (unavailable, message)
      else (failed, line)

  -- `classify_error`
  unfoldable pub classify_error : Text → ErrorKind × Text
  unfolding kind_of
  classify_error stderr =
      let lines =
        map (λ line. scrub (strip_space line))
          (keep (λ line. not (is_blank (strip_space line))) (split_lines stderr)) in
      let errors = keep (λ line. is_some (after_prefix (codes "ERROR:") line)) lines in
      let last = last_or (last_or (codes "yt-dlp failed") lines) errors in
      kind_of last (without_extractor (strip_space (without_prefix (codes "ERROR:") last)))
