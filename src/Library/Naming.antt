-- ===== src/Library/Naming.antt =====
-- backend/app/library/naming.py: what a component of a path is named. A text is a list of code points.
-- `unicodedata.normalize("NFC", …)` is the parameter `normalize`, the regular expressions are scans from
-- the left, and `encode()[:n].decode(errors="ignore")` is the longest prefix that fits `n` bytes.
pub mod Sanitize
pub mod Shorten
pub mod Templates
use fetcharr.Base.{
  ℕ, ◌+◌, ◌==◌, ltb, leb, Bool, true, false, ◌||◌, ◌&&◌, ◌-◌, none, some, split_last, [], ◌∷◌, ◌++◌,
  keep, not, Text, codes, if◌then◌else◌,
}

pub data ColonMode : Type 0 where
  smart delete dash space_dash space_dash_space : ColonMode

-- `text.replace(": ", " - ")`
unfoldable pub replace_colon_space : Text → Text
replace_colon_space [] = []
replace_colon_space (c ∷ []) = c ∷ []
replace_colon_space (c ∷ d ∷ s) =
    let later = replace_colon_space s in
    let next = replace_colon_space (d ∷ s) in
    if c == b':' then (if d == b' ' then codes " - " ++ later else c ∷ next) else c ∷ next

-- `text.replace(":", with)`
unfoldable pub replace_colon : Text → Text → Text
replace_colon with [] = []
replace_colon with (c ∷ s) =
    let later = replace_colon with s in if c == b':' then with ++ later else c ∷ later

-- `_COLON_REPLACEMENTS`
unfoldable pub colon_replacement : ColonMode → Text
colon_replacement smart = codes "-"
colon_replacement delete = []
colon_replacement dash = codes "-"
colon_replacement space_dash = codes " -"
colon_replacement space_dash_space = codes " - "

unfoldable pub replace_colons : Text → ColonMode → Text
unfolding colon_replacement
replace_colons text smart = replace_colon (codes "-") (replace_colon_space text)
replace_colons text mode = replace_colon (colon_replacement mode) text

-- `_ILLEGAL`
unfoldable pub is_illegal : ℕ → Bool
is_illegal c =
    (c == b'\\')
    || ((c == b'/')
        || ((c == b'*')
            || ((c == b'?') || ((c == b'"') || ((c == b'<') || ((c == b'>') || (c == b'|')))))))

-- What `\s` matches in a `str`.
unfoldable pub is_space : ℕ → Bool
is_space c =
    (leb 9 c && leb c 13)
    || ((leb 28 c && leb c 32)
        || ((c == 133)
            || ((c == 160)
                || ((c == 5760)
                    || ((leb 8192 c && leb c 8202)
                        || ((c == 8232)
                            || ((c == 8233) || ((c == 8239) || ((c == 8287) || (c == 12288))))))))))

-- `_WHITESPACE.sub(" ", text)`, inside of a run of white space or not
unfoldable pub squeeze : Bool → Text → Text
squeeze inside [] = []
squeeze inside (c ∷ s) =
    let run = squeeze true s in
    let other = squeeze false s in
    if is_space c then (if inside then run else b' ' ∷ run) else c ∷ other

unfoldable pub is_trimmed : ℕ → Bool
is_trimmed c = (c == b' ') || (c == b'.')

unfoldable pub trim_left : Text → Text
trim_left [] = []
trim_left (c ∷ s) = let rest = trim_left s in if is_trimmed c then rest else c ∷ s

-- A character in front of a text that is trimmed at its end.
unfoldable pub push_trimmed : ℕ → Text → Text
push_trimmed c [] = if is_trimmed c then [] else c ∷ []
push_trimmed c (d ∷ s) = c ∷ d ∷ s

unfoldable pub trim_right : Text → Text
trim_right [] = []
trim_right (c ∷ s) = push_trimmed c (trim_right s)

-- `text.strip(" .")`
unfoldable pub strip : Text → Text
strip text = trim_right (trim_left text)

-- `len(text.encode())`
unfoldable pub width : ℕ → ℕ
width c = if ltb c 128 then 1 else if ltb c 2048 then 2 else if ltb c 65536 then 3 else 4

unfoldable pub size : Text → ℕ
size [] = 0
size (c ∷ s) = width c + size s

-- `text.encode()[:n].decode(errors="ignore")`
unfoldable pub fit : ℕ → Text → Text
fit n [] = []
fit n (c ∷ s) = let rest = fit (n - width c) s in if leb (width c) n then c ∷ rest else []

module _ (normalize : Text → Text) where
  unfoldable pub sanitize : Text → ColonMode → Text
  sanitize text colon =
      strip (squeeze false (keep (λ c. not (is_illegal c)) (replace_colons (normalize text) colon)))

unfoldable pub quality_label : ℕ → ℕ → Text
quality_label w h =
    let side = if leb w h then w else h in
    if leb side 480
    then codes "WEBDL-480p"
    else if leb side 720
    then codes "WEBDL-720p"
    else if leb 2160 side
    then codes "WEBDL-2160p"
    else codes "WEBDL-1080p"

-- `PurePosixPath(name).stem` and `.suffix`: a dot first or last makes no suffix.
unfoldable pub suffix : Text → Text
suffix name = elim (split_last b'.' name) [
  | none ↦ []
  | some ([], after) ↦ []
  | some (c ∷ before, []) ↦ []
  | some (c ∷ before, d ∷ after) ↦ b'.' ∷ d ∷ after
]

unfoldable pub stem : Text → Text
stem name = elim (split_last b'.' name) [
  | none ↦ name
  | some ([], after) ↦ name
  | some (c ∷ before, []) ↦ name
  | some (c ∷ before, d ∷ after) ↦ c ∷ before
]

module _ (normalize : Text → Text) where
  unfoldable pub sidecar_name : Text → Text → Text → Text
  sidecar_name video lang ext = stem video ++ b'.' ∷ sanitize normalize lang smart ++ ext
