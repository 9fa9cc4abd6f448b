-- ===== src/Sites/Rows.antt =====
-- backend/app/sites/models.py, exceptions.py and schemas.py, `summary` of utils.py, and what service.py
-- reads of the rows. A time is a number of microseconds.
use fetcharr.Base.{
  ℕ, ◌+◌, ◌*◌, ◌==◌, ltb, Bool, true, false, Option, none, some, List, [], ◌∷◌, keep, map, length,
  Text, text_eq, if◌then◌else◌,
}
use fetcharr.Ytdlp.Cookies.{CookieLine, plus, minus}
use fetcharr.Sites.{text_before, CookieStatus, cookie_status}

pub record SiteRow : Type 0 where
  pub key : Text
  pub label : Text
  pub domains : List Text
  pub builtin : Bool

pub record CookiesRow : Type 0 where
  pub site_key : Text
  pub enc_blob : Text
  pub cookie_count : ℕ
  pub earliest_expiry : Option ℕ
  pub last_used_at : Option ℕ
  pub flagged_invalid : Bool
  pub uploaded_at : ℕ
  pub updated_at : ℕ

-- A row of `inspections`: its id, and the site whose cookies it ran with.
pub record CachedInspection : Type 0 where
  pub id : ℕ
  pub site_key : Option Text

pub record SitesState : Type 0 where
  pub sites : List SiteRow
  pub cookies : List CookiesRow
  pub inspections : List CachedInspection

-- backend/app/sites/exceptions.py, and the `ValueError` or `OverflowError` of a number in a cookie file
-- that is none or no time.
pub data SiteError : Type 0 where
  site_not_found site_exists builtin_site : Text → SiteError
  invalid_cookies : ℕ → Text → SiteError
  no_time : SiteError

pub data Answer (A : Type 0) : Type 0 where
  answered : A → Answer A
  refused : SiteError → Answer A

-- `session.get(Site, key)`, `session.get(SiteCookies, key)`
unfoldable pub find_site : Text → List SiteRow → Option SiteRow
find_site key [] = none
find_site key (site ∷ sites) =
    let later = find_site key sites in if text_eq site.key key then some site else later

unfoldable pub find_cookies : Text → List CookiesRow → Option CookiesRow
find_cookies key [] = none
find_cookies key (row ∷ rows) =
    let later = find_cookies key rows in if text_eq row.site_key key then some row else later

-- The last second that a `datetime` can hold.
abbrev pub last_second : ℕ
last_second = 253402300799

abbrev pub second : ℕ
second = 1000000

-- The expiries above zero, as times; `none` is the error of `fromtimestamp`.
unfoldable pub timed : List CookieLine → Option (List ℕ)
timed [] = some []
timed (c ∷ cookies) =
    let later = timed cookies in
    elim c.expires [
      | minus n ↦ later
      | plus n ↦
          if n == 0
          then later
          else if ltb last_second n
          then none
          else elim later [ none ↦ none | some times ↦ some ((n * second) ∷ times) ]
    ]

least : ℕ → List ℕ → ℕ
least n [] = n
least n (t ∷ times) = least (if ltb t n then t else n) times

greatest : ℕ → List ℕ → ℕ
greatest n [] = n
greatest n (t ∷ times) = greatest (if ltb n t then t else n) times

abbrev pub short_lived : ℕ
short_lived = 24 * (3600 * second)

unfoldable pub earliest_of : List ℕ → List ℕ → Option ℕ
unfolding least greatest
earliest_of (t ∷ lasting) times = some (least t lasting)
earliest_of [] (t ∷ times) = some (greatest t times)
earliest_of [] [] = none

-- `summary` of backend/app/sites/utils.py
unfoldable pub summary : (now : ℕ) → List CookieLine → Option (ℕ × Option ℕ)
summary now cookies = elim (timed cookies) [
  | none ↦ none
  | some times ↦
      some (length cookies, earliest_of (keep (λ t. ltb (now + short_lived) t) times) times)
]

pub record SiteRead : Type 0 where
  pub key : Text
  pub label : Text
  pub domains : List Text
  pub builtin : Bool
  pub status : CookieStatus
  pub cookie_count : Option ℕ
  pub earliest_expiry : Option ℕ
  pub last_used_at : Option ℕ
  pub uploaded_at : Option ℕ

-- `_read`
unfoldable pub read_site : SiteRow → Option CookiesRow → (now : ℕ) → SiteRead
read_site site none now = record {
  key = site.key;
  label = site.label;
  domains = site.domains;
  builtin = site.builtin;
  status = cookie_status false false none now;
  cookie_count = none;
  earliest_expiry = none;
  last_used_at = none;
  uploaded_at = none;
}
read_site site (some row) now = record {
  key = site.key;
  label = site.label;
  domains = site.domains;
  builtin = site.builtin;
  status = cookie_status true row.flagged_invalid row.earliest_expiry now;
  cookie_count = some row.cookie_count;
  earliest_expiry = row.earliest_expiry;
  last_used_at = row.last_used_at;
  uploaded_at = some row.uploaded_at;
}

-- `ORDER BY builtin DESC, key`
site_before : SiteRow → SiteRow → Bool
site_before a b =
    if a.builtin
    then (if b.builtin then text_before a.key b.key else true)
    else (if b.builtin then false else text_before a.key b.key)

put_row : SiteRow → List SiteRow → List SiteRow
unfolding site_before
put_row site [] = site ∷ []
put_row site (other ∷ sites) =
    let later = put_row site sites in
    if site_before site other then site ∷ other ∷ sites else other ∷ later

order_rows : List SiteRow → List SiteRow
order_rows [] = []
order_rows (site ∷ sites) = put_row site (order_rows sites)

-- `read_all`
unfoldable pub read_all : (now : ℕ) → SitesState → List SiteRead
unfolding put_row order_rows
read_all now s =
    map (λ site. read_site site (find_cookies site.key s.cookies) now) (order_rows s.sites)
