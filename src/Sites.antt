-- ===== src/Sites.antt =====
-- backend/app/sites/utils.py: which site a URL belongs to, and which cookies a site keeps. `lower` (of a
-- text) and `hostname` (of a URL) are parameters. A site is its key and its domains; sites come in the
-- order of their keys, which differ, so that sorting the pairs sorts the keys.
pub mod Match
pub mod Rows
pub mod Service
pub mod Tests
use fetcharr.Base.{
  ℕ, ◌*◌, ◌-◌, ◌==◌, ltb, leb, Bool, true, false, not, ◌&&◌, ◌||◌, Option, none, some, List, [],
  ◌∷◌, keep, length, any as any_of, Text, text_eq, if◌then◌else◌,
}
use fetcharr.Ytdlp.Cookies.{CookieLine}

-- `text.strip(".")`
dots_left : Text → Text
dots_left [] = []
dots_left (c ∷ s) = let rest = dots_left s in if c == b'.' then rest else c ∷ s

push_dotless : ℕ → Text → Text
push_dotless c [] = if c == b'.' then [] else c ∷ []
push_dotless c (d ∷ s) = c ∷ d ∷ s

dots_right : Text → Text
dots_right [] = []
dots_right (c ∷ s) = push_dotless c (dots_right s)

unfoldable pub strip_dots : Text → Text
unfolding dots_left dots_right push_dotless
strip_dots s = dots_right (dots_left s)

-- `text.endswith(end)`
unfoldable pub ends_with : Text → Text → Bool
ends_with end [] = text_eq [] end
ends_with end (c ∷ s) = text_eq (c ∷ s) end || ends_with end s

abbrev is_there : Text → Bool
is_there [] = false
is_there (c ∷ s) = true

-- The order of two texts, as Python compares them.
unfoldable pub text_before : Text → Text → Bool
text_before [] t = true
text_before (c ∷ s) [] = false
text_before (c ∷ s) (d ∷ t) = ltb c d || ((c == d) && text_before s t)

abbrev pub Site : Type 0
Site = Text × List Text

unfoldable pub put_site : Site → List Site → List Site
put_site site [] = site ∷ []
put_site site (other ∷ sites) =
    let later = put_site site sites in
    if text_before site.0 other.0 then site ∷ other ∷ sites else other ∷ later

-- `sorted(sites)`
unfoldable pub sort_sites : List Site → List Site
sort_sites [] = []
sort_sites (site ∷ sites) = put_site site (sort_sites sites)

module _ (lower : Text → Text) where
  -- `host_matches`
  unfoldable pub host_matches : Text → Text → Bool
  host_matches host domain =
      let h = strip_dots (lower host) in
      let d = strip_dots (lower domain) in is_there d && (text_eq h d || ends_with (b'.' ∷ d) h)

  -- Whether a domain takes the place of the best one so far.
  unfoldable pub is_better : Text → Option (ℕ × Text) → Bool
  is_better domain none = true
  is_better domain (some (n, key)) = ltb n (length domain)

  -- the inner loop of `match_site`
  unfoldable pub scan_domains : Text → Text → List Text → Option (ℕ × Text) → Option (ℕ × Text)
  scan_domains host key [] best = best
  scan_domains host key (domain ∷ domains) best = scan_domains host key domains (
      if host_matches host domain && is_better domain best then some (length domain, key) else best)

  -- the outer loop
  unfoldable pub scan_sites : Text → List Site → Option (ℕ × Text) → Option (ℕ × Text)
  scan_sites host [] best = best
  scan_sites host ((key, domains) ∷ sites) best =
      scan_sites host sites (scan_domains host key domains best)

  -- `urlsplit(url).hostname or ""`
  unfoldable pub host_of : (hostname : Text → Option Text) → Text → Text
  host_of hostname url = elim (hostname url) [ none ↦ [] | some h ↦ h ]

  unfoldable pub key_of : Option (ℕ × Text) → Option Text
  key_of none = none
  key_of (some (n, key)) = some key

  -- `match_site`
  unfoldable pub match_site : (hostname : Text → Option Text) → Text → List Site → Option Text
  unfolding key_of
  match_site hostname url sites = key_of (scan_sites (host_of hostname url) (sort_sites sites) none)

  -- `keep_for_domains`
  unfoldable pub keep_for_domains : List CookieLine → List Text → List CookieLine
  keep_for_domains cookies domains =
      keep (λ c. any_of (λ d. host_matches c.domain d) domains) cookies

pub data CookieStatus : Type 0 where
  none_stored valid expiring expired flagged : CookieStatus

abbrev pub expiring_within : ℕ
expiring_within = 14 * (24 * (3600 * 1000000))

-- `cookie_status`, at times in microseconds
unfoldable pub cookie_status : Bool → Bool → Option ℕ → (now : ℕ) → CookieStatus
cookie_status has_cookies is_flagged earliest now =
    if not has_cookies then none_stored else if is_flagged then flagged else elim earliest [
      | none ↦ valid
      | some expiry ↦
          if leb expiry now
          then expired
          else if ltb (expiry - now) expiring_within
          then expiring
          else valid
    ]
