-- ===== src/Sites/Service.antt =====
-- backend/app/sites/service.py: the sites, their encrypted cookie files and the inspections that are
-- cached for them. Parameters: `encrypt` (with its random part) and `decrypt` of Fernet, `lower`,
-- `hostname`. A time is a number of microseconds. An operation is one step, so that two of one site do not
-- overlap.
pub mod Lookup
pub mod Belongs
pub mod Owned
mod Tests
use fetcharr.Base.{
  ℕ, ◌+◌, ◌==◌, true, false, not, Option, none, some, List, [], ◌∷◌, ◌++◌, keep, map, Text, codes,
  text_eq, if◌then◌else◌,
}
use fetcharr.Ytdlp.Cookies.{CookieLine, parsed, cookie_file_error, value_error, parse, render}
use fetcharr.Sites.{keep_for_domains, match_site}
use fetcharr.Sites.Rows.{
  SiteRow, CookiesRow, CachedInspection, SitesState, Answer, find_site, find_cookies, summary,
  SiteRead, read_site, site_not_found, site_exists, builtin_site, invalid_cookies, no_time,
  answered, refused,
}

-- `list(dict.fromkeys(domains))`: each once, in the order of its first place
unfoldable pub unique : List Text → List Text
unique [] = []
unique (d ∷ domains) = d ∷ keep (λ x. not (text_eq x d)) (unique domains)

-- `create`
unfoldable pub create :
    (now : ℕ) (key : Text) (domains : List Text) → SitesState → Answer SiteRead × SitesState
create now key domains s =
    let site : SiteRow = record {
      key = key;
      label = key;
      domains = unique domains;
      builtin = false;
    } in
    elim (find_site key s.sites) [
      | some other ↦ (refused (site_exists key), s)
      | none ↦ (answered (read_site site none now), record s { sites = s.sites ++ site ∷ [] })
    ]

-- `DELETE FROM site_cookies WHERE site_key = …`
unfoldable pub without_cookies : Text → List CookiesRow → List CookiesRow
without_cookies key rows = keep (λ row. not (text_eq row.site_key key)) rows

-- `delete`
unfoldable pub delete : Text → SitesState → Answer (Unit {0}) × SitesState
delete key s = elim (find_site key s.sites) [
  | none ↦ (refused (site_not_found key), s)
  | some site ↦ if site.builtin then (refused (builtin_site key), s) else (
    answered tt,
    record s {
      sites = keep (λ x. not (text_eq x.key key)) s.sites;
      cookies = without_cookies key s.cookies;
    },
  )
]

-- `delete_cookies`
unfoldable pub delete_cookies : Text → SitesState → Answer (Unit {0}) × SitesState
delete_cookies key s = elim (find_site key s.sites) [
  | none ↦ (refused (site_not_found key), s)
  | some site ↦ (answered tt, record s { cookies = without_cookies key s.cookies })
]

-- The rows of a site's cookies, changed.
unfoldable pub alter_cookies : Text → (CookiesRow → CookiesRow) → List CookiesRow → List CookiesRow
alter_cookies key f [] = []
alter_cookies key f (row ∷ rows) =
    (if text_eq row.site_key key then f row else row) ∷ alter_cookies key f rows

-- `flag`
unfoldable pub flag : Text → SitesState → SitesState
flag key s = record s {
  cookies = alter_cookies key (λ row. record row { flagged_invalid = true }) s.cookies;
}

pub record Filtered : Type 0 where
  pub text : Text
  pub count : ℕ
  pub earliest_expiry : Option ℕ

pub record SiteCookiesInUse : Type 0 where
  pub site_key : Text
  pub text : Text

pub record CookiesUploaded : Type 0 where
  pub site : SiteRead
  pub warning : Option Text

-- `", ".join(texts)`
unfoldable pub join_texts : List Text → Text
join_texts [] = []
join_texts (t ∷ []) = t
join_texts (t ∷ next ∷ texts) = t ++ (codes ", " ++ join_texts (next ∷ texts))

-- The warning of an upload that held none of the site's cookies.
unfoldable pub unsaved : List Text → Text
unfolding join_texts
unsaved domains =
    codes "None of these cookies belong to "
    ++ (join_texts domains
        ++ codes ", so nothing was saved. Export the cookies while signed in to this site.")

-- `DELETE FROM inspections WHERE site_key = …`
unfoldable pub without_inspections : Text → List CachedInspection → List CachedInspection
without_inspections key rows =
    keep (λ row. elim row.site_key [ none ↦ true | some k ↦ not (text_eq k key) ]) rows

-- The row of a site's cookies, put in the place of the old one.
unfoldable pub put_cookies : CookiesRow → List CookiesRow → List CookiesRow
put_cookies row [] = row ∷ []
put_cookies row (other ∷ rows) =
    let later = put_cookies row rows in
    if text_eq other.site_key row.site_key then row ∷ rows else other ∷ later

-- The refreshed file, if any of its cookies are the site's.
unfoldable pub worth : Filtered → Option Filtered
worth filtered = if filtered.count == 0 then none else some filtered

module _ (lower : Text → Text) where
  unfoldable pub filtered_of : (now : ℕ) → List CookieLine → Answer Filtered
  filtered_of now kept = elim (summary now kept) [
    | none ↦ refused no_time
    | some (count, earliest) ↦
        answered (record { text = render kept; count = count; earliest_expiry = earliest })
  ]

  -- `_filter`
  unfoldable pub filter : (now : ℕ) → Text → List Text → Answer Filtered
  unfolding filtered_of
  filter now text domains = elim (parse text) [
    | parsed cookies ↦ filtered_of now (keep_for_domains lower cookies domains)
    | cookie_file_error line reason ↦ refused (invalid_cookies line reason)
    | value_error ↦ refused no_time
  ]

  -- `site_key_for`
  unfoldable pub site_key_for : (hostname : Text → Option Text) → Text → SitesState → Option Text
  site_key_for hostname url s =
      match_site lower hostname url (map (λ site. (site.key, site.domains)) s.sites)

  module _ (encrypt : ℕ → Text → Text) (decrypt : Text → Option Text) where
    unfoldable pub stored_row :
        (now salt : ℕ) (key : Text) → Filtered → Option CookiesRow → CookiesRow
    stored_row now salt key filtered old = record {
      site_key = key;
      enc_blob = encrypt salt filtered.text;
      cookie_count = filtered.count;
      earliest_expiry = filtered.earliest_expiry;
      last_used_at = elim old [ none ↦ none | some row ↦ row.last_used_at ];
      flagged_invalid = false;
      uploaded_at = now;
      updated_at = now;
    }

    unfoldable pub store :
        (now salt : ℕ)
        → SiteRow
        → Text
        → Filtered
        → SitesState
        → Answer CookiesUploaded × SitesState
    unfolding stored_row unsaved
    store now salt site key filtered s =
        let row = stored_row now salt key filtered (find_cookies key s.cookies) in
        if filtered.count == 0
        then (
          answered (record {
            site = read_site site (find_cookies key s.cookies) now;
            warning = some (unsaved site.domains);
          }),
          s,
        )
        else (
          answered (record { site = read_site site (some row) now; warning = none }),
          record s {
            cookies = put_cookies row s.cookies;
            inspections = without_inspections key s.inspections;
          },
        )

    -- `upload`
    unfoldable pub upload :
        (now salt : ℕ) (key text : Text) → SitesState → Answer CookiesUploaded × SitesState
    unfolding store
    upload now salt key text s = elim (find_site key s.sites) [
      | none ↦ (refused (site_not_found key), s)
      | some site ↦ elim (filter now text site.domains) [
        | refused error ↦ (refused error, s)
        | answered filtered ↦ store now salt site key filtered s
      ]
    ]

    -- `cookies_for_site`
    unfoldable pub cookies_for_site : Text → SitesState → Option SiteCookiesInUse
    cookies_for_site key s = elim (find_cookies key s.cookies) [
      | none ↦ none
      | some row ↦ elim (decrypt row.enc_blob) [
        | none ↦ none
        | some [] ↦ none
        | some (c ∷ text) ↦ some (record { site_key = key; text = c ∷ text })
      ]
    ]

    unfoldable pub used_row : (now salt : ℕ) → Option Filtered → CookiesRow → CookiesRow
    used_row now salt none row = record row { last_used_at = some now }
    used_row now salt (some filtered) row = record row {
      last_used_at = some now;
      enc_blob = encrypt salt filtered.text;
      cookie_count = filtered.count;
      earliest_expiry = filtered.earliest_expiry;
      updated_at = now;
    }

    unfoldable pub note_use : (now salt : ℕ) → Text → Option Filtered → SitesState → SitesState
    unfolding used_row
    note_use now salt key filtered s = record s {
      cookies = alter_cookies key (used_row now salt filtered) s.cookies;
    }

    unfoldable pub refresh :
        (now salt : ℕ) → Text → Answer Filtered → SitesState → Answer (Unit {0}) × SitesState
    unfolding note_use worth
    refresh now salt key (refused (invalid_cookies line reason)) s =
        (answered tt, note_use now salt key none s)
    refresh now salt key (refused error) s = (refused error, s)
    refresh now salt key (answered filtered) s =
        (answered tt, note_use now salt key (worth filtered) s)

    -- `used`
    unfoldable pub used :
        (now salt : ℕ) (key : Text) → Option Text → SitesState → Answer (Unit {0}) × SitesState
    unfolding refresh note_use
    used now salt key none s = (answered tt, note_use now salt key none s)
    used now salt key (some refreshed) s = elim (find_site key s.sites) [
      | none ↦ (refused (site_not_found key), s)
      | some site ↦ refresh now salt key (filter now refreshed site.domains) s
    ]
